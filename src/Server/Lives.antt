-- ===== src/Server/Lives.antt =====
-- What becomes of the connection that a task serves, in an execution of `serve_http_with_shutdown`
-- (src/http.rs).
use mathlib.Core.List.{append-nil}
use hyper_server.Prelude.{
  ℕ, zero, suc, ◌≡◌, refl, sym, ap, ◌∙◌, Bool, some, List, [], ◌∷◌, ◌++◌, get_elem?,
}
use hyper_server.Future.{Polled, panics, waits, completes}
use hyper_server.Connection.{Branch, Serving, poll_serving}
use hyper_server.Connection.ServedOut.{Drawn}
use hyper_server.Connection.Requests.{Fate, panicked, returned, fate, fate_of}
use hyper_server.Task.{
  Host, Task, spawned, serving, finished, Watcher, parts, after_serve, poll_task,
}
use hyper_server.Server.Outcomes.{
  Outcome, goes_on, spawns, shuts_down, unwinds, accept_round-Outcome,
}
use hyper_server.Server.Order.{tasks-shut_down, tasks-drain_round}
use hyper_server.Server.{
  Phase, First, Server, Turn, main, task, spawn, shut_down, unwind, drain_round, main_in, main_turn,
  after_task, poll_unfinished, poll_at, task_turn, turn, run,
}

get_elem?-append {ℓ} :
    {A : Type ℓ} (xs ys : List A) (i : ℕ) (x : A)
    → get_elem? xs i ≡ some x
    → get_elem? (xs ++ ys) i ≡ some x
get_elem?-append [] ys i x e = cc
get_elem?-append (y ∷ xs) ys zero x e = e
get_elem?-append (y ∷ xs) ys (suc i) x e = get_elem?-append xs ys i x e

-- The entry is put in front if the indices are equal.
abbrev pick {ℓ} : {A : Type ℓ} → ℕ → ℕ → A → List A → List A
pick zero zero x xs = x ∷ xs
pick (suc i) (suc j) x xs = pick i j x xs
pick _ _ x xs = xs

module _ (host : Host) where
  open host use {IO, IE, Cx, Conn, Duration, Timer}

  abbrev pub Serves : Type 0
  Serves = Serving Conn Duration Timer Watcher

  -- The polls that an execution gives the task at an index, with the channel as it is then.
  abbrev pub polls_in : ℕ → List (Turn host) → Server host → List (Drawn (parts host))
  polls_in i [] s = []
  polls_in i (main first cx ∷ ts) s = polls_in i ts (main_turn host first cx s)
  polls_in i (task j draws cx ∷ ts) s =
      pick i j ((cx, s.channel), draws) (polls_in i ts (task_turn host j draws cx s))

  -- The task of a connection, by what has become of `serve_http_connection`.
  abbrev pub task_of : Fate Serves → Task host
  task_of panicked = finished
  task_of (Fate.goes_on c) = serving c
  task_of (returned c) = finished

  abbrev further : Fate Serves → List (Drawn (parts host)) → Fate Serves
  further panicked polls = panicked
  further (Fate.goes_on c) polls = fate (parts host) polls c
  further (returned c) polls = returned c

  further-nil : (f : Fate Serves) → further f [] ≡ f
  unfolding fate
  further-nil panicked = refl
  further-nil (Fate.goes_on c) = refl
  further-nil (returned c) = refl

  further-cons :
      (f : Fate Serves) (d : Drawn (parts host)) (polls : List (Drawn (parts host)))
      → further f (d ∷ polls) ≡ further (further f (d ∷ [])) polls
  unfolding fate
  further-cons panicked d polls = refl
  further-cons (returned c) d polls = refl
  further-cons (Fate.goes_on c) (cx, draws) polls = go (poll_serving (parts host) draws c cx)
    where
      go :
          (r : Polled Serves (Unit {0}))
          → fate_of (parts host) r (fate (parts host) polls)
            ≡ further (fate_of (parts host) r (fate (parts host) [])) polls
      go panics = refl
      go (waits c) = refl
      go (completes u c) = refl

  further-pick :
      (i j : ℕ) (f : Fate Serves) (d : Drawn (parts host)) (polls : List (Drawn (parts host)))
      → further f (pick i j d polls) ≡ further (further f (pick i j d [])) polls
  further-pick zero zero f d polls = further-cons f d polls
  further-pick (suc i) (suc j) f d polls = further-pick i j f d polls
  further-pick zero (suc j) f d polls = ap (λ g. further g polls) (sym (further-nil f))
  further-pick (suc i) zero f d polls = ap (λ g. further g polls) (sym (further-nil f))

  abbrev Grows : Server host → Server host → Type 0
  Grows s t = (news : List (Task host)) × (t.tasks ≡ s.tasks ++ news)

  same-Grows : (s t : Server host) → t.tasks ≡ s.tasks → Grows s t
  same-Grows s t e = ([], e ∙ sym (append-nil s.tasks))

  Outcome-Grows : {s t : Server host} {cx : Cx} → Outcome host s cx t → Grows s t
  unfolding spawn unwind
  Outcome-Grows {s} (goes_on {t} (k, _, _)) = same-Grows s t k.tasks
  Outcome-Grows (spawns r (k, _, _)) = (spawned r ∷ [], ap (λ l. l ++ spawned r ∷ []) k.tasks)
  Outcome-Grows {s} (shuts_down {t} a (k, _)) =
      same-Grows s (shut_down host t) (tasks-shut_down host t ∙ k.tasks)
  Outcome-Grows {s} (unwinds {t} a (k, _)) = same-Grows s (unwind host t) k.tasks

  main_turn-Grows :
      (first : First) (cx : Cx) (s : Server host) → Grows s (main_turn host first cx s)
  unfolding main_turn main_in
  main_turn-Grows first cx s = go s.phase
    where
      go : (p : Phase) → Grows s (main_in host p first s cx)
      go Phase.accepting = Outcome-Grows (accept_round-Outcome host first s cx)
      go Phase.draining = same-Grows s (drain_round host s) (tasks-drain_round host s)
      go Phase.returned = same-Grows s s refl
      go Phase.panicked = same-Grows s s refl
      go Phase.dropped = same-Grows s s refl

  -- The task at an index, in what follows.
  abbrev IsAt : ℕ → Server host → Task host → Type 0
  IsAt i s t = get_elem? s.tasks i ≡ some t

  main_turn-IsAt :
      (i : ℕ) (first : First) (cx : Cx) (s : Server host) (t : Task host)
      → IsAt i s t
      → IsAt i (main_turn host first cx s) t
  main_turn-IsAt i first cx s t e =
      let (news, grown) = main_turn-Grows first cx s in
      ap (λ l. get_elem? l i) grown ∙ get_elem?-append s.tasks news i t e

  abbrev polled : ℕ → ℕ → (Task host → Task host × Bool) → Task host → Task host
  polled zero zero poll t = (poll t).0
  polled (suc i) (suc j) poll t = polled i j poll t
  polled _ _ poll t = t

  poll_at-polled :
      (poll : Task host → Task host × Bool) (i j : ℕ) (ts : List (Task host)) (t : Task host)
      → get_elem? ts i ≡ some t
      → get_elem? (poll_at host poll j ts).0 i ≡ some (polled i j poll t)
  unfolding poll_at
  poll_at-polled poll i j [] t e = cc
  poll_at-polled poll zero zero (u ∷ ts) t e = cc
  poll_at-polled poll zero (suc j) (u ∷ ts) t e = e
  poll_at-polled poll (suc i) zero (u ∷ ts) t e = e
  poll_at-polled poll (suc i) (suc j) (u ∷ ts) t e = poll_at-polled poll i j ts t e

  module _ (s : Server host) (draws : ℕ → List Branch) (cx : Cx) where
    abbrev poll : Task host → Task host × Bool
    poll = poll_unfinished host s draws cx

    abbrev drawn : Drawn (parts host)
    drawn = ((cx, s.channel), draws)

    poll-further : (f : Fate Serves) → (poll (task_of f)).0 ≡ task_of (further f (drawn ∷ []))
    unfolding poll_unfinished after_task poll_task fate
    poll-further panicked = refl
    poll-further (returned c) = refl
    poll-further (Fate.goes_on c) = go (poll_serving (parts host) draws c (cx, s.channel))
      where
        go :
            (r : Polled Serves (Unit {0}))
            → (after_task host (after_serve host r)).0
              ≡ task_of (fate_of (parts host) r (fate (parts host) []))
        go panics = refl
        go (waits c) = refl
        go (completes u c) = refl

    polled-further :
        (i j : ℕ) (f : Fate Serves)
        → polled i j poll (task_of f) ≡ task_of (further f (pick i j drawn []))
    unfolding fate
    polled-further zero zero f = poll-further f
    polled-further (suc i) (suc j) f = polled-further i j f
    polled-further zero (suc j) f = sym (ap task_of (further-nil f))
    polled-further (suc i) zero f = sym (ap task_of (further-nil f))

  run-further :
      (i : ℕ) (ts : List (Turn host)) (s : Server host) (f : Fate Serves)
      → IsAt i s (task_of f)
      → IsAt i (run host ts s) (task_of (further f (polls_in i ts s)))
  unfolding run turn task_turn
  run-further i [] s f e = e ∙ sym (ap (λ g. some (task_of g)) (further-nil f))
  run-further i (main first cx ∷ ts) s f e =
      run-further i ts (main_turn host first cx s) f (main_turn-IsAt i first cx s _ e)
  run-further i (task j draws cx ∷ ts) s f e =
      run-further i ts (task_turn host j draws cx s) next (
        poll_at-polled (poll s draws cx) i j s.tasks _ e
        ∙ ap (λ t. some t) (polled-further s draws cx i j f))
      ∙ sym (ap (λ g. some (task_of g)) (further-pick i j f (drawn s draws cx) _))
    where
      next : Fate Serves
      next = further f (pick i j (drawn s draws cx) [])

  -- In every execution, whatever the other tasks and the main future do in between: a task that
  -- serves a connection is afterwards what `serve_http_connection` makes of that connection in the
  -- polls that the task has had, each with the channel as it was then, and no turn but its polls
  -- changes it.
  pub connection_lives_by_its_polls :
      (i : ℕ) (turns : List (Turn host)) (s : Server host) (c : Serves)
      → get_elem? s.tasks i ≡ some (serving c)
      → get_elem? (run host turns s).tasks i
        ≡ some (task_of (fate (parts host) (polls_in i turns s) c))
  connection_lives_by_its_polls i turns s c e = run-further i turns s (Fate.goes_on c) e
