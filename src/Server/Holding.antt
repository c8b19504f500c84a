-- ===== src/Server/Holding.antt =====
-- What holds of the connections of a server in every execution (src/http.rs).
use mathlib.Core.Path.{subst}
use hyper_server.Prelude.{
  ℕ, zero, suc, ◌≡◌, sym, ◌∙◌, Bool, true, false, if◌then◌else◌, List, [], ◌∷◌, ◌++◌, Result, All,
}
use hyper_server.Future.{Polled, panics, waits, completes}
use hyper_server.Errors.{BoxError}
use hyper_server.Connection.{Branch}
use hyper_server.Task.{Host, Task, spawned, handshaking, serving, finished}
use hyper_server.Task.Holding.{Serves, Holds, Holding, Holder, poll_task-Holding}
use hyper_server.Server.Outcomes.{
  Outcome, goes_on, spawns, shuts_down, unwinds, accept_round-Outcome,
}
use hyper_server.Server.Frame.{graceful-main_turn}
use hyper_server.Server.{
  Phase, First, Server, Turn, main, task, spawn, shut_down, unwind, drain_round, main_in, main_turn,
  after_task, poll_unfinished, poll_at, task_turn, turn, run,
}

All-append_one {ℓ} :
    {A : Type ℓ} (P : A → Type 0) (xs : List A) (x : A) → All P xs → P x → All P (xs ++ x ∷ [])
All-append_one P [] x h k = (k, tt)
All-append_one P (y ∷ xs) x h k = (h.0, All-append_one P xs x h.1 k)

module _ (host : Host) where
  open host use {IO, IE, Cx}

  -- A property that a new task has, over the turns of the main future.
  module _ (P : Task host → Type 0) (fresh : (r : Result BoxError IO) → P (spawned r)) where
    abbrev Has : Server host → Type 0
    Has s = All P s.tasks

    Outcome-Has : {s t : Server host} {cx : Cx} → Has s → Outcome host s cx t → Has t
    unfolding spawn shut_down unwind
    Outcome-Has h (goes_on (k, _, _)) = subst (All P) (sym k.tasks) h
    Outcome-Has h (spawns {t} r (k, _, _)) =
        All-append_one P t.tasks (spawned r) (subst (All P) (sym k.tasks) h) (fresh r)
    Outcome-Has {s} h (shuts_down {t} a (k, _)) = go t.graceful
      where
        go :
            (b : Bool)
            → Has (
                if b
                then (record t {
                  channel = host.watch.drop_receiver (host.watch.send t.channel);
                  phase = Phase.draining;
                })
                else (record t {
                  channel = host.watch.drop_receiver (host.watch.drop_sender t.channel);
                  phase = Phase.returned;
                }))
        go true = subst (All P) (sym k.tasks) h
        go false = subst (All P) (sym k.tasks) h
    Outcome-Has h (unwinds a (k, _)) = subst (All P) (sym k.tasks) h

    drain_round-Has : (s : Server host) → Has s → Has (drain_round host s)
    unfolding drain_round
    drain_round-Has s h = go (host.watch.is_closed s.channel)
      where
        go :
            (b : Bool)
            → Has (
                if b
                then (record s {
                  channel = host.watch.drop_sender s.channel;
                  phase = Phase.returned;
                })
                else s)
        go true = h
        go false = h

    pub main_turn-Has :
        (first : First) (cx : Cx) (s : Server host) → Has s → Has (main_turn host first cx s)
    unfolding main_turn
    main_turn-Has first cx s h = go s.phase
      where
        go : (p : Phase) → Has (main_in host p first s cx)
        go Phase.accepting = Outcome-Has h (accept_round-Outcome host first s cx)
        go Phase.draining = drain_round-Has s h
        go Phase.returned = h
        go Phase.panicked = h
        go Phase.dropped = h

  poll_at-All :
      (P : Task host → Type 0) (poll : Task host → Task host × Bool)
      → ((t : Task host) → P t → P (poll t).0)
      → (i : ℕ) (ts : List (Task host)) → All P ts
      → All P (poll_at host poll i ts).0
  unfolding poll_at
  poll_at-All P poll keeps i [] h = tt
  poll_at-All P poll keeps zero (t ∷ ts) h = (keeps t h.0, h.1)
  poll_at-All P poll keeps (suc i) (t ∷ ts) h = (h.0, poll_at-All P poll keeps i ts h.1)

  -- What holds of a connection from its start and over its polls.
  module _ {graceful : Bool} (P : Serves host → Type 0) (holder : Holder host P graceful) where
    after_task-Holds :
        (r : Polled (Task host) (Unit {0})) → Holding host P r → Holds host P (after_task host r).0
    unfolding after_task
    after_task-Holds panics h = tt
    after_task-Holds (waits t) h = h
    after_task-Holds (completes a t) h = tt

    poll_unfinished-Holds :
        (s : Server host) (draws : ℕ → List Branch) (cx : Cx)
        → s.graceful ≡ graceful
        → (t : Task host) → Holds host P t
        → Holds host P (poll_unfinished host s draws cx t).0
    unfolding poll_unfinished
    poll_unfinished-Holds s draws cx g finished h = tt
    poll_unfinished-Holds s draws cx g (spawned r) h = rw g (
        after_task-Holds _
          (poll_task-Holding host P holder draws (cx, s.channel) s.tls (spawned r) h))
    poll_unfinished-Holds s draws cx g (handshaking x) h = rw g (
        after_task-Holds _
          (poll_task-Holding host P holder draws (cx, s.channel) s.tls (handshaking x) h))
    poll_unfinished-Holds s draws cx g (serving c) h = rw g (
        after_task-Holds _
          (poll_task-Holding host P holder draws (cx, s.channel) s.tls (serving c) h))

    pub task_turn-Holds :
        (i : ℕ) (draws : ℕ → List Branch) (cx : Cx) (s : Server host)
        → s.graceful ≡ graceful
        → All (Holds host P) s.tasks
        → All (Holds host P) (task_turn host i draws cx s).tasks
    unfolding task_turn
    task_turn-Holds i draws cx s g h =
        poll_at-All (Holds host P) (poll_unfinished host s draws cx)
          (poll_unfinished-Holds s draws cx g) i s.tasks h

    pub run-Holds :
        (ts : List (Turn host)) (s : Server host)
        → s.graceful ≡ graceful
        → All (Holds host P) s.tasks
        → All (Holds host P) (run host ts s).tasks
    unfolding run turn task_turn
    run-Holds [] s g h = h
    run-Holds (main first cx ∷ ts) s g h =
        run-Holds ts (main_turn host first cx s) (graceful-main_turn host first cx s ∙ g)
          (main_turn-Has (Holds host P) (λ r. tt) first cx s h)
    run-Holds (task i draws cx ∷ ts) s g h =
        run-Holds ts (task_turn host i draws cx s) g (task_turn-Holds i draws cx s g h)
