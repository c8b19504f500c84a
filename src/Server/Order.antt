-- ===== src/Server/Order.antt =====
-- The order in which `serve_http_with_shutdown` spawns its tasks (src/http.rs).
use mathlib.Core.List.{append_assoc}
use hyper_server.Prelude.{
  ◌≡◌, refl, sym, ap, ◌∙◌, Bool, Option, List, [], ◌∷◌, ◌++◌, map, Result, arith,
}
use hyper_server.Stream.{Arrival, items}
use hyper_server.Errors.{BoxError}
use hyper_server.Tcp.Demux.{accepted}
use hyper_server.Task.{Host, Task, spawned}
use hyper_server.Server.Polls.{to_come}
use hyper_server.Server.Outcomes.{
  Outcome, goes_on, spawns, shuts_down, unwinds, accept_round-Outcome,
}
use hyper_server.Server.{
  Phase, First, Server, Turn, main, task, start, spawn, shut_down, unwind, drain_round, main_in,
  main_turn, task_turn, turn, run,
}

-- What the second list has past the length of the first.
abbrev pub added {ℓ} : {A : Type ℓ} → List A → List A → List A
added [] news = news
added (old ∷ olds) [] = []
added (old ∷ olds) (new ∷ news) = added olds news

added-append {ℓ} : {A : Type ℓ} (olds news : List A) → added olds (olds ++ news) ≡ news
added-append [] news = refl
added-append (old ∷ olds) news = added-append olds news

added-same {ℓ} : {A : Type ℓ} (olds : List A) → added olds olds ≡ []
added-same [] = refl
added-same (old ∷ olds) = added-same olds

-- The tasks that the turns of the main future add, as they are then and in that order.
abbrev pub born : {host : Host} → List (Turn host) → Server host → List (Task host)
born [] s = []
born {host} (main first cx ∷ ts) s =
    added s.tasks (main_turn host first cx s).tasks ++ born ts (main_turn host first cx s)
born {host} (task i draws cx ∷ ts) s = born ts (task_turn host i draws cx s)

module _ (host : Host) where
  open host use {IO, IE, Cx, Signal}

  -- The tasks that the stream would still bring.
  abbrev expected : Server host → List (Task host)
  expected s = map spawned (to_come host s.incoming)

  -- Tasks are only added, and those are the first that were expected.
  abbrev InOrder : Server host → Server host → Type 0
  InOrder s t = added s.tasks t.tasks ++ expected t ≡ expected s

  unchanged-InOrder :
      (s t : Server host)
      → t.tasks ≡ s.tasks
      → to_come host s.incoming ≡ to_come host t.incoming
      → InOrder s t
  unchanged-InOrder s t e f = rw (e, added-same s.tasks, f)

  spawn-InOrder :
      (s t : Server host) (r : Result BoxError IO)
      → t.tasks ≡ s.tasks
      → to_come host s.incoming ≡ r ∷ to_come host t.incoming
      → InOrder s (spawn host r t)
  unfolding spawn
  spawn-InOrder s t r e f = rw (e, added-append s.tasks (spawned r ∷ []), f)

  pub tasks-shut_down : (s : Server host) → (shut_down host s).tasks ≡ s.tasks
  unfolding shut_down
  tasks-shut_down s = ground arith

  incoming-shut_down : (s : Server host) → (shut_down host s).incoming ≡ s.incoming
  unfolding shut_down
  incoming-shut_down s = ground arith

  Outcome-InOrder : {s t : Server host} {cx : Cx} → Outcome host s cx t → InOrder s t
  unfolding unwind
  Outcome-InOrder {s} (goes_on {t} (k, left, _)) = unchanged-InOrder s t k.tasks left
  Outcome-InOrder {s} (spawns {t} r (k, left, _)) = spawn-InOrder s t r k.tasks left
  Outcome-InOrder {s} (shuts_down {t} a (k, left)) =
      unchanged-InOrder s (shut_down host t) (tasks-shut_down t ∙ k.tasks)
        (left ∙ ap (to_come host) (sym (incoming-shut_down t)))
  Outcome-InOrder {s} (unwinds {t} a (k, left)) = unchanged-InOrder s (unwind host t) k.tasks left

  pub tasks-drain_round : (s : Server host) → (drain_round host s).tasks ≡ s.tasks
  unfolding drain_round
  tasks-drain_round s = ground arith

  incoming-drain_round : (s : Server host) → (drain_round host s).incoming ≡ s.incoming
  unfolding drain_round
  incoming-drain_round s = ground arith

  main_turn-InOrder :
      (first : First) (cx : Cx) (s : Server host) → InOrder s (main_turn host first cx s)
  unfolding main_turn main_in
  main_turn-InOrder first cx s = go s.phase
    where
      go : (p : Phase) → InOrder s (main_in host p first s cx)
      go Phase.accepting = Outcome-InOrder (accept_round-Outcome host first s cx)
      go Phase.draining =
          unchanged-InOrder s (drain_round host s) (tasks-drain_round s)
            (ap (to_come host) (sym (incoming-drain_round s)))
      go Phase.returned = unchanged-InOrder s s refl refl
      go Phase.panicked = unchanged-InOrder s s refl refl
      go Phase.dropped = unchanged-InOrder s s refl refl

  run-InOrder :
      (ts : List (Turn host)) (s : Server host) → born ts s ++ expected (run host ts s) ≡ expected s
  unfolding run turn task_turn
  run-InOrder [] s = refl
  run-InOrder (main first cx ∷ ts) s =
      append_assoc (added s.tasks (main_turn host first cx s).tasks)
        (born ts (main_turn host first cx s)) _
      ∙ ap (λ l. added s.tasks (main_turn host first cx s).tasks ++ l)
          (run-InOrder ts (main_turn host first cx s))
      ∙ main_turn-InOrder first cx s
  run-InOrder (task i draws cx ∷ ts) s = run-InOrder ts (task_turn host i draws cx s)

  -- In every execution from the start, the tasks that turns of the main future add, as they are when
  -- they are added and in that order, are tasks for the first connections and fatal errors of the
  -- incoming stream, in its order: followed by tasks for what the demultiplexer will still yield they
  -- are one for each that it yields of the whole stream.
  pub tasks_are_spawned_in_order :
      (signal : Option Signal) (tls : Bool) (incoming : List (Arrival (Result IE IO)))
      (turns : List (Turn host))
      → born turns (start host signal tls incoming)
          ++ map spawned (
              accepted host.into (items (run host turns (start host signal tls incoming)).incoming))
        ≡ map spawned (accepted host.into (items incoming))
  unfolding start
  tasks_are_spawned_in_order signal tls incoming turns =
      run-InOrder turns (start host signal tls incoming)
