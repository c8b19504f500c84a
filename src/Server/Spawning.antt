-- ===== src/Server/Spawning.antt =====
-- The tasks against the items of the incoming stream (src/http.rs, src/tcp.rs).
use hyper_server.Prelude.{
  ℕ, zero, suc, ◌+◌, ◌≡◌, refl, ◌∙◌, Bool, Option, List, [], ◌∷◌, Result, length, length-append,
  arith,
}
use hyper_server.Stream.{Arrival, items}
use hyper_server.Errors.{BoxError}
use hyper_server.Tcp.Demux.{accepted}
use hyper_server.Task.{Host, Task, spawned}
use hyper_server.Server.Polls.{to_come, Still}
use hyper_server.Server.Outcomes.{
  Outcome, goes_on, spawns, shuts_down, unwinds, accept_round-Outcome,
}
use hyper_server.Server.{
  Phase, First, Server, Turn, main, task, start, spawn, shut_down, unwind, drain_round, main_in,
  main_turn, poll_at, poll_unfinished, task_turn, turn, run,
}

module _ (host : Host) where
  open host use {IO, IE, Cx, Signal}

  -- Tasks spawned, and connections and errors that are still to come.
  abbrev total : Server host → ℕ
  total s = length s.tasks + length (to_come host s.incoming)

  total-Still : {s t : Server host} → Still host s t → total t ≡ total s
  total-Still (k, left) = rw (k.tasks, left)

  total-spawn : (r : Result BoxError IO) (s : Server host) → total (spawn host r s) ≡ total s + 1
  unfolding spawn
  total-spawn r s = omega (arith, length-append s.tasks (spawned r ∷ []))

  total-shut_down : (s : Server host) → total (shut_down host s) ≡ total s
  unfolding shut_down
  total-shut_down s = ground arith

  total-drain_round : (s : Server host) → total (drain_round host s) ≡ total s
  unfolding drain_round
  total-drain_round s = ground arith

  total-Outcome : {s t : Server host} {cx : Cx} → Outcome host s cx t → total t ≡ total s
  unfolding unwind
  total-Outcome (goes_on (k, left, _)) = total-Still (k, left)
  total-Outcome (spawns {t} r (k, left, _)) = total-spawn r t ∙ rw (k.tasks, left) (omega arith)
  total-Outcome (shuts_down {t} a q) = total-shut_down t ∙ total-Still q
  total-Outcome (unwinds a q) = total-Still q

  total-main_turn :
      (first : First) (cx : Cx) (s : Server host) → total (main_turn host first cx s) ≡ total s
  unfolding main_turn
  total-main_turn first cx s = go s.phase
    where
      go : (p : Phase) → total (main_in host p first s cx) ≡ total s
      go Phase.accepting = total-Outcome (accept_round-Outcome host first s cx)
      go Phase.draining = total-drain_round s
      go Phase.returned = refl
      go Phase.panicked = refl
      go Phase.dropped = refl

  pub length-poll_at :
      (poll : Task host → Task host × Bool) (i : ℕ) (ts : List (Task host))
      → length (poll_at host poll i ts).0 ≡ length ts
  unfolding poll_at
  length-poll_at poll i [] = refl
  length-poll_at poll zero (t ∷ ts) = refl
  length-poll_at poll (suc i) (t ∷ ts) = omega (arith, length-poll_at poll i ts)

  total-run : (ts : List (Turn host)) (s : Server host) → total (run host ts s) ≡ total s
  unfolding run turn task_turn
  total-run [] s = refl
  total-run (main first cx ∷ ts) s =
      total-run ts (main_turn host first cx s) ∙ total-main_turn first cx s
  total-run (task i draws cx ∷ ts) s = omega (
    arith,
    total-run ts (task_turn host i draws cx s),
    length-poll_at (poll_unfinished host s draws cx) i s.tasks,
  )

  -- In every execution from the start, the tasks that have been spawned and what the demultiplexer
  -- will still yield are together what it yields of the whole incoming stream: no connection is lost
  -- and none is spawned twice.
  pub one_task_for_each_connection :
      (signal : Option Signal) (tls : Bool) (incoming : List (Arrival (Result IE IO)))
      (turns : List (Turn host))
      → length (run host turns (start host signal tls incoming)).tasks
          + length (
              accepted host.into (items (run host turns (start host signal tls incoming)).incoming))
        ≡ length (accepted host.into (items incoming))
  unfolding start
  one_task_for_each_connection signal tls incoming turns =
      omega (arith, total-run turns (start host signal tls incoming))
