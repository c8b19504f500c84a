-- ===== src/Server/Tasks.antt =====
-- A turn of a task, seen from the tasks and the channel (src/http.rs).
use hyper_server.Prelude.{
  ℕ, zero, suc, ◌+◌, ◌≡◌, refl, ◌⊎◌, Bool, if◌then◌else◌, List, [], ◌∷◌, arith,
}
use hyper_server.Future.{Polled, panics, waits, completes}
use hyper_server.Watch.{IsWatch}
use hyper_server.Connection.{Branch}
use hyper_server.Task.{Host, Task, spawned, handshaking, serving, finished}
use hyper_server.Task.Running.{Runs, poll_task-Runs}
use hyper_server.Server.Invariant.{live, total_live, Inv}
use hyper_server.Server.{Server, after_task, poll_unfinished, poll_at, task_turn}

module _ (host : Host) where
  open host use {Cx}

  -- The effect of a poll on one task: it stays as live as it was, or ends.
  abbrev Counted : Task host → Task host × Bool → Type 0
  Counted t (t', over) = live t ≡ live t' + (if over then 1 else 0)

  after_task-Counted :
      (t : Task host) (r : Polled (Task host) (Unit {0}))
      → live t ≡ 1
      → Runs host r
      → Counted t (after_task host r)
  unfolding after_task
  after_task-Counted t panics h k = h
  after_task-Counted t (waits (spawned r)) h k = h
  after_task-Counted t (waits (handshaking r)) h k = h
  after_task-Counted t (waits (serving r)) h k = h
  after_task-Counted t (waits finished) h k = absurd k
  after_task-Counted t (completes u t') h k = h

  poll_unfinished-Counted :
      (s : Server host) (draws : ℕ → List Branch) (cx : Cx) (t : Task host)
      → Counted t (poll_unfinished host s draws cx t)
  unfolding poll_unfinished
  poll_unfinished-Counted s draws cx finished = refl
  poll_unfinished-Counted s draws cx (spawned r) =
      after_task-Counted (spawned r) _ refl
        (poll_task-Runs host s.graceful s.tls draws (spawned r) (cx, s.channel))
  poll_unfinished-Counted s draws cx (handshaking h) =
      after_task-Counted (handshaking h) _ refl
        (poll_task-Runs host s.graceful s.tls draws (handshaking h) (cx, s.channel))
  poll_unfinished-Counted s draws cx (serving c) =
      after_task-Counted (serving c) _ refl
        (poll_task-Runs host s.graceful s.tls draws (serving c) (cx, s.channel))

  poll_at-total_live :
      (poll : Task host → Task host × Bool)
      → ((t : Task host) → Counted t (poll t))
      → (i : ℕ) (ts : List (Task host))
      → total_live ts
        ≡ total_live (poll_at host poll i ts).0 + (if (poll_at host poll i ts).1 then 1 else 0)
  unfolding poll_at
  poll_at-total_live poll counted i [] = omega arith
  poll_at-total_live poll counted zero (t ∷ ts) = omega (arith, counted t)
  poll_at-total_live poll counted (suc i) (t ∷ ts) =
      omega (arith, poll_at-total_live poll counted i ts)

  pub task_turn-Inv :
      IsWatch host.watch
      → (i : ℕ) (draws : ℕ → List Branch) (cx : Cx) (s : Server host) → Inv host s
      → Inv host (task_turn host i draws cx s)
  unfolding task_turn
  task_turn-Inv laws i draws cx s v = record {
    count = ground (arith, kept, laws.count-drop s.channel);
    changed = ground (arith, laws.changed-drop s.channel);
    unsignalled = v.unsignalled;
    open_ended = v.open_ended;
    emptied = ground (arith, kept);
  }
    where
      kept :
          total_live s.tasks
          ≡ total_live (poll_at host (poll_unfinished host s draws cx) i s.tasks).0
            + (if (poll_at host (poll_unfinished host s draws cx) i s.tasks).1 then 1 else 0)
      kept =
          poll_at-total_live (poll_unfinished host s draws cx) (poll_unfinished-Counted s draws cx)
            i s.tasks

  -- A turn of a task takes at most that one away.
  pub total_live-task_turn :
      (i : ℕ) (draws : ℕ → List Branch) (cx : Cx) (s : Server host)
      → (total_live (task_turn host i draws cx s).tasks ≡ total_live s.tasks)
        ⊎ (total_live s.tasks ≡ suc (total_live (task_turn host i draws cx s).tasks))
  unfolding task_turn
  total_live-task_turn i draws cx s = ground (
    arith,
    poll_at-total_live (poll_unfinished host s draws cx) (poll_unfinished-Counted s draws cx) i
        s.tasks,
  )
