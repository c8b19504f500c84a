-- ===== src/Server.antt =====
-- src/http.rs: `serve_http_with_shutdown`, the accept loop and the graceful shutdown, with the tasks
-- that it spawns. A turn is one round of the main future or one poll of a task, and an execution is
-- any sequence of turns.
pub mod Polls
pub mod Outcomes
pub mod Invariant
pub mod Tasks
pub mod Frame
pub mod Turns
pub mod Shutdown
pub mod Silent
pub mod Holding
pub mod Covers
pub mod Shutting
pub mod Completion
pub mod Lives
pub mod InFlight
pub mod Dropped
pub mod Stopped
pub mod Progress
pub mod Countdown
pub mod Signalled
pub mod Idle
pub mod Contract
pub mod Broadcast
pub mod Spawning
pub mod Order
pub mod Diagram
pub mod Follows
pub mod Refinement
use hyper_server.Prelude.{
  ℕ, zero, suc, Option, none, some, Bool, true, false, if◌then◌else◌, List, [], ◌∷◌, ◌++◌, Result,
}
use hyper_server.Future.{Polled, panics, waits, completes, map_polled}
use hyper_server.Fuse.{Fuse, poll_fuse}
use hyper_server.Stream.{Arrival, Next, crashes, yields, ended}
use hyper_server.Stream
use hyper_server.Errors.{BoxError}
use hyper_server.Tcp.{serve_tcp_incoming}
use hyper_server.Connection.{Branch}
use hyper_server.Task.{Host, Task, spawned, finished, poll_task}

-- Where the main future stands: in its loop, in `signal_tx.closed().await`, returned with `Ok(())`,
-- unwound by a panic of the caller's signal, or dropped by the caller before it has returned.
pub data Phase : Type 0 where
  accepting draining returned panicked dropped : Phase

-- The branch that `select!` draws to be polled first.
pub data First : Type 0 where
  sig_first incoming_first : First

module _ (host : Host) where
  open host use {IO, IE, Cx, Signal, Channel, watch}

  -- The local variables of the main future and the spawned tasks, oldest first. `exhausted`: the
  -- pattern `Some(io_result)` has failed, which disables its branch for as long as `select!` lasts.
  pub record Server : Type 0 where
    pub graceful : Bool
    pub tls : Bool
    pub sig : Fuse Signal
    pub incoming : List (Arrival (Result IE IO))
    pub exhausted : Bool
    pub channel : Channel
    pub tasks : List (Task host)
    pub phase : Phase

  -- `signal.is_some()`
  abbrev is_some : Option Signal → Bool
  is_some (some s) = true
  is_some none = false

  -- Up to the loop. `tls`: whether there is a TLS configuration.
  unfoldable pub start : Option Signal → Bool → List (Arrival (Result IE IO)) → Server
  start signal tls incoming = record {
    graceful = is_some signal;
    tls = tls;
    sig = record { inner = signal };
    incoming = incoming;
    exhausted = false;
    channel = watch.channel;
    tasks = [];
    phase = Phase.accepting;
  }

  pub poll_sig : Server → Cx → Polled Server (Unit {0})
  poll_sig s cx = map_polled (λ g. record s { sig = g }) (λ u. u) (poll_fuse host.signal s.sig cx)

  after_next :
      Server
      → Next (List (Arrival (Result IE IO))) (Result BoxError IO)
      → Polled Server (Result BoxError IO)
  after_next s crashes = panics
  after_next s (Stream.waits rest) = waits (record s { incoming = rest })
  after_next s (yields io_result rest) = completes io_result (record s { incoming = rest })
  after_next s ended = waits (record s { incoming = []; exhausted = true })

  -- `Some(io_result) = incoming.next()`
  pub poll_incoming : Server → Polled Server (Result BoxError IO)
  unfolding after_next
  poll_incoming s =
      if s.exhausted then waits s else after_next s (serve_tcp_incoming host.into s.incoming)

  -- `tokio::spawn`, with `graceful.then_some(signal_rx.clone())`: the clone is made in any case.
  pub spawn : Result BoxError IO → Server → Server
  spawn io_result s = record s {
    channel =
        let cloned = watch.clone_receiver s.channel in
        if s.graceful then cloned else watch.drop_receiver cloned;
    tasks = s.tasks ++ spawned io_result ∷ [];
  }

  -- Out of the loop: what stands between it and the `.await` at the end.
  pub shut_down : Server → Server
  shut_down s =
      if s.graceful
      then (record s {
        channel = watch.drop_receiver (watch.send s.channel);
        phase = Phase.draining;
      })
      else (record s {
        channel = watch.drop_receiver (watch.drop_sender s.channel);
        phase = Phase.returned;
      })

  -- A panic of the caller's signal, which drops the locals.
  pub unwind : Server → Server
  unwind s = record s {
    channel = watch.drop_receiver (watch.drop_sender s.channel);
    phase = Phase.panicked;
  }

  after_incoming : Polled Server (Result BoxError IO) → Server → Server
  after_incoming panics s = unwind s
  after_incoming (waits s') s = s'
  after_incoming (completes io_result s') s = spawn io_result s'

  -- One round of the loop.
  pub accept_round : First → Server → Cx → Server
  unfolding after_incoming
  accept_round First.sig_first s cx = elim (poll_sig s cx) [
    | panics ↦ unwind s
    | completes u s' ↦ shut_down s'
    | waits s' ↦ after_incoming (poll_incoming s') s'
  ]
  accept_round First.incoming_first s cx = elim (poll_incoming s) [
    | panics ↦ unwind s
    | completes io_result s' ↦ spawn io_result s'
    | waits s' ↦ elim (poll_sig s' cx) [
      | panics ↦ unwind s'
      | completes u s'' ↦ shut_down s''
      | waits s'' ↦ s''
    ]
  ]

  -- `signal_tx.closed().await`
  pub drain_round : Server → Server
  drain_round s =
      if watch.is_closed s.channel
      then (record s { channel = watch.drop_sender s.channel; phase = Phase.returned })
      else s

  main_in : Phase → First → Server → Cx → Server
  main_in Phase.accepting first s cx = accept_round first s cx
  main_in Phase.draining first s cx = drain_round s
  main_in Phase.returned first s cx = s
  main_in Phase.panicked first s cx = s
  main_in Phase.dropped first s cx = s

  unfoldable pub main_turn : First → Cx → Server → Server
  unfolding main_in accept_round drain_round spawn shut_down unwind poll_incoming poll_sig
  main_turn first cx s = main_in s.phase first s cx

  pub drop_in : Phase → Server → Server
  drop_in Phase.accepting s = record s {
    channel = watch.drop_receiver (watch.drop_sender s.channel);
    phase = Phase.dropped;
  }
  drop_in Phase.draining s = record s {
    channel = watch.drop_sender s.channel;
    phase = Phase.dropped;
  }
  drop_in Phase.returned s = s
  drop_in Phase.panicked s = s
  drop_in Phase.dropped s = s

  -- The caller drops the main future: the locals that it has where it stands go with it.
  unfoldable pub drop_main : Server → Server
  unfolding drop_in
  drop_main s = drop_in s.phase s

  -- A task that returns or panics is dropped, and its receiver with it.
  after_task : Polled (Task host) (Unit {0}) → Task host × Bool
  after_task panics = (finished, true)
  after_task (waits t) = (t, false)
  after_task (completes u t) = (finished, true)

  pub poll_unfinished : Server → (ℕ → List Branch) → Cx → Task host → Task host × Bool
  unfolding after_task
  poll_unfinished s draws cx finished = (finished, false)
  poll_unfinished s draws cx t =
      after_task (poll_task host s.graceful s.tls draws t (cx, s.channel))

  -- The tasks after a poll of the one at an index, and whether it has ended.
  pub poll_at : (Task host → Task host × Bool) → ℕ → List (Task host) → List (Task host) × Bool
  poll_at poll i [] = ([], false)
  poll_at poll zero (t ∷ ts) = let (t', over) = poll t in (t' ∷ ts, over)
  poll_at poll (suc i) (t ∷ ts) = let (ts', over) = poll_at poll i ts in (t ∷ ts', over)

  unfoldable pub task_turn : ℕ → (ℕ → List Branch) → Cx → Server → Server
  unfolding poll_unfinished poll_at
  task_turn i draws cx s =
      let (ts, over) = poll_at (poll_unfinished s draws cx) i s.tasks in
      record s {
        tasks = ts;
        channel =
            if over
            then (if s.graceful then watch.drop_receiver s.channel else s.channel)
            else s.channel;
      }

  pub data Turn : Type 0 where
    main : First → Cx → Turn
    task : ℕ → (ℕ → List Branch) → Cx → Turn

  unfoldable pub turn : Turn → Server → Server
  turn (main first cx) s = main_turn first cx s
  turn (task i draws cx) s = task_turn i draws cx s

  -- An execution.
  unfoldable pub run : List Turn → Server → Server
  run [] s = s
  run (t ∷ ts) s = run ts (turn t s)
