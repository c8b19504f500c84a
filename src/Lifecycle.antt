-- ===== src/Lifecycle.antt =====
-- The end of `main` in examples/tower_service_fn.rs and examples/tonic.rs: a task runs the server, the
-- main task waits for Ctrl+C, sends the shutdown signal, and waits for the server's task.
pub mod Heard
pub mod Ends
pub mod Serves
pub mod Joining
pub mod Completes
use hyper_server.Prelude.{
  ℕ, Option, none, some, Bool, true, false, if◌then◌else◌, Result, ok, err, List, [], ◌∷◌,
}
use hyper_server.Future.{Future, Polled, panics, waits, completes}
use hyper_server.Stream.{Arrival}
use hyper_server.Connection.{Branch}
use hyper_server.Task.{Host}
use hyper_server.Server.{Phase, First, Server, start, main_turn, task_turn}

-- What `main` fails with: the error of `ctrl_c()`, or a `JoinError` of the server's task.
pub data MainError (E : Type 0) : Type 0 where
  interrupt_failed : E → MainError E
  join_failed : MainError E

-- Where `main` stands: in `ctrl_c().await?`, in `server.await?`, returned, or unwound.
pub data Ending (Interrupt E : Type 0) : Type 0 where
  interrupted_by : Interrupt → Ending Interrupt E
  joining : Ending Interrupt E
  ended : Result (MainError E) (Unit {0}) → Ending Interrupt E
  unwound : Ending Interrupt E

-- Whether `main` is over, and the runtime with it, which runs the server and the connections.
abbrev pub is_over : {Interrupt E : Type 0} → Ending Interrupt E → Bool
is_over (ended r) = true
is_over unwound = true
is_over _ = false

-- The code that is not here: the future of `ctrl_c()`, and what a poll of the server's task may read,
-- the state of the `oneshot` channel included: whether its sender has sent, or is gone.
pub record Outside (host : Host) : Type 1 where
  pub Interrupt : Type 0
  pub E : Type 0
  pub Cx : Type 0
  pub interrupt : Future Cx Interrupt (Result E (Unit {0}))
  pub context : Bool → Cx → host.Cx

module _ (host : Host) (outside : Outside host) where
  open host use {IO, IE, Signal}
  open outside use {Interrupt, E, Cx, context}

  pub record Example : Type 0 where
    pub ending : Ending Interrupt E
    -- Whether `shutdown_tx` has sent, or is gone.
    pub sent : Bool
    pub server : Server host

  -- When `main` gets to `ctrl_c()`: the server's task is spawned.
  unfoldable pub launch : Interrupt → Signal → List (Arrival (Result IE IO)) → Example
  launch interrupt shutdown_rx incoming = record {
    ending = interrupted_by interrupt;
    sent = false;
    server = start host (some shutdown_rx) true incoming;
  }

  -- `server.await?`, by what has become of the server's task: a panic of it, or its end without a
  -- result, is a `JoinError`.
  pub join : Phase → Ending Interrupt E
  join Phase.accepting = joining
  join Phase.draining = joining
  join Phase.returned = ended (ok tt)
  join Phase.panicked = ended (err join_failed)
  join Phase.dropped = ended (err join_failed)

  -- `ctrl_c().await?`, `let _ = shutdown_tx.send(())` and what follows. `main` drops its sender when it
  -- fails.
  pub after_interrupt : Polled Interrupt (Result E (Unit {0})) → Example → Example
  unfolding join
  after_interrupt panics p = record p { ending = unwound; sent = true }
  after_interrupt (waits i) p = record p { ending = interrupted_by i }
  after_interrupt (completes (err e) i) p = record p {
    ending = ended (err (interrupt_failed e));
    sent = true;
  }
  after_interrupt (completes (ok u) i) p = record p { ending = join p.server.phase; sent = true }

  pub poll_main : Ending Interrupt E → Cx → Example → Example
  unfolding after_interrupt join
  poll_main (interrupted_by i) cx p = after_interrupt (outside.interrupt.poll i cx) p
  poll_main joining cx p = record p { ending = join p.server.phase }
  poll_main (ended r) cx p = p
  poll_main unwound cx p = p

  -- A poll of `main`, of the server's task, or of the task of a connection.
  pub data Step : Type 0 where
    main_poll : Cx → Step
    server_poll : First → Cx → Step
    task_poll : ℕ → (ℕ → List Branch) → Cx → Step

  abbrev pub server_turn : Step → Example → Server host
  server_turn (main_poll cx) p = p.server
  server_turn (server_poll first cx) p = main_turn host first (context p.sent cx) p.server
  server_turn (task_poll i draws cx) p = task_turn host i draws (context p.sent cx) p.server

  step_in : Step → Example → Example
  unfolding poll_main
  step_in (main_poll cx) p = poll_main p.ending cx p
  step_in st p = record p { server = server_turn st p }

  unfoldable pub step : Step → Example → Example
  unfolding step_in
  step st p = if is_over p.ending then p else step_in st p

  unfoldable pub steps : List Step → Example → Example
  steps [] p = p
  steps (st ∷ sts) p = steps sts (step st p)
