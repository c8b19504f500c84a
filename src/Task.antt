-- ===== src/Task.antt =====
-- src/http.rs: `accept_tls_connection`, and the task that `serve_http_with_shutdown` spawns for each
-- item of the incoming stream.
pub mod Holding
pub mod Running
pub mod Finishing
use hyper_server.Prelude.{
  ℕ, Option, none, some, Bool, true, false, if◌then◌else◌, List, Result, ok, err,
}
use hyper_server.Future.{Future, Polled, panics, waits, completes, map_polled}
use hyper_server.Errors.{BoxError, IoError, io, foreign}
use hyper_server.Transport.{Transport, new_plain, new_tls}
use hyper_server.Connection.{Branch, Serving, Parts, poll_serving, start_serving}
use hyper_server.Watch.{Watch}

-- What `spawn_blocking(..).await` brings: the closure's result, or a `JoinError`.
pub data Joined {ℓ} (A : Type ℓ) : Type ℓ where
  joined : A → Joined A
  join_failed : (id : ℕ) → Joined A

-- The `match` of `accept_tls_connection`.
pub accept_result {ℓ} :
    {TlsStream : Type ℓ} → Joined (Result IoError TlsStream) → Result BoxError TlsStream
accept_result (joined (ok stream)) = ok stream
accept_result (joined (err e)) = err (io e)
accept_result (join_failed id) = err (foreign id)

-- The code that is not here: TLS handshakes on the blocking pool, hyper, tokio's timer, the caller's
-- signal, and the watch channel.
pub record Host : Type 1 where
  pub IO : Type 0
  pub IE : Type 0
  pub TlsStream : Type 0
  pub Handshake : Type 0
  pub Cx : Type 0
  pub Conn : Type 0
  pub E : Type 0
  pub Duration : Type 0
  pub Timer : Type 0
  pub Signal : Type 0
  pub Channel : Type 0
  pub into : IE → BoxError
  pub spawn_accept : IO → Handshake
  pub handshake : Future Cx Handshake (Joined (Result IoError TlsStream))
  pub serve_connection : Transport IO TlsStream → Conn
  pub connection : Future Cx Conn (Result E (Unit {0}))
  pub graceful_shutdown : Conn → Conn
  pub start_sleep : Duration → Cx → Timer
  pub timer : Future Cx Timer (Unit {0})
  pub signal : Future Cx Signal (Unit {0})
  pub watch : Watch Channel

-- The future of `changed` on a clone of the receiver, which has seen only the first value.
pub data Watcher : Type 0 where
  watcher : Watcher

module _ (host : Host) where
  open host use {IO, TlsStream, Handshake, Cx, Conn, E, Duration, Timer, Channel}

  -- A task polls with the channel in reach.
  abbrev pub TaskCx : Type 0
  TaskCx = Cx × Channel

  abbrev beside : {F A : Type 0} → Future Cx F A → Future TaskCx F A
  beside f = record { poll = λ s (cx, channel). f.poll s cx }

  unfoldable pub poll_changed : Watcher → TaskCx → Polled Watcher (Unit {0})
  poll_changed w (cx, channel) = if host.watch.has_changed channel then completes tt w else waits w

  abbrev pub parts : Parts TaskCx Conn E Duration Timer Watcher
  parts = record {
    connection = beside host.connection;
    graceful_shutdown = host.graceful_shutdown;
    start_sleep = λ d (cx, channel). host.start_sleep d cx;
    timer = beside host.timer;
    changed = record { poll = poll_changed };
  }

  -- Where the spawned block stands: not polled yet, with the item that it was given, in the `.await`
  -- of `accept_tls_connection` or of `serve_http_connection`, or gone.
  pub data Task : Type 0 where
    spawned : Result BoxError IO → Task
    handshaking : Handshake → Task
    serving : Serving Conn Duration Timer Watcher → Task
    finished : Task

  -- `accept_tls_connection`
  accept_tls_connection : Handshake → Cx → Polled Handshake (Result BoxError TlsStream)
  unfolding accept_result
  accept_tls_connection h cx = map_polled (λ h'. h') accept_result (host.handshake.poll h cx)

  abbrev pub after_serve :
      Polled (Serving Conn Duration Timer Watcher) (Unit {0}) → Polled Task (Unit {0})
  after_serve panics = panics
  after_serve (waits s) = waits (serving s)
  after_serve (completes a s) = completes tt finished

  -- `graceful.then_some(signal_rx.clone())`
  abbrev pub receiver : Bool → Option Watcher
  receiver graceful = if graceful then some watcher else none

  -- From the transport on, to the end of the block.
  serve_transport :
      Bool → (ℕ → List Branch) → Transport IO TlsStream → TaskCx → Polled Task (Unit {0})
  serve_transport graceful draws transport cx = after_serve (
      poll_serving parts draws
        (start_serving (λ w. w) (host.serve_connection transport) (receiver graceful) none) cx)

  after_accept :
      Bool
      → (ℕ → List Branch)
      → TaskCx
      → Polled Handshake (Result BoxError TlsStream)
      → Polled Task (Unit {0})
  after_accept graceful draws cx panics = panics
  after_accept graceful draws cx (waits h) = waits (handshaking h)
  after_accept graceful draws cx (completes (ok tls_stream) h) =
      serve_transport graceful draws (new_tls tls_stream) cx
  after_accept graceful draws cx (completes (err e) h) = completes tt finished

  -- One poll of the task; the runtime polls no task that has finished.
  unfoldable pub poll_task :
      Bool → Bool → (ℕ → List Branch) → Task → TaskCx → Polled Task (Unit {0})
  unfolding accept_tls_connection after_accept serve_transport
  poll_task graceful tls draws (spawned (err e)) cx = completes tt finished
  poll_task graceful true draws (spawned (ok stream)) cx =
      after_accept graceful draws cx (accept_tls_connection (host.spawn_accept stream) cx.0)
  poll_task graceful false draws (spawned (ok stream)) cx =
      serve_transport graceful draws (new_plain stream) cx
  poll_task graceful tls draws (handshaking h) cx =
      after_accept graceful draws cx (accept_tls_connection h cx.0)
  poll_task graceful tls draws (serving s) cx = after_serve (poll_serving parts draws s cx)
  poll_task graceful tls draws finished cx = panics
