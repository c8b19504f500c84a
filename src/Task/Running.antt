-- ===== src/Task/Running.antt =====
-- Tasks that wait, and tasks that are gone (src/http.rs).
use hyper_server.Prelude.{ℕ, Bool, true, false, List, Result, ok, err}
use hyper_server.Future.{Polled, panics, waits, completes}
use hyper_server.Errors.{BoxError}
use hyper_server.Transport.{Transport, new_plain}
use hyper_server.Connection.{Branch, Serving, poll_serving}
use hyper_server.Task.{
  Host, Task, TaskCx, spawned, handshaking, serving, finished, parts, after_serve, after_accept,
  serve_transport, poll_task,
}

module _ (host : Host) where
  abbrev pub IsRunning : Task host → Type 0
  IsRunning finished = ⊥
  IsRunning _ = Unit

  -- The outcome of a poll: a task that waits is running.
  abbrev pub Runs : Polled (Task host) (Unit {0}) → Type 0
  Runs (waits t) = IsRunning t
  Runs _ = Unit

  after_serve-Runs : (r : Polled (Serving _ _ _ _) (Unit {0})) → Runs (after_serve host r)
  after_serve-Runs panics = tt
  after_serve-Runs (waits s) = tt
  after_serve-Runs (completes u s) = tt

  serve_transport-Runs :
      (graceful : Bool) (draws : ℕ → List Branch) (transport : Transport host.IO host.TlsStream)
      (cx : TaskCx host)
      → Runs (serve_transport host graceful draws transport cx)
  unfolding serve_transport
  serve_transport-Runs graceful draws transport cx =
      after_serve-Runs (poll_serving (parts host) draws _ cx)

  after_accept-Runs :
      (graceful : Bool) (draws : ℕ → List Branch) (cx : TaskCx host)
      (r : Polled host.Handshake (Result BoxError host.TlsStream))
      → Runs (after_accept host graceful draws cx r)
  unfolding after_accept
  after_accept-Runs graceful draws cx panics = tt
  after_accept-Runs graceful draws cx (waits h) = tt
  after_accept-Runs graceful draws cx (completes (ok stream) h) =
      serve_transport-Runs graceful draws _ cx
  after_accept-Runs graceful draws cx (completes (err e) h) = tt

  pub poll_task-Runs :
      (graceful tls : Bool) (draws : ℕ → List Branch) (t : Task host) (cx : TaskCx host)
      → Runs (poll_task host graceful tls draws t cx)
  unfolding poll_task
  poll_task-Runs graceful tls draws (spawned (err e)) cx = tt
  poll_task-Runs graceful true draws (spawned (ok stream)) cx =
      after_accept-Runs graceful draws cx _
  poll_task-Runs graceful false draws (spawned (ok stream)) cx =
      serve_transport-Runs graceful draws (new_plain stream) cx
  poll_task-Runs graceful tls draws (handshaking h) cx = after_accept-Runs graceful draws cx _
  poll_task-Runs graceful tls draws (serving s) cx =
      after_serve-Runs (poll_serving (parts host) draws s cx)
  poll_task-Runs graceful tls draws finished cx = tt
