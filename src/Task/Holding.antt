-- ===== src/Task/Holding.antt =====
-- What holds of a connection from its start and over its polls, at the task that serves it
-- (src/http.rs).
use hyper_server.Prelude.{ℕ, none, Bool, true, false, List, Result, ok, err}
use hyper_server.Future.{Polled, panics, waits, completes}
use hyper_server.Errors.{BoxError}
use hyper_server.Transport.{Transport, new_plain, new_tls}
use hyper_server.Connection.Select.{Round}
use hyper_server.Connection.{Branch, Serving, poll_serving, start_serving}
use hyper_server.Task.{
  Host, Task, spawned, handshaking, serving, finished, Watcher, TaskCx, parts, receiver,
  after_serve, after_accept, serve_transport, poll_task,
}

module _ (host : Host) where
  -- The locals of `serve_http_connection` in a task.
  abbrev pub Serves : Type 0
  Serves = Serving host.Conn host.Duration host.Timer Watcher

module _ (host : Host) (P : Serves host → Type 0) where
  abbrev pub Holds : Task host → Type 0
  Holds (serving s) = P s
  Holds _ = Unit

  -- The outcome of a poll.
  abbrev pub Holding : Polled (Task host) (Unit {0}) → Type 0
  Holding = Round Unit Holds (λ _ _. Unit {0})

  -- It holds at the start, and a poll keeps it.
  pub record Holder (graceful : Bool) : Type 0 where
    pub fresh :
        (transport : Transport host.IO host.TlsStream)
        → P (start_serving (λ w. w) (host.serve_connection transport) (receiver host graceful) none)
    pub kept :
        (draws : ℕ → List Branch) (cx : TaskCx host) (s : Serves host)
        → P s
        → Round Unit P (λ _ _. Unit {0}) (poll_serving (parts host) draws s cx)

  module _ {graceful : Bool} (holder : Holder graceful) (draws : ℕ → List Branch)
      (cx : TaskCx host) where
    after_serve-Holding :
        (r : Polled (Serves host) (Unit {0}))
        → Round Unit P (λ _ _. Unit {0}) r
        → Holding (after_serve host r)
    after_serve-Holding panics h = tt
    after_serve-Holding (waits s) h = h
    after_serve-Holding (completes a s) h = tt

    serve_transport-Holding :
        (transport : Transport host.IO host.TlsStream)
        → Holding (serve_transport host graceful draws transport cx)
    unfolding serve_transport
    serve_transport-Holding transport =
        after_serve-Holding _ (holder.kept draws cx _ (holder.fresh transport))

    after_accept-Holding :
        (r : Polled host.Handshake (Result BoxError host.TlsStream))
        → Holding (after_accept host graceful draws cx r)
    unfolding after_accept
    after_accept-Holding panics = tt
    after_accept-Holding (waits h) = tt
    after_accept-Holding (completes (ok stream) h) = serve_transport-Holding (new_tls stream)
    after_accept-Holding (completes (err e) h) = tt

    -- Every poll of a task leaves it so.
    pub poll_task-Holding :
        (tls : Bool) (t : Task host) → Holds t → Holding (poll_task host graceful tls draws t cx)
    unfolding poll_task
    poll_task-Holding tls (spawned (err e)) h = tt
    poll_task-Holding true (spawned (ok stream)) h = after_accept-Holding _
    poll_task-Holding false (spawned (ok stream)) h = serve_transport-Holding (new_plain stream)
    poll_task-Holding tls (handshaking g) h = after_accept-Holding _
    poll_task-Holding tls (serving s) h = after_serve-Holding _ (holder.kept draws cx s h)
    poll_task-Holding tls finished h = tt
