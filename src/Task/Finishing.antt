-- ===== src/Task/Finishing.antt =====
-- How many polls a task needs at most, once the shutdown signal is there (src/http.rs).
use hyper_server.Prelude.{ℕ, ◌+◌, ◌≤◌, ◌<◌, Bool, true, false, List, Result, ok, err, arith}
use hyper_server.Future.{Polled, panics, waits, completes, map_polled}
use hyper_server.Errors.{IoError}
use hyper_server.Transport.{Transport, new_plain, new_tls}
use hyper_server.Connection.Select.{Round}
use hyper_server.Connection.Listed.{Listed}
use hyper_server.Connection.Signal.{Delivered}
use hyper_server.Connection.Closing.{Closes}
use hyper_server.Connection.Heeding.{Heeds, need, poll_serving-Heeds, poll_serving-need}
use hyper_server.Connection.{Branch, conn_branch, sig_branch, Serving, start_serving}
use hyper_server.Task.Holding.{Holds, Holder}
use hyper_server.Task.{
  Host, Joined, joined, join_failed, Task, spawned, handshaking, serving, finished, Watcher, TaskCx,
  parts, accept_tls_connection, accept_result, after_serve, after_accept, serve_transport,
  poll_task,
}

module _ (host : Host) (Closing : host.Conn → Type 0) (left : host.Conn → ℕ)
    (rounds : host.Handshake → ℕ) (most_left most_rounds : ℕ) where
  open host use {IO, TlsStream, Handshake, Cx, Conn, Duration, Timer, Channel}

  -- What hyper and rustls owe to a server that shuts down: connections that are asked close, within a
  -- bound, and handshakes end, within a bound.
  pub record Prompt : Type 0 where
    pub closes : Closes (parts host) Closing left
    pub bounded : (c : Conn) → Closing c → left c ≤ most_left
    pub handshakes :
        (h : Handshake) (cx : Cx)
        → Round Unit (λ h'. rounds h' < rounds h) (λ _ _. Unit {0}) (host.handshake.poll h cx)
    pub starts : (io : IO) → rounds (host.spawn_accept io) ≤ most_rounds

  -- A task whose connection heeds its signal.
  abbrev pub HeedsSignal : Task host → Type 0
  HeedsSignal = Holds host (Heeds (parts host) Closing left)

  abbrev pub task_need : Task host → ℕ
  task_need finished = 0
  task_need (serving s) = need (parts host) Closing left most_left s
  task_need (handshaking h) = rounds h + most_left + 3
  task_need (spawned r) = most_rounds + most_left + 4

  abbrev Within : ℕ → Polled (Task host) (Unit {0}) → Type 0
  Within n = Round Unit (λ t. task_need t + 1 ≤ n) (λ _ _. Unit {0})

  -- A connection of a graceful server heeds its signal, from its start.
  pub Heeds-Holder : Prompt → Holder host (Heeds (parts host) Closing left) true
  unfolding start_serving
  Heeds-Holder prompt = record {
    fresh = λ transport e. cc;
    kept = λ draws cx s h. poll_serving-Heeds (parts host) Closing left prompt.closes cx draws s h;
  }

  module _ (prompt : Prompt) (draws : ℕ → List Branch) (cx : TaskCx host) where
    module _ (delivered : Delivered (parts host) cx) (sigs : (n : ℕ) → Listed sig_branch (draws n))
        (conns : (n : ℕ) → Listed conn_branch (draws n)) where
      after_serve-Within :
          (n : ℕ) (r : Polled (Serving Conn Duration Timer Watcher) (Unit {0}))
          → Round Unit (λ s. need (parts host) Closing left most_left s + 1 ≤ n) (λ _ _. Unit {0}) r
          → Within n (after_serve host r)
      after_serve-Within n panics h = tt
      after_serve-Within n (waits s) h = h
      after_serve-Within n (completes a s) h = tt

      serve_transport-Within :
          (transport : Transport IO TlsStream)
          → Within (most_left + 2) (serve_transport host true draws transport cx)
      unfolding serve_transport start_serving
      serve_transport-Within transport = after_serve-Within _ _ (
          poll_serving-need (parts host) Closing left prompt.closes cx most_left prompt.bounded
            delivered draws sigs conns _ (λ e. cc))

      Within-monotone :
          (m n : ℕ) (r : Polled (Task host) (Unit {0})) → m ≤ n → Within m r → Within n r
      Within-monotone m n panics le h = tt
      Within-monotone m n (waits t) le h = omega (arith, le, h)
      Within-monotone m n (completes a t) le h = tt

      after_handshake-Within :
          (h : Handshake) (r : Polled Handshake (Joined (Result IoError TlsStream)))
          → Round Unit (λ h'. rounds h' < rounds h) (λ _ _. Unit {0}) r
          → Within
              (rounds h + most_left + 3)
              (after_accept host true draws cx (map_polled (λ h'. h') accept_result r))
      unfolding after_accept accept_result
      after_handshake-Within h panics k = tt
      after_handshake-Within h (waits h') k = omega (arith, k)
      after_handshake-Within h (completes (joined (ok stream)) h') k =
          Within-monotone _ _ _ (omega arith) (serve_transport-Within (new_tls stream))
      after_handshake-Within h (completes (joined (err e)) h') k = tt
      after_handshake-Within h (completes (join_failed id) h') k = tt

      -- With the signal there, a poll of a task leaves it ended or needing fewer polls.
      pub poll_task-Within :
          (tls : Bool) (t : Task host)
          → HeedsSignal t
          → Within (task_need t) (poll_task host true tls draws t cx)
      unfolding poll_task accept_tls_connection
      poll_task-Within tls (spawned (err e)) h = tt
      poll_task-Within true (spawned (ok stream)) h =
          Within-monotone _ _ _ (omega (arith, prompt.starts stream)) (
            after_handshake-Within (host.spawn_accept stream) _
              (prompt.handshakes (host.spawn_accept stream) cx.0))
      poll_task-Within false (spawned (ok stream)) h =
          Within-monotone _ _ _ (omega arith) (serve_transport-Within (new_plain stream))
      poll_task-Within tls (handshaking g) h = after_handshake-Within g _ (prompt.handshakes g cx.0)
      poll_task-Within tls (serving s) h = after_serve-Within _ _ (
          poll_serving-need (parts host) Closing left prompt.closes cx most_left prompt.bounded
            delivered draws sigs conns s h)
      poll_task-Within tls finished h = tt
