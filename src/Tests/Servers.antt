-- ===== src/Tests/Servers.antt =====
-- Runs of `serve_http_with_shutdown` (src/http.rs).
use hyper_server.Prelude.{
  ◌↔◌, ℕ, ◌+◌, ◌≡◌, refl, ◌⊎◌, inl, inr, true, false, Option, none, some, List, [], ◌∷◌, Result, ok,
  err, length,
}
use hyper_server.Future.{waits}
use hyper_server.Errors.{ErrorKind, IoError}
use hyper_server.Stream.{Arrival, later, item}
use hyper_server.Fuse.{poll_fuse}
use hyper_server.Errors.Accept.{handle_accept_error}
use hyper_server.Tcp.{serve_tcp_incoming}
use hyper_server.Connection.{
  Serving, created, pending_for_ever, start_serving, poll_serving, run_loop, select, poll_branch,
  poll_sleep, sig_handler, age_handler,
}
use hyper_server.Connection.Rounds.{sleep_armed, sig_armed}
use hyper_server.Task.{Watcher, watcher, poll_changed, serving, poll_task}
use hyper_server.Server.Invariant.{total_live}
use hyper_server.Server.Shutdown.{
  drains_to_the_last_connection, shutdown_cuts_no_connection, no_signal_never_returns,
}
use hyper_server.Server.Broadcast.{broadcast_reaches_connections}
use hyper_server.Server.Stopped.{accepts_none_after_signal}
use hyper_server.Server.{Phase, First, Turn, main, task, start, main_turn, task_turn, turn, run}
use hyper_server.Tests.Fixtures.{
  counting_watch, MockConn, open_conn, requests_of, host, counting_watch-IsWatch, in_order,
  host-Counts, error_of,
}

-- Two connections, and between them an error that is skipped, one that is fatal, and a pause.
abbrev pub two_connections : List (Arrival (Result IoError ℕ))
two_connections =
    item (ok 1)
    ∷ item (err (error_of ErrorKind.interrupted))
    ∷ later
    ∷ item (err (error_of ErrorKind.permission_denied))
    ∷ item (ok 2)
    ∷ []

abbrev pub incoming_turn : Turn host
incoming_turn = main First.incoming_first tt

-- All of it is taken, and then the signal.
abbrev pub to_signal : List (Turn host)
to_signal =
    incoming_turn ∷ incoming_turn ∷ incoming_turn ∷ incoming_turn ∷ main First.sig_first tt ∷ []

abbrev poll_of : ℕ → Turn host
poll_of i = task i in_order tt

-- And then every task to its end, and the return.
abbrev to_return : List (Turn host)
to_return =
    incoming_turn
    ∷ incoming_turn
    ∷ incoming_turn
    ∷ incoming_turn
    ∷ main First.sig_first tt
    ∷ poll_of 0
    ∷ poll_of 1
    ∷ poll_of 2
    ∷ incoming_turn
    ∷ poll_of 0
    ∷ poll_of 2
    ∷ poll_of 0
    ∷ poll_of 2
    ∷ incoming_turn
    ∷ []

is_draining :
    (run host to_signal (start host (some (some 1)) false two_connections)).phase ≡ Phase.draining
unfolding run start turn main_turn serve_tcp_incoming handle_accept_error poll_fuse
is_draining = refl

has_returned :
    (run host to_return (start host (some (some 1)) false two_connections)).phase ≡ Phase.returned
unfolding run start turn main_turn task_turn serve_tcp_incoming handle_accept_error poll_fuse
    poll_task start_serving poll_serving run_loop select poll_branch poll_sleep sig_handler
    age_handler poll_changed
has_returned = refl

shutdown_cuts_no_connection_example :
    (true ≡ true)
    × (total_live (run host to_return (start host (some (some 1)) false two_connections)).tasks ≡ 0)
shutdown_cuts_no_connection_example =
    shutdown_cuts_no_connection host counting_watch-IsWatch (some (some 1)) false two_connections
      to_return has_returned

no_signal_never_returns_example :
    (run host to_return (start host none true two_connections)).phase ≡ Phase.accepting
no_signal_never_returns_example =
    no_signal_never_returns host counting_watch-IsWatch true two_connections to_return

drains_to_the_last_connection_example :
    (counting_watch.receiver_count
        (run host to_signal (start host (some (some 1)) false two_connections)).channel
      ≡ total_live (run host to_signal (start host (some (some 1)) false two_connections)).tasks)
    × (((main_turn host First.sig_first tt
            (run host to_signal (start host (some (some 1)) false two_connections))).phase
          ≡ Phase.returned)
        ↔ (total_live (run host to_signal (start host (some (some 1)) false two_connections)).tasks
            ≡ 0))
drains_to_the_last_connection_example =
    drains_to_the_last_connection host counting_watch-IsWatch (some (some 1)) false two_connections
      to_signal First.sig_first tt is_draining

accepts_none_after_signal_example :
    (((run host to_signal
          (run host to_signal (start host (some (some 1)) false two_connections))).phase
        ≡ Phase.draining)
      ⊎ ((run host to_signal
            (run host to_signal (start host (some (some 1)) false two_connections))).phase
          ≡ Phase.returned))
    × (length
          (run host to_signal
            (run host to_signal (start host (some (some 1)) false two_connections))).tasks
        ≡ length (run host to_signal (start host (some (some 1)) false two_connections)).tasks)
accepts_none_after_signal_example =
    accepts_none_after_signal host (some (some 1)) false two_connections to_signal to_signal
      is_draining

-- A connection in its first round, and after the poll that brings it the signal.
abbrev pub waiting : Serving MockConn ℕ (Option ℕ) Watcher
waiting = record {
  conn = open_conn 0 2;
  sleep = created none;
  sig = record { inner = some watcher };
}

abbrev pub asked_once : Serving MockConn ℕ (Option ℕ) Watcher
asked_once = record {
  conn = open_conn 1 0;
  sleep = pending_for_ever;
  sig = record { inner = none };
}

polled_once :
    poll_task host
      (run host to_signal (start host (some (some 1)) false two_connections)).graceful
      false
      in_order
      (serving waiting)
      (tt, (run host to_signal (start host (some (some 1)) false two_connections)).channel)
    ≡ waits (serving asked_once)
unfolding run start turn main_turn serve_tcp_incoming handle_accept_error poll_fuse poll_task
    poll_serving run_loop select poll_branch poll_sleep sig_handler poll_changed
polled_once = refl

broadcast_reaches_connections_example :
    (asked_once.sig.inner ≡ none)
    × (requests_of asked_once.conn + sleep_armed asked_once.sleep
        ≡ requests_of waiting.conn + sleep_armed waiting.sleep + sig_armed waiting.sig)
broadcast_reaches_connections_example =
    broadcast_reaches_connections host counting_watch-IsWatch (some (some 1)) false two_connections
      to_signal is_draining requests_of host-Counts in_order (λ n. inr (inr (inl refl))) tt waiting
      asked_once polled_once
