-- ===== src/Tests/Shutdowns.antt =====
-- A server that shuts down with a connection that has a request in flight (src/http.rs).
use hyper_server.Prelude.{
  get_elem?, ℕ, zero, suc, ◌≤◌, ◌≡◌, refl, false, Option, some, List, [], ◌∷◌, ◌⊎◌, ◌++◌, All,
  arith,
}
use hyper_server.Future.{Stays}
use hyper_server.Fuse.{poll_fuse}
use hyper_server.Errors.Accept.{handle_accept_error}
use hyper_server.Tcp.{serve_tcp_incoming}
use hyper_server.Connection.Select.{Round}
use hyper_server.Connection.Requests.{returned, fate, Ended, Answers}
use hyper_server.Connection.{
  Serving, pending_for_ever, start_serving, poll_serving, run_loop, select, poll_branch, poll_sleep,
  sig_handler, age_handler,
}
use hyper_server.Task.{serving, TaskCx, Watcher, watcher, parts, poll_changed, poll_task}
use hyper_server.Server.Covers.{IsOpen}
use hyper_server.Server.Lives.{polls_in}
use hyper_server.Server.InFlight.{SoundHost, shutdown_answers_requests}
use hyper_server.Server.{Phase, First, Turn, main, task, start, main_turn, task_turn, turn, run}
use hyper_server.Tests.Fixtures.{
  MockConn, open_conn, closed_conn, poll_conn, ConnLive, DelayLive, delay-IsSound,
  counting_watch-IsWatch, in_order,
}
use hyper_server.Tests.Completions.{
  ask_briefly, brief_host, six_polls, six_polls-IsOpen, enough_polls,
}
use hyper_server.Tests.Servers.{two_connections}

abbrev pub polled_at_once : List (Turn brief_host)
polled_at_once =
    main First.incoming_first tt
    ∷ task 0 in_order tt
    ∷ task 0 in_order tt
    ∷ main First.incoming_first tt
    ∷ main First.incoming_first tt
    ∷ main First.incoming_first tt
    ∷ main First.sig_first tt
    ∷ []

-- A connection has taken one request, which it answers at its end.
abbrev pub responses : MockConn → ℕ
responses (open_conn requests rounds) = 0
responses (closed_conn requests) = 1

pub brief_host-Answers : Answers (parts brief_host) (λ c. 1) responses (λ c. ⊥)
brief_host-Answers = record { on_poll = polled; on_shutdown = asked }
  where
    polled :
        (c : MockConn) (cx : TaskCx brief_host)
        → Round Unit
            (λ c'. (1 ≤ 1) × (responses c ≤ responses c'))
            (λ r c'. (1 ≤ 1) × Ended (parts brief_host) (λ c. 1) responses (λ c. ⊥) r c')
            ((parts brief_host).connection.poll c cx)
    polled (open_conn requests zero) cx = (omega arith, refl)
    polled (open_conn requests (suc n)) cx = (omega arith, omega arith)
    polled (closed_conn requests) cx = tt

    asked : (c : MockConn) → (◌≡◌ {A = ℕ} 1 1) × (responses (ask_briefly c) ≡ responses c)
    asked (open_conn requests zero) = (refl, refl)
    asked (open_conn requests (suc n)) = (refl, refl)
    asked (closed_conn requests) = (refl, refl)

pub brief_host-SoundHost : SoundHost brief_host ConnLive DelayLive
brief_host-SoundHost = record {
  connection = polled;
  serve_connection = λ transport. tt;
  graceful_shutdown = asked;
  start_sleep = λ d cx. tt;
  timer = delay-IsSound tt;
}
  where
    polled : (c : MockConn) (cx : Unit {0}) → ConnLive c → Stays ConnLive (poll_conn c cx)
    polled (open_conn requests zero) cx h = tt
    polled (open_conn requests (suc n)) cx h = tt
    polled (closed_conn requests) cx h = absurd h

    asked : (c : MockConn) → ConnLive c → ConnLive (ask_briefly c)
    asked (open_conn requests zero) h = tt
    asked (open_conn requests (suc n)) h = tt
    asked (closed_conn requests) h = absurd h

abbrev pub in_flight : ℕ → Serving MockConn ℕ (Option ℕ) Watcher
in_flight rounds = record {
  conn = open_conn 0 rounds;
  sleep = pending_for_ever;
  sig = record { inner = some watcher };
}

abbrev pub is_open : All IsOpen enough_polls
is_open =
    six_polls-IsOpen 0 (six_polls 1 (six_polls 2 []))
      (six_polls-IsOpen 1 (six_polls 2 []) (six_polls-IsOpen 2 [] tt))

is_connected :
    get_elem?
      (run brief_host polled_at_once (start brief_host (some (some 1)) false two_connections)).tasks
      0
    ≡ some (serving (in_flight 0))
unfolding run start turn main_turn task_turn serve_tcp_incoming handle_accept_error poll_fuse
    poll_task start_serving poll_serving run_loop select poll_branch poll_sleep poll_changed
is_connected = refl

abbrev pub to_return : List (Turn brief_host)
to_return = enough_polls ++ main First.sig_first tt ∷ []

has_returned :
    (run brief_host to_return (
      run brief_host polled_at_once (start brief_host (some (some 1)) false two_connections))).phase
    ≡ Phase.returned
unfolding run start turn main_turn task_turn serve_tcp_incoming handle_accept_error poll_fuse
    poll_task start_serving poll_serving run_loop select poll_branch poll_sleep sig_handler
    age_handler poll_changed
has_returned = refl

shutdown_answers_requests_example :
    (t : Serving MockConn ℕ (Option ℕ) Watcher) × (fate
        (parts brief_host)
        (polls_in brief_host 0 to_return
          (run brief_host polled_at_once (start brief_host (some (some 1)) false two_connections)))
        (in_flight 0)
      ≡ returned t)
    × (⊥ ⊎ ((1 ≤ 1) × (responses t.conn ≡ 1)))
shutdown_answers_requests_example =
    shutdown_answers_requests brief_host ConnLive DelayLive brief_host-SoundHost (λ c. 1) responses
      (λ c. ⊥) brief_host-Answers counting_watch-IsWatch (some (some 1)) false two_connections
      polled_at_once to_return 0 (in_flight 0) is_connected has_returned
