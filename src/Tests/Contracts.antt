-- ===== src/Tests/Contracts.antt =====
-- A whole life of a server, from its start to its return (src/http.rs).
use hyper_server.Prelude.{◌≡◌, refl, false, none, some, List, [], ◌∷◌, ◌++◌, get_elem?, arith}
use hyper_server.Future.{Finishes}
use hyper_server.Fuse.{poll_fuse}
use hyper_server.Errors.Accept.{handle_accept_error}
use hyper_server.Tcp.{serve_tcp_incoming}
use hyper_server.Connection.{start_serving, poll_serving, run_loop, select, poll_branch, poll_sleep}
use hyper_server.Task.{poll_changed, poll_task}
use hyper_server.Server.Invariant.{total_live}
use hyper_server.Server.Covers.{Covers, polls_of}
use hyper_server.Server.Contract.{Settled, graceful_shutdown_keeps_its_promise}
use hyper_server.Server.{Phase, First, Server, Turn, main, start, main_turn, task_turn, turn, run}
use hyper_server.Tests.Fixtures.{ConnLive, DelayLive, delay, counting_watch-IsWatch}
use hyper_server.Tests.Completions.{
  brief_host, AskedBriefly, rounds_left, handshake_rounds, brief_host-Prompt, enough_polls,
}
use hyper_server.Tests.Servers.{two_connections}
use hyper_server.Tests.Shutdowns.{
  polled_at_once, responses, brief_host-Answers, brief_host-SoundHost, is_open, to_return,
}

-- Seven turns of the main future, more than one poll of the signal and five arrivals.
abbrev first_turns : List (Turn brief_host)
first_turns = polled_at_once ++ main First.sig_first tt ∷ main First.sig_first tt ∷ []

abbrev running : Server brief_host
running = run brief_host first_turns (start brief_host (some (some 1)) false two_connections)

running-Covers :
    Covers brief_host AskedBriefly rounds_left handshake_rounds 1 1
      (λ i. polls_of i enough_polls)
      running.tasks
unfolding run start turn main_turn task_turn serve_tcp_incoming handle_accept_error poll_fuse
    poll_task start_serving poll_serving run_loop select poll_branch poll_sleep poll_changed
running-Covers = (omega arith, (omega arith, (omega arith, tt)))

one_poll-Finishes : Finishes brief_host.signal 1 (some 1) tt
one_poll-Finishes = λ cx. (some 0, refl, λ cx'. (none, refl))

abbrev whole : List (Turn brief_host)
whole = first_turns ++ to_return

graceful_shutdown_keeps_its_promise_example :
    ((run brief_host whole (start brief_host (some (some 1)) false two_connections)).phase
      ≡ Phase.returned)
    × (total_live
          (run brief_host whole (start brief_host (some (some 1)) false two_connections)).tasks
        ≡ 0)
    × Settled brief_host (λ c. 1) responses (λ c. ⊥) to_return running 0 (get_elem? running.tasks 0)
graceful_shutdown_keeps_its_promise_example =
    graceful_shutdown_keeps_its_promise brief_host AskedBriefly rounds_left handshake_rounds 1 1
      (brief_host-Prompt (Unit {0}) (delay tt)) counting_watch-IsWatch ConnLive DelayLive
      brief_host-SoundHost (λ c. 1) responses (λ c. ⊥) brief_host-Answers (some 1) 1
      one_poll-Finishes false two_connections first_turns enough_polls First.sig_first tt
      (omega arith) is_open running-Covers first_turns to_return refl 0
