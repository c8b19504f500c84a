-- ===== src/Tests/Drops.antt =====
-- The main future of `serve_http_with_shutdown` dropped while two connections are open (src/http.rs).
use hyper_server.Prelude.{◌≡◌, refl, true, false, some, List, [], ◌∷◌, arith}
use hyper_server.Future.{waits}
use hyper_server.Fuse.{poll_fuse}
use hyper_server.Errors.Accept.{handle_accept_error}
use hyper_server.Tcp.{serve_tcp_incoming}
use hyper_server.Connection.{poll_serving, run_loop, select, poll_branch, poll_sleep, sig_handler}
use hyper_server.Task.{serving, poll_changed, poll_task}
use hyper_server.Server.Invariant.{total_live}
use hyper_server.Server.Covers.{Covers, polls_of}
use hyper_server.Server.Diagram.{by_task, by_caller, Step}
use hyper_server.Server.Follows.{view}
use hyper_server.Server.Refinement.{executions_follow_the_diagram}
use hyper_server.Server.Dropped.{dropped_server_closes_connections}
use hyper_server.Server.{
  Phase, First, Server, Turn, main, task, start, main_turn, turn, run, drop_main,
}
use hyper_server.Tests.Fixtures.{delay, host, counting_watch-IsWatch, in_order}
use hyper_server.Tests.Servers.{two_connections, waiting, asked_once}
use hyper_server.Tests.Completions.{
  brief_host, AskedBriefly, rounds_left, handshake_rounds, brief_host-Prompt, six_polls,
  six_polls-IsOpen, enough_polls, to_draining, drained,
}

abbrev accepting_all : List (Turn host)
accepting_all = main First.incoming_first tt ∷ main First.incoming_first tt ∷ []

polled_after_drop :
    poll_task host
      (drop_main host
        (run host accepting_all (start host (some (some 1)) false two_connections))).graceful
      false
      in_order
      (serving waiting)
      (
        tt,
        (drop_main host
            (run host accepting_all (start host (some (some 1)) false two_connections))).channel,
      )
    ≡ waits (serving asked_once)
unfolding run start turn main_turn drop_main serve_tcp_incoming handle_accept_error poll_fuse
    poll_task poll_serving run_loop select poll_branch poll_sleep sig_handler poll_changed
polled_after_drop = refl

abbrev taken_all : List (Turn brief_host)
taken_all =
    main First.incoming_first tt
    ∷ main First.incoming_first tt
    ∷ main First.incoming_first tt
    ∷ main First.incoming_first tt
    ∷ []

abbrev abandoned : Server brief_host
abandoned =
    drop_main brief_host
      (run brief_host taken_all (start brief_host (some (some 9)) true two_connections))

abandoned-Covers :
    Covers brief_host AskedBriefly rounds_left handshake_rounds 1 1
      (λ i. polls_of i enough_polls)
      abandoned.tasks
unfolding run start turn main_turn drop_main serve_tcp_incoming handle_accept_error poll_fuse
abandoned-Covers = (omega arith, (omega arith, (omega arith, tt)))

dropped_server_closes_connections_example :
    total_live (run brief_host enough_polls abandoned).tasks ≡ 0
dropped_server_closes_connections_example =
    dropped_server_closes_connections brief_host AskedBriefly rounds_left handshake_rounds 1 1
      (brief_host-Prompt (Unit {0}) (delay tt)) counting_watch-IsWatch (some (some 9)) true
      two_connections taken_all enough_polls refl
      (six_polls-IsOpen 0 (six_polls 1 (six_polls 2 []))
        (six_polls-IsOpen 1 (six_polls 2 []) (six_polls-IsOpen 2 [] tt)))
      abandoned-Covers

abbrev one_more : Turn brief_host
one_more = task 1 in_order tt

executions_follow_the_diagram_example :
    (view brief_host (start brief_host (some (some 1)) true two_connections) ≡ (Phase.accepting, 0))
    × Step true by_task
        (view brief_host drained)
        (view brief_host (turn brief_host one_more drained))
    × Step true by_caller (view brief_host drained) (view brief_host (drop_main brief_host drained))
    × Step true by_task
        (view brief_host (run brief_host enough_polls (drop_main brief_host drained)))
        (view brief_host
          (turn brief_host one_more (run brief_host enough_polls (drop_main brief_host drained))))
executions_follow_the_diagram_example =
    executions_follow_the_diagram brief_host counting_watch-IsWatch (some (some 1)) true
      two_connections to_draining enough_polls one_more
