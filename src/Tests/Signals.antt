-- ===== src/Tests/Signals.antt =====
-- Signals that end the accept loop, under connections and without any (src/http.rs).
use hyper_server.Prelude.{
  ℕ, Bool, Result, ok, err, false, ◌≡◌, refl, true, some, none, List, [], ◌∷◌, ◌++◌, arith,
}
use hyper_server.Future.{Finishes}
use hyper_server.Server.Signalled.{signal_ends_the_loop}
use hyper_server.Server.Idle.{
  test_shutdown_rejects_new_connections, idle_server_refuses_connections,
}
use hyper_server.Server.Stopped.{Drains}
use hyper_server.Stream.{nobody}
use hyper_server.Server.{Phase, First, Turn, main, task, start, run}
use hyper_server.Tests.Fixtures.{host, counting_watch-IsWatch, in_order}
use hyper_server.Tests.Servers.{two_connections, incoming_turn}

one_poll-Finishes : Finishes host.signal 1 (some 1) tt
one_poll-Finishes = λ cx. (some 0, refl, λ cx'. (none, refl))

abbrev sig_turn : Turn host
sig_turn = main First.sig_first tt

-- The branch of the stream is polled first as long as it has items.
abbrev busy : List (Turn host)
busy =
    incoming_turn
    ∷ incoming_turn
    ∷ task 0 in_order tt
    ∷ incoming_turn
    ∷ incoming_turn
    ∷ incoming_turn
    ∷ incoming_turn
    ∷ sig_turn
    ∷ []

signal_ends_the_loop_example :
    Drains host (run host busy (start host (some (some 1)) true two_connections))
signal_ends_the_loop_example =
    signal_ends_the_loop host (some 1) 1 one_poll-Finishes true two_connections busy (omega arith)

-- A system with one client.
abbrev connect : Bool → Result ℕ ℕ
connect true = ok 7
connect false = err 111

abbrev until_return : List (Turn host)
until_return = (sig_turn ∷ incoming_turn ∷ sig_turn ∷ []) ++ sig_turn ∷ []

idle_server_refuses_connections_example :
    ((run host until_return (start host (some (some 1)) false (nobody 1))).phase ≡ Phase.returned)
    × (test_shutdown_rejects_new_connections host connect (some 1) 1 until_return ≡ true)
idle_server_refuses_connections_example =
    idle_server_refuses_connections host counting_watch-IsWatch (some 1) 1 1 one_poll-Finishes
      (sig_turn ∷ incoming_turn ∷ sig_turn ∷ []) (omega arith) First.sig_first tt connect 111 refl
