-- ===== src/Tests/Spawns.antt =====
-- The tasks that runs of `serve_http_with_shutdown` spawn (src/http.rs).
use hyper_server.Prelude.{
  ◌≡◌, refl, true, false, none, some, List, [], ◌∷◌, ◌++◌, map, ok, err, length, arith,
}
use hyper_server.Errors.{ErrorKind, io}
use hyper_server.Stream.{items}
use hyper_server.Fuse.{poll_fuse}
use hyper_server.Errors.Accept.{handle_accept_error}
use hyper_server.Tcp.{serve_tcp_incoming}
use hyper_server.Tcp.Demux.{accepted}
use hyper_server.Task.{spawned}
use hyper_server.Server.Order.{born, tasks_are_spawned_in_order}
use hyper_server.Server.Progress.{every_connection_is_spawned}
use hyper_server.Server.{Turn, task, start, main_turn, task_turn, turn, run}
use hyper_server.Tests.Fixtures.{host, in_order, error_of}
use hyper_server.Tests.Servers.{two_connections, incoming_turn}

-- The first connection is taken, its task polled, and a pause taken.
abbrev to_one : List (Turn host)
to_one = incoming_turn ∷ task 0 in_order tt ∷ incoming_turn ∷ []

-- A turn for each arrival, with a poll of the first task among them.
abbrev all_taken : List (Turn host)
all_taken =
    incoming_turn
    ∷ task 0 in_order tt
    ∷ incoming_turn
    ∷ incoming_turn
    ∷ incoming_turn
    ∷ incoming_turn
    ∷ []

tasks_are_spawned_in_order_example :
    born to_one (start host (some (some 1)) false two_connections)
      ++ map spawned (
          accepted io
            (items (run host to_one (start host (some (some 1)) false two_connections)).incoming))
    ≡ spawned (ok 1)
      ∷ spawned (err (io (error_of ErrorKind.permission_denied)))
      ∷ spawned (ok 2)
      ∷ []
unfolding handle_accept_error
tasks_are_spawned_in_order_example =
    tasks_are_spawned_in_order host (some (some 1)) false two_connections to_one

-- The first connection has its task, which has been polled, and the rest is still to come.
one_is_born : born to_one (start host (some (some 1)) false two_connections) ≡ spawned (ok 1) ∷ []
unfolding turn run main_turn start serve_tcp_incoming task_turn handle_accept_error poll_fuse
one_is_born = refl

every_connection_is_spawned_example :
    (born all_taken (start host none true two_connections)
      ≡ spawned (ok 1)
        ∷ spawned (err (io (error_of ErrorKind.permission_denied)))
        ∷ spawned (ok 2)
        ∷ [])
    × (length (run host all_taken (start host none true two_connections)).tasks ≡ 3)
unfolding handle_accept_error
every_connection_is_spawned_example =
    every_connection_is_spawned host true two_connections all_taken (omega arith)
