-- ===== src/Lib.antt =====
-- A model of the hyper server library: one future accepts connections from a stream and spawns a task
-- for each, the task does the TLS handshake and serves HTTP on the connection, and a signal shuts all of
-- it down gracefully.
--
-- The parts and their files:
--   Future, Stream: the traits `Future` and `Stream`, a poll at a time. A future is a state and a `poll`
--     that panics, waits or completes; an incoming stream is the list of what its polls will bring.
--   Fuse (src/fuse.rs): `Fuse` and its `poll`.
--   Errors (src/error.rs): `Error` with its constructors and accessors; Errors/Accept has
--     `handle_accept_error`. A boxed error is told apart as `downcast_ref` does it.
--   Transport (src/io.rs): `Transport` and its six I/O operations, over two streams given by `AsyncIo`.
--   Tcp (src/tcp.rs): `serve_tcp_incoming`, one poll of the generated stream. Tls (src/tls.rs):
--     `serve_tls_incoming` with the place where it is suspended in a handshake; Tls/Load has
--     `load_certs` and `load_private_key`.
--   Connection (src/http.rs): `sleep_or_pending` and `serve_http_connection`, one poll at a time.
--   Watch: the interface of `tokio::sync::watch`, its operations and laws.
--   Task (src/http.rs): the block that `serve_http_with_shutdown` spawns, with `accept_tls_connection`.
--   Server (src/http.rs): `serve_http_with_shutdown`. A `Server` has the locals of the main future, the
--     spawned tasks and the channel between them; a turn is one round of the main future or one poll of
--     a task, and an execution is any list of turns, so that every interleaving is one. The caller may
--     drop the main future in any phase (`drop_main`). Server/Diagram is the view from outside, phases
--     and numbers of live connections, and Server/Follows and Server/Refinement lead to it;
--     Server/Polls and Server/Outcomes are the rules for what a round of the loop can come to, and
--     Server/Lives leads from the turns of a server to the polls of one of its connections.
--   Deploy (examples/, benches/, tests/main.rs, src/http.rs): the programs that start a server, up to
--     that call. Lifecycle (examples/): the end of their `main`, with the server's task between its
--     polls. Services (src/http.rs, benches/, examples/): the HTTP services they serve;
--     Services/Requests has the requests and assertions of tests of src/http.rs.
--   Benchmark (benches/): the requests that are measured, and their totals. Trust (src/tls.rs, benches/):
--     the TLS configurations that tests and benchmark generate for a server and its client;
--     Trust/Samples (src/http.rs) has the clients of the TLS tests and the tests of rejected ones, and
--     Trust/Incoming with Trust/Incoming/Trials the tests of src/tls.rs.
--   Tests: runs of the models, with the mock stream and the tests of src/tcp.rs as functions to Bool.
--
-- `tokio::select!` polls its branches in an order that it draws: the order is an argument of a round
-- (`First`, and the lists of `Branch`).
--
-- Bounds and fuel: only the loop of `serve_http_connection` has fuel, three rounds for one poll: of the
-- two branches that do not leave the loop each can fire once. The other loops are structural, in what
-- the incoming stream brings or in the requests of a benchmark. Counts are unbounded natural numbers: the
-- library does no arithmetic of its own on machine integers, and the one sum, the `usize` of the
-- benchmark's bytes, is at most the length of the greeting for each request.
--
-- What is not here is a parameter: hyper's connection and its graceful shutdown, handshakes and the
-- blocking pool, timers, the caller's signal and the watch channel (`Host`, `Parts`, `Watch`); sockets,
-- files and their parsers (`Platform`); the `http` crate and the bodies of requests (`Http`, `Exchange`);
-- hyper's client and the clock (`Client`); rcgen and rustls (`Pki`, `Peer`) and the server's side of
-- their handshakes (`Link`); Ctrl+C and the state of a `oneshot` channel (`Outside`).
--
-- Not modelled are logging, the alternate form of `Debug`, wakers (a turn may come at any time), the
-- measuring that criterion does around the benchmark, the first channel of
-- examples/tower_service_fn.rs, which a second one shadows, and the gRPC test. What the client of a test
-- sees of hyper's protocol code on a running server is not modelled either: of the tests that send
-- requests there are the requests and assertions, of those that shut down with a client connected nothing.
pub mod Prelude
pub mod Future
pub mod Fuse
pub mod Errors
pub mod Stream
pub mod Tcp
pub mod Tls
pub mod Transport
pub mod Connection
pub mod Watch
pub mod Task
pub mod Server
pub mod Deploy
pub mod Lifecycle
pub mod Services
pub mod Benchmark
pub mod Trust
pub mod Tests
