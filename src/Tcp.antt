-- ===== src/Tcp.antt =====
-- src/tcp.rs: the stream of accepted connections.
pub mod Demux
pub mod Promises
use hyper_server.Prelude.{Result, ok, err, List, [], ◌∷◌, ◌++◌}
use hyper_server.Stream.{Arrival, later, item, Next, waits, yields, ended}
use hyper_server.Errors.{BoxError}
use hyper_server.Errors.Accept.{handle_accept_error, continues, breaks}

module _ {ℓ κ} {IO : Type ℓ} {IE : Type κ} (into : IE → BoxError) where
  -- One `poll_next` of the stream that `serve_tcp_incoming` returns: the `while let` loop runs on
  -- past the errors that it skips, and stops at the next `yield` or when `incoming` is not ready.
  unfoldable pub serve_tcp_incoming :
      List (Arrival (Result IE IO)) → Next (List (Arrival (Result IE IO))) (Result BoxError IO)
  serve_tcp_incoming [] = ended
  serve_tcp_incoming (later ∷ incoming) = waits incoming
  serve_tcp_incoming (item (ok io) ∷ incoming) = yields (ok io) incoming
  serve_tcp_incoming (item (err e) ∷ incoming) = elim (handle_accept_error into e) [
    | continues ↦ serve_tcp_incoming incoming
    | breaks fatal ↦ yields (err fatal) incoming
  ]
