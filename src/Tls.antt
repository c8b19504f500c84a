-- ===== src/Tls.antt =====
-- src/tls.rs: the stream of accepted connections after their TLS handshakes.
pub mod Load
pub mod Handshakes
pub mod Promises
pub mod FirstItem
use hyper_server.Prelude.{Result, ok, err, List, [], ◌∷◌}
use hyper_server.Future.{Future, Polled, panics, waits, completes}
use hyper_server.Stream.{Arrival, later, item, Next, crashes, yields, ended}
use hyper_server.Stream
use hyper_server.Errors.{BoxError, IoError, io}
use hyper_server.Errors.Accept.{handle_accept_error, continues, breaks}

-- Where the generated stream stands: at the head of its loop, or in the `.await` of a handshake.
pub data TlsIncoming {ℓ κ} (S : Type ℓ) (H : Type κ) : Type (ℓ ⊔ κ) where
  at_head : S → TlsIncoming S H
  handshaking : H → S → TlsIncoming S H

-- `accept` is `TlsAcceptor::accept`, which starts a handshake `H`.
module _ {IO IE H TlsStream Cx : Type 0} (into : IE → BoxError) (accept : IO → H)
    (handshake : Future Cx H (Result IoError TlsStream)) where
  abbrev pub TlsNext : Type 0
  TlsNext = Next (TlsIncoming (List (Arrival (Result IE IO))) H) (Result BoxError TlsStream)

  -- After a poll of the handshake; `rest` is what the loop does when it goes on with `tcp_stream`.
  after_handshake :
      Polled H (Result IoError TlsStream) → List (Arrival (Result IE IO)) → TlsNext → TlsNext
  after_handshake panics tcp_stream rest = crashes
  after_handshake (waits h) tcp_stream rest = Stream.waits (handshaking h tcp_stream)
  after_handshake (completes (ok tls_stream) h) tcp_stream rest =
      yields (ok tls_stream) (at_head tcp_stream)
  after_handshake (completes (err e) h) tcp_stream rest = elim (handle_accept_error io e) [
    | continues ↦ rest
    | breaks fatal ↦ yields (err fatal) (at_head tcp_stream)
  ]

  -- The `while let` loop.
  accept_loop : List (Arrival (Result IE IO)) → Cx → TlsNext
  accept_loop [] cx = ended
  accept_loop (later ∷ tcp_stream) cx = Stream.waits (at_head tcp_stream)
  accept_loop (item (ok stream) ∷ tcp_stream) cx =
      after_handshake (handshake.poll (accept stream) cx) tcp_stream (accept_loop tcp_stream cx)
  accept_loop (item (err e) ∷ tcp_stream) cx = elim (handle_accept_error into e) [
    | continues ↦ accept_loop tcp_stream cx
    | breaks fatal ↦ yields (err fatal) (at_head tcp_stream)
  ]

  -- One `poll_next` of the stream that `serve_tls_incoming` returns.
  unfoldable pub serve_tls_incoming : TlsIncoming (List (Arrival (Result IE IO))) H → Cx → TlsNext
  unfolding after_handshake accept_loop
  serve_tls_incoming (at_head tcp_stream) cx = accept_loop tcp_stream cx
  serve_tls_incoming (handshaking h tcp_stream) cx =
      after_handshake (handshake.poll h cx) tcp_stream (accept_loop tcp_stream cx)
