-- ===== src/Tests/MockIo.antt =====
-- src/tcp.rs, its tests: the mock stream, and what `serve_tcp_incoming` yields in each of them.
use hyper_server.Prelude.{
  ℕ, ◌≡◌, refl, Bool, true, false, not, ◌&&◌, Option, none, some, List, [], ◌∷◌, map, Result, ok,
  err,
}
use hyper_server.Future.{Poll, ready}
use hyper_server.Errors.{ErrorKind, BoxError, IoError, io, io_error, message}
use hyper_server.Errors.Accept.{ControlFlow, handle_accept_error, continues, breaks}
use hyper_server.Stream.{Arrival, item, Next, yields, ended}
use hyper_server.Tcp.{serve_tcp_incoming}
use hyper_server.Transport.{ReadBuf, AsyncIo}

-- `MockIO`: the results of the next calls.
pub record MockIo : Type 0 where
  pub read_result : Option (Result IoError (Unit {0}))
  pub write_result : Option (Result IoError ℕ)

-- `unwrap_or`
abbrev unwrap_or {ℓ} : {A : Type ℓ} → A → Option A → A
unwrap_or default none = default
unwrap_or default (some a) = a

-- The `poll_read` of `MockIO`: the buffer is left alone.
abbrev poll_read : MockIo → Unit {0} → ReadBuf → Poll (Result IoError (Unit {0})) × MockIo × ReadBuf
poll_read s cx buf = (ready (unwrap_or (ok tt) s.read_result), record s { read_result = none }, buf)

abbrev poll_write : MockIo → Unit {0} → List ℕ → Poll (Result IoError ℕ) × MockIo
poll_write s cx buf = (ready (unwrap_or (ok 0) s.write_result), record s { write_result = none })

abbrev poll_flush : MockIo → Unit {0} → Poll (Result IoError (Unit {0})) × MockIo
poll_flush s cx = (ready (ok tt), s)

abbrev poll_shutdown : MockIo → Unit {0} → Poll (Result IoError (Unit {0})) × MockIo
poll_shutdown s cx = (ready (ok tt), s)

-- `AsyncRead` and `AsyncWrite` for `MockIO`, the vectored write being the trait's own: it writes the
-- first buffer that is not empty.
abbrev first_filled : List (List ℕ) → List ℕ
first_filled [] = []
first_filled ([] ∷ bufs) = first_filled bufs
first_filled ((b ∷ bytes) ∷ bufs) = b ∷ bytes

abbrev pub mock_io : AsyncIo (Unit {0}) MockIo
mock_io = record {
  poll_read = poll_read;
  poll_write = poll_write;
  poll_flush = poll_flush;
  poll_shutdown = poll_shutdown;
  poll_write_vectored = λ s cx bufs. poll_write s cx (first_filled bufs);
  is_write_vectored = λ s. false;
}

-- `mock_incoming`
abbrev mock_incoming : List (Result IoError MockIo) → List (Arrival (Result IoError MockIo))
mock_incoming results = map item results

-- The mock stream of most of the tests: a read that succeeds, and a write of so many bytes.
abbrev writes : ℕ → MockIo
writes n = record { read_result = some (ok tt); write_result = some (ok n) }

abbrev would_block : IoError
would_block = io_error ErrorKind.would_block (message "Would block")

abbrev permission_denied : IoError
permission_denied = io_error ErrorKind.permission_denied (message "Permission denied")

abbrev Incoming : Type 0
Incoming = List (Arrival (Result IoError MockIo))

-- One assertion on `stream.next().await`, and the rest of the test. A stream of `iter` is never pending.
abbrev next_is_ok : Next Incoming (Result BoxError MockIo) → (Incoming → Bool) → Bool
next_is_ok (yields (ok stream) rest) test = test rest
next_is_ok _ test = false

abbrev next_is_err : Next Incoming (Result BoxError MockIo) → (Incoming → Bool) → Bool
next_is_err (yields (err e) rest) test = test rest
next_is_err _ test = false

abbrev next_is_none : Next Incoming (Result BoxError MockIo) → Bool
next_is_none ended = true
next_is_none _ = false

abbrev is_continue : ControlFlow BoxError → Bool
is_continue continues = true
is_continue (breaks e) = false

unfoldable all_continue : List ErrorKind → Bool
all_continue [] = true
all_continue (kind ∷ kinds) =
    is_continue (handle_accept_error io (io_error kind (message "Test non-fatal error")))
    && all_continue kinds

-- The tests, from their first line to their last assertion.
unfoldable test_handle_accept_error_non_fatal : Bool
test_handle_accept_error_non_fatal = all_continue (
    ErrorKind.connection_aborted ∷ ErrorKind.interrupted ∷ ErrorKind.invalid_data
    ∷ ErrorKind.would_block ∷ [])

unfoldable test_handle_accept_error_fatal : Bool
test_handle_accept_error_fatal = not (
    is_continue
      (handle_accept_error io (io_error ErrorKind.permission_denied (message "Test fatal error"))))

unfoldable test_serve_tcp_incoming_success : Bool
test_serve_tcp_incoming_success =
    next_is_ok (serve_tcp_incoming io (mock_incoming (ok (writes 5) ∷ []))) (λ stream. true)

unfoldable test_serve_tcp_incoming_non_fatal_error : Bool
test_serve_tcp_incoming_non_fatal_error =
    next_is_ok (serve_tcp_incoming io (mock_incoming (err would_block ∷ ok (writes 5) ∷ [])))
      (λ stream. true)

unfoldable test_serve_tcp_incoming_fatal_error : Bool
test_serve_tcp_incoming_fatal_error =
    next_is_err (serve_tcp_incoming io (mock_incoming (err permission_denied ∷ [])))
      (λ stream. next_is_none (serve_tcp_incoming io stream))

unfoldable test_serve_tcp_incoming_mixed_results : Bool
test_serve_tcp_incoming_mixed_results =
    next_is_ok
      (serve_tcp_incoming io (
        mock_incoming
          (ok (writes 5) ∷ err would_block ∷ ok (writes 3) ∷ err permission_denied ∷ [])))
      (λ first. next_is_ok (serve_tcp_incoming io first) (λ second.
        next_is_err (serve_tcp_incoming io second)
          (λ third. next_is_none (serve_tcp_incoming io third))))

unfoldable test_serve_tcp_incoming_empty_stream : Bool
test_serve_tcp_incoming_empty_stream = next_is_none (serve_tcp_incoming io (mock_incoming []))

tests_of_tcp_pass :
    (test_handle_accept_error_non_fatal ≡ true)
    × (test_handle_accept_error_fatal ≡ true)
    × (test_serve_tcp_incoming_success ≡ true)
    × (test_serve_tcp_incoming_non_fatal_error ≡ true)
    × (test_serve_tcp_incoming_fatal_error ≡ true)
    × (test_serve_tcp_incoming_mixed_results ≡ true)
    × (test_serve_tcp_incoming_empty_stream ≡ true)
unfolding test_handle_accept_error_non_fatal all_continue test_handle_accept_error_fatal
    test_serve_tcp_incoming_success test_serve_tcp_incoming_non_fatal_error
    test_serve_tcp_incoming_fatal_error test_serve_tcp_incoming_mixed_results
    test_serve_tcp_incoming_empty_stream serve_tcp_incoming handle_accept_error
tests_of_tcp_pass = (refl, refl, refl, refl, refl, refl, refl)

-- The tests that expect the end after a fatal error pass as their streams have ended by then: with
-- another connection behind the error, it is yielded.
goes_on_after_fatal_error :
    next_is_err
      (serve_tcp_incoming io (mock_incoming (err permission_denied ∷ ok (writes 5) ∷ [])))
      (λ stream. next_is_ok (serve_tcp_incoming io stream) (λ rest. true))
    ≡ true
unfolding serve_tcp_incoming handle_accept_error
goes_on_after_fatal_error = refl
