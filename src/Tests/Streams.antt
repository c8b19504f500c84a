-- ===== src/Tests/Streams.antt =====
-- Incoming streams with skipped, fatal and delayed items, and their handshakes (src/tcp.rs, src/tls.rs).
use hyper_server.Prelude.{
  ℕ, zero, suc, ◌≡◌, ◌↔◌, refl, All, String, Option, none, some, List, [], ◌∷◌, ◌++◌, map, Result,
  ok, err, arith,
}
use hyper_server.Future.{Finishes, Future, Polled, panics, waits, completes}
use hyper_server.Errors.{ErrorKind, BoxError, IoError, io}
use hyper_server.Errors.Accept.{handle_accept_error}
use hyper_server.Stream.{Arrival, later, item, items, drain, yielded}
use hyper_server.Tcp.{serve_tcp_incoming}
use hyper_server.Tcp.Demux.{oks, IsFatal, accepted}
use hyper_server.Tcp.Promises.{serve_tcp_incoming_keeps_connections, fatal_error_does_not_end}
use hyper_server.Tls.{at_head, serve_tls_incoming}
use hyper_server.Tls.Handshakes.{secured, drain-serve_tls_incoming}
use hyper_server.Tls.Promises.{same, tls_over_tcp, stalled_handshake_blocks}
use hyper_server.Tls.Load.{load_certs, load_certs-ok_iff}
use hyper_server.Tests.Fixtures.{error_of}

abbrev denied : IoError
denied = error_of ErrorKind.permission_denied

abbrev mixed : List (Arrival (Result IoError ℕ))
mixed =
    item (ok 2)
    ∷ later
    ∷ item (err (error_of ErrorKind.would_block))
    ∷ item (err denied)
    ∷ item (ok 0)
    ∷ item (ok 1)
    ∷ item (ok 3)
    ∷ []

abbrev polls : List (Unit {0})
polls = tt ∷ tt ∷ tt ∷ tt ∷ tt ∷ tt ∷ tt ∷ tt ∷ tt ∷ tt ∷ tt ∷ tt ∷ tt ∷ tt ∷ tt ∷ tt ∷ []

serve_tcp_incoming_keeps_connections_example :
    (served : List (Result BoxError ℕ)) × (drain (λ s _. serve_tcp_incoming io s) polls mixed
      ≡ some served)
    × (oks served ≡ oks (items mixed))
    × All IsFatal served
serve_tcp_incoming_keeps_connections_example =
    serve_tcp_incoming_keeps_connections io polls mixed (omega arith)

fatal_error_does_not_end_example :
    drain
      (λ s _. serve_tcp_incoming {IO = ℕ} io s)
      polls
      (item (ok 1) ∷ [] ++ item (err denied) ∷ item (ok 2) ∷ [])
    ≡ some (
        accepted io (items (item (ok 1) ∷ []))
        ++ err (io denied) ∷ accepted io (items (item (ok 2) ∷ [])))
unfolding handle_accept_error
fatal_error_does_not_end_example =
    fatal_error_does_not_end io polls (item (ok 1) ∷ []) (item (ok 2) ∷ []) denied (io denied) refl
      (omega arith)

-- A handshake takes one poll that is not ready. With the stream 0 it fails in a way that is skipped,
-- with the stream 1 in a way that is fatal.
abbrev outcome : ℕ → Result IoError ℕ
outcome zero = err (error_of ErrorKind.invalid_data)
outcome (suc zero) = err denied
outcome (suc (suc n)) = ok n

abbrev poll_handshake : Option (ℕ × ℕ) → Unit {0} → Polled (Option (ℕ × ℕ)) (Result IoError ℕ)
poll_handshake none cx = panics
poll_handshake (some (stream, zero)) cx = completes (outcome stream) none
poll_handshake (some (stream, suc n)) cx = waits (some (stream, n))

abbrev handshake : Future (Unit {0}) (Option (ℕ × ℕ)) (Result IoError ℕ)
handshake = record { poll = poll_handshake }

abbrev accept : ℕ → Option (ℕ × ℕ)
accept stream = some (stream, 1)

finishes : (stream : ℕ) → Finishes handshake 1 (accept stream) (outcome stream)
finishes stream = λ cx. (some (stream, 0), refl, λ cx'. (none, refl))

drain-serve_tls_incoming_example :
    drain (serve_tls_incoming io accept handshake) polls (at_head mixed)
    ≡ some (secured io outcome (items mixed))
drain-serve_tls_incoming_example =
    drain-serve_tls_incoming io accept handshake (λ _. 1) outcome finishes mixed polls (omega arith)

tls_over_tcp_example :
    (served : List (Result BoxError ℕ)) × (drain (λ s _. serve_tcp_incoming io s) polls mixed
      ≡ some served)
    × (drain (serve_tls_incoming same accept handshake) polls (at_head (map item served))
        ≡ drain (serve_tls_incoming io accept handshake) polls (at_head mixed))
tls_over_tcp_example =
    tls_over_tcp io accept handshake (λ _. 1) outcome finishes mixed polls (omega arith)

-- A handshake with a client that says nothing.
abbrev silent : Future (Unit {0}) ℕ (Result IoError ℕ)
silent = record { poll = λ h cx. waits h }

stalled_handshake_blocks_example :
    yielded
      (serve_tls_incoming io (λ stream. stream) silent)
      polls
      (at_head (item (ok 4) ∷ item (ok 5) ∷ []))
    ≡ []
stalled_handshake_blocks_example =
    stalled_handshake_blocks io (λ stream. stream) silent (λ h. Unit)
      (record { stays = λ h cx st. (h, refl, tt) }) 4 tt (item (ok 5) ∷ []) polls

-- A file is the list of its certificates; the key file has no key.
abbrev open_file : String → Result IoError ℕ
open_file name = ok 3

abbrev certs_of : ℕ → List (Result IoError ℕ)
certs_of n = ok n ∷ ok 4 ∷ []

abbrev key_of : ℕ → Result IoError (Option ℕ)
key_of n = ok none

load_certs-ok_iff_example : (load_certs open_file certs_of "cert.pem" ≡ ok (3 ∷ 4 ∷ [])) ↔ (
    (certfile : ℕ) × (open_file "cert.pem" ≡ ok certfile)
    × (certs_of certfile ≡ map ok (3 ∷ 4 ∷ [])))
load_certs-ok_iff_example = load_certs-ok_iff open_file certs_of "cert.pem" (3 ∷ 4 ∷ [])
