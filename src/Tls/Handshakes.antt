-- ===== src/Tls/Handshakes.antt =====
-- The streams and errors that `serve_tls_incoming` yields (src/tls.rs), item by item.
use mathlib.Core.Option
use hyper_server.Prelude.{
  ℕ, zero, suc, ◌+◌, ◌≤◌, ◌<◌, ◌≡◌, refl, ap, Result, ok, err, Option, some, List, [], ◌∷◌, ◌++◌,
  length, arith,
}
use hyper_server.Future.{Finishes, Future, completes}
use hyper_server.Stream.{Arrival, later, item, items, drain}
use hyper_server.Errors.{BoxError, IoError, io}
use hyper_server.Tcp.Demux.{accept_one}
use hyper_server.Tls.{TlsIncoming, at_head, handshaking, after_handshake, serve_tls_incoming}

-- `outcome` is what the handshake with a stream comes to.
module _ {IO IE TlsStream : Type 0} (into : IE → BoxError)
    (outcome : IO → Result IoError TlsStream) where
  -- A connection becomes its handshake's stream or error; an error of either kind is dropped or
  -- passed on.
  abbrev pub secure_one : Result IE IO → List (Result BoxError TlsStream)
  secure_one (ok stream) = accept_one io (outcome stream)
  secure_one (err e) = accept_one into (err e)

  abbrev pub secured : List (Result IE IO) → List (Result BoxError TlsStream)
  secured [] = []
  secured (r ∷ rest) = secure_one r ++ secured rest

-- Enough polls for a stream whose handshakes take `rounds`.
abbrev pub cost {ℓ κ} : {IO : Type ℓ} {IE : Type κ} → (IO → ℕ) → List (Arrival (Result IE IO)) → ℕ
cost rounds [] = 1
cost rounds (later ∷ s) = suc (cost rounds s)
cost rounds (item (ok stream) ∷ s) = suc (rounds stream + cost rounds s)
cost rounds (item (err e) ∷ s) = suc (cost rounds s)

cost-pos {ℓ κ} :
    {IO : Type ℓ} {IE : Type κ} (rounds : IO → ℕ) (s : List (Arrival (Result IE IO)))
    → 0 < cost rounds s
cost-pos rounds [] = omega arith
cost-pos rounds (later ∷ s) = omega arith
cost-pos rounds (item (ok stream) ∷ s) = omega arith
cost-pos rounds (item (err e) ∷ s) = omega arith

module _ {IO IE H TlsStream Cx : Type 0} (into : IE → BoxError) (accept : IO → H)
    (handshake : Future Cx H (Result IoError TlsStream)) where
  abbrev serve :
      TlsIncoming (List (Arrival (Result IE IO))) H
      → List Cx
      → Option (List (Result BoxError TlsStream))
  serve s cxs = drain (serve_tls_incoming into accept handshake) cxs s

  -- One handshake, when it is known what the rest of the stream yields.
  drain-handshake :
      (n : ℕ) (h : H) (r : Result IoError TlsStream) (s : List (Arrival (Result IE IO)))
      (l : List (Result BoxError TlsStream)) (enough : ℕ)
      → Finishes handshake n h r
      → ((cxs : List Cx) → enough ≤ length cxs → serve (at_head s) cxs ≡ some l)
      → (cx : Cx) (cxs : List Cx) → n + enough ≤ length cxs
      → serve (handshaking h s) (cx ∷ cxs) ≡ some (accept_one io r ++ l)
  unfolding drain serve_tls_incoming
  drain-handshake zero h r s l enough finishes rest cx cxs fits =
      let (h', e) = finishes cx in go r e
    where
      go :
          (r' : Result IoError TlsStream)
          → handshake.poll h cx ≡ completes r' (finishes cx).0
          → serve (handshaking h s) (cx ∷ cxs) ≡ some (accept_one io r' ++ l)
      go (ok t) e =
          rw (e, after_handshake) (ap (Option.map (λ k. ok t ∷ k)) (rest cxs (omega arith)))
      go (err x) e =
          rw (e, after_handshake)
            (ground (arith, rest cxs (omega arith), rest (cx ∷ cxs) (omega arith)))
  drain-handshake (suc n) h r s l enough finishes rest cx [] fits = absurd (omega arith)
  drain-handshake (suc n) h r s l enough finishes rest cx (cx' ∷ cxs) fits =
      let (h', e, later_polls) = finishes cx in
      rw (e, after_handshake)
        (drain-handshake n h' r s l enough later_polls rest cx' cxs (omega arith))

  module _ (rounds : IO → ℕ) (outcome : IO → Result IoError TlsStream)
      (finishes : (stream : IO)
        → Finishes handshake (rounds stream) (accept stream) (outcome stream)) where
    -- If each handshake ends after a known number of polls in a known outcome, and the stream is polled
    -- often enough, it ends, and has yielded in order what becomes of each item: the secured stream, or
    -- an error of the handshake or of the connection unless the accept loop skips it.
    pub drain-serve_tls_incoming :
        (tcp_stream : List (Arrival (Result IE IO))) (cxs : List Cx)
        → cost rounds tcp_stream ≤ length cxs
        → drain (serve_tls_incoming into accept handshake) cxs (at_head tcp_stream)
          ≡ some (secured into outcome (items tcp_stream))
    unfolding drain serve_tls_incoming
    drain-serve_tls_incoming s [] fits = absurd (omega (arith, cost-pos rounds s))
    drain-serve_tls_incoming [] (cx ∷ cxs) fits = refl
    drain-serve_tls_incoming (later ∷ s) (cx ∷ cxs) fits =
        drain-serve_tls_incoming s cxs (omega arith)
    drain-serve_tls_incoming (item (ok stream) ∷ s) (cx ∷ cxs) fits =
        drain-handshake (rounds stream) (accept stream) (outcome stream) s _ (cost rounds s)
          (finishes stream) (drain-serve_tls_incoming s) cx cxs (omega arith)
    drain-serve_tls_incoming (item (err e) ∷ s) (cx ∷ cxs) fits = ground (
      arith,
      drain-serve_tls_incoming s (cx ∷ cxs) (omega arith),
      drain-serve_tls_incoming s cxs (omega arith),
    )
