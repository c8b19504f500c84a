-- ===== src/Tls/Promises.antt =====
-- What a client of `serve_tls_incoming` can rely on, and what it cannot (src/tls.rs).
use hyper_server.Prelude.{
  ℕ, ◌≤◌, ◌<◌, ◌≡◌, refl, ap, Result, ok, err, some, List, [], ◌∷◌, ◌++◌, map, length, arith,
}
use hyper_server.Future.{Finishes, Future, waits}
use hyper_server.Stream.{Arrival, later, item, items, items-map_item, drain, yielded}
use hyper_server.Errors.{BoxError, IoError, io}
use hyper_server.Errors.Accept.{
  ControlFlow, classify, classify-breaks, handle_accept_error, handle_accept_error-same, continues,
  breaks,
}
use hyper_server.Tcp.{serve_tcp_incoming}
use hyper_server.Tcp.Demux.{accept_one, accepted, drain-serve_tcp_incoming}
use hyper_server.Tls.{at_head, handshaking, after_handshake, serve_tls_incoming}
use hyper_server.Tls.Handshakes.{secure_one, secured, cost, drain-serve_tls_incoming}

abbrev pub same : BoxError → BoxError
same b = b

module _ {IO IE TlsStream : Type 0} (into : IE → BoxError)
    (outcome : IO → Result IoError TlsStream) where
  secured-accept_one :
      (r : Result IE IO) (l : List (Result BoxError TlsStream)) (rs : List (Result BoxError IO))
      → secured same outcome rs ≡ l
      → secured same outcome (accept_one into r ++ rs) ≡ secure_one into outcome r ++ l
  secured-accept_one (ok stream) l rs h = ap (λ k. accept_one io (outcome stream) ++ k) h
  secured-accept_one (err e) l rs h = go (handle_accept_error into e) (classify-breaks into e)
    where
      go :
          (c : ControlFlow BoxError)
          → ((b : BoxError) → c ≡ breaks b → classify b ≡ breaks b)
          → secured same outcome (elim c [ continues ↦ [] | breaks fatal ↦ err fatal ∷ [] ] ++ rs)
            ≡ elim c [ continues ↦ [] | breaks fatal ↦ err fatal ∷ [] ] ++ l
      go continues fatal = h
      go (breaks b) fatal = ground (arith, handle_accept_error-same b (fatal b refl), h)

  -- Errors that the TCP stream let through are fatal to the TLS stream too.
  secured-accepted :
      (rs : List (Result IE IO)) → secured same outcome (accepted into rs) ≡ secured into outcome rs
  secured-accepted [] = refl
  secured-accepted (r ∷ rs) =
      secured-accept_one r (secured into outcome rs) (accepted into rs) (secured-accepted rs)

length-lt-cost :
    {IO IE : Type 0} (rounds : IO → ℕ) (s : List (Arrival (Result IE IO)))
    → length s < cost rounds s
length-lt-cost rounds [] = omega arith
length-lt-cost rounds (later ∷ s) = omega (arith, length-lt-cost rounds s)
length-lt-cost rounds (item (ok stream) ∷ s) = omega (arith, length-lt-cost rounds s)
length-lt-cost rounds (item (err e) ∷ s) = omega (arith, length-lt-cost rounds s)

module _ {IO IE : Type 0} (into : IE → BoxError) (rounds : IO → ℕ) where
  cost-accepted :
      (s : List (Arrival (Result IE IO)))
      → cost rounds (map item (accepted into (items s))) ≤ cost rounds s
  cost-accepted [] = omega arith
  cost-accepted (later ∷ s) = omega (arith, cost-accepted s)
  cost-accepted (item (ok stream) ∷ s) = omega (arith, cost-accepted s)
  cost-accepted (item (err e) ∷ s) = ground (arith, cost-accepted s)

module _ {IO IE H TlsStream Cx : Type 0} (into : IE → BoxError) (accept : IO → H)
    (handshake : Future Cx H (Result IoError TlsStream)) where
  module _ (rounds : IO → ℕ) (outcome : IO → Result IoError TlsStream)
      (finishes : (stream : IO)
        → Finishes handshake (rounds stream) (accept stream) (outcome stream)) where
    -- With enough polls for handshakes that end in known rounds and outcomes: the TLS stream over what
    -- the TCP stream yields is the TLS stream over the incoming stream itself.
    pub tls_over_tcp :
        (incoming : List (Arrival (Result IE IO))) (cxs : List Cx)
        → cost rounds incoming ≤ length cxs
        → (served : List (Result BoxError IO)) × (drain
              (λ s _. serve_tcp_incoming into s)
              cxs
              incoming
            ≡ some served)
          × (drain (serve_tls_incoming same accept handshake) cxs (at_head (map item served))
              ≡ drain (serve_tls_incoming into accept handshake) cxs (at_head incoming))
    tls_over_tcp incoming cxs fits = (
      served,
      drain-serve_tcp_incoming into cxs incoming (omega (arith, length-lt-cost rounds incoming)),
      rw (
        drain-serve_tls_incoming into accept handshake rounds outcome finishes incoming cxs fits,
        drain-serve_tls_incoming same accept handshake rounds outcome finishes (map item served) cxs
            (omega (arith, cost-accepted into rounds incoming)),
        items-map_item served,
        secured-accepted into outcome (items incoming),
      ),
    )
      where
        served : List (Result BoxError IO)
        served = accepted into (items incoming)

  -- A handshake that no poll finishes, though none of them panics.
  pub record Stalls (Stalled : H → Type 0) : Type 0 where
    pub stays :
        (h : H) (cx : Cx) → Stalled h → (h' : H) × (handshake.poll h cx ≡ waits h') × Stalled h'

  yielded-stalled :
      (Stalled : H → Type 0)
      → Stalls Stalled
      → (h : H) (s : List (Arrival (Result IE IO))) (cxs : List Cx) → Stalled h
      → yielded (serve_tls_incoming into accept handshake) cxs (handshaking h s) ≡ []
  unfolding yielded serve_tls_incoming
  yielded-stalled Stalled stalls h s [] st = refl
  yielded-stalled Stalled stalls h s (cx ∷ cxs) st =
      let (h', e, st') = stalls.stays h cx st in
      rw (e, after_handshake) (yielded-stalled Stalled stalls h' s cxs st')

  -- A connection whose handshake never ends keeps the TLS stream from yielding anything, however
  -- often it is polled and whatever comes after it.
  pub stalled_handshake_blocks :
      (Stalled : H → Type 0)
      → Stalls Stalled
      → (stream : IO) → Stalled (accept stream)
      → (rest : List (Arrival (Result IE IO))) (cxs : List Cx)
      → yielded (serve_tls_incoming into accept handshake) cxs (at_head (item (ok stream) ∷ rest))
        ≡ []
  unfolding yielded serve_tls_incoming
  stalled_handshake_blocks Stalled stalls stream st rest [] = refl
  stalled_handshake_blocks Stalled stalls stream st rest (cx ∷ cxs) =
      yielded-stalled Stalled stalls (accept stream) rest (cx ∷ cxs) st
