-- ===== src/Tcp/Demux.antt =====
-- The connections and errors that `serve_tcp_incoming` yields (src/tcp.rs), item by item.
use mathlib.Core.List.{append_assoc}
use hyper_server.Prelude.{
  sym, ap, All, ◌<◌, ◌≡◌, refl, Result, ok, err, some, List, [], ◌∷◌, ◌++◌, length, arith,
}
use hyper_server.Stream.{Arrival, later, item, items, drain}
use hyper_server.Errors.{BoxError}
use hyper_server.Errors.Accept.{
  ControlFlow, classify, classify-breaks, handle_accept_error, continues, breaks,
}
use hyper_server.Tcp.{serve_tcp_incoming}

abbrev pub oks {ℓ κ} : {E : Type κ} {A : Type ℓ} → List (Result E A) → List A
oks [] = []
oks (ok a ∷ rs) = a ∷ oks rs
oks (err e ∷ rs) = oks rs

-- An error that the accept loop would not skip.
abbrev pub IsFatal {ℓ} : {A : Type ℓ} → Result BoxError A → Type 0
IsFatal (ok a) = Unit
IsFatal (err b) = classify b ≡ breaks b

module _ {ℓ κ} {IO : Type ℓ} {IE : Type κ} (into : IE → BoxError) where
  -- What becomes of one item: a connection is passed on, an error is dropped or passed on.
  abbrev pub accept_one : Result IE IO → List (Result BoxError IO)
  accept_one (ok io) = ok io ∷ []
  accept_one (err e) = elim (handle_accept_error into e) [
    | continues ↦ []
    | breaks fatal ↦ err fatal ∷ []
  ]

  abbrev pub accepted : List (Result IE IO) → List (Result BoxError IO)
  accepted [] = []
  accepted (r ∷ rest) = accept_one r ++ accepted rest

  module _ {μ} {Cx : Type μ} where
    -- Polled once more than it has arrivals, or oftener, the stream ends, and has yielded just that.
    pub drain-serve_tcp_incoming :
        (cxs : List Cx) (incoming : List (Arrival (Result IE IO)))
        → length incoming < length cxs
        → drain (λ s _. serve_tcp_incoming into s) cxs incoming ≡ some (accepted (items incoming))
    unfolding drain serve_tcp_incoming
    drain-serve_tcp_incoming [] incoming h = elim h [ ]
    drain-serve_tcp_incoming (cx ∷ cxs) [] h = refl
    drain-serve_tcp_incoming (cx ∷ cxs) (later ∷ incoming) h =
        drain-serve_tcp_incoming cxs incoming (omega arith)
    drain-serve_tcp_incoming (cx ∷ cxs) (item (ok io) ∷ incoming) h =
        rw (drain-serve_tcp_incoming cxs incoming (omega arith))
    drain-serve_tcp_incoming (cx ∷ cxs) (item (err e) ∷ incoming) h = ground (
      arith,
      drain-serve_tcp_incoming (cx ∷ cxs) incoming (omega arith),
      drain-serve_tcp_incoming cxs incoming (omega arith),
    )

  pub accepted-append :
      (rs later_rs : List (Result IE IO))
      → accepted (rs ++ later_rs) ≡ accepted rs ++ accepted later_rs
  accepted-append [] later_rs = refl
  accepted-append (r ∷ rs) later_rs =
      rw (accepted-append rs later_rs)
        (sym (append_assoc (accept_one r) (accepted rs) (accepted later_rs)))

  pub accepted-fatal_error :
      (e : IE) (b : BoxError) (rs : List (Result IE IO))
      → handle_accept_error into e ≡ breaks b
      → accepted (err e ∷ rs) ≡ err b ∷ accepted rs
  accepted-fatal_error e b rs fatal = ground arith

  -- The connections, in order.
  pub oks-accepted : (rs : List (Result IE IO)) → oks (accepted rs) ≡ oks rs
  oks-accepted [] = refl
  oks-accepted (ok io ∷ rs) = ap (λ l. io ∷ l) (oks-accepted rs)
  oks-accepted (err e ∷ rs) = ground (arith, oks-accepted rs)

  pub accepted-IsFatal : (rs : List (Result IE IO)) → All IsFatal (accepted rs)
  accepted-IsFatal [] = tt
  accepted-IsFatal (ok io ∷ rs) = (tt, accepted-IsFatal rs)
  accepted-IsFatal (err e ∷ rs) =
      go (handle_accept_error into e) (classify-breaks into e) (accepted-IsFatal rs)
    where
      go :
          (c : ControlFlow BoxError)
          → ((b : BoxError) → c ≡ breaks b → classify b ≡ breaks b)
          → All (IsFatal {A = IO}) (accepted rs)
          → All
              (IsFatal {A = IO})
              (elim c [ continues ↦ [] | breaks fatal ↦ err fatal ∷ [] ] ++ accepted rs)
      go continues fatal rest = rest
      go (breaks b) fatal rest = (fatal b refl, rest)
