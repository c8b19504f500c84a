-- ===== src/Tls/FirstItem.antt =====
-- The first item of `serve_tls_incoming` when one client connects (src/tls.rs).
use mathlib.Core.Path.{subst}
use hyper_server.Prelude.{
  ℕ, zero, suc, ◌+◌, ◌<◌, ◌≡◌, refl, sym, ◌∙◌, some, List, [], ◌∷◌, ◌++◌, Result, ok, err, length,
  arith,
}
use hyper_server.Future.{Future, Finishes}
use hyper_server.Stream.{
  Arrival, item, yields, Awaited, crashed, unanswered, answered, answer, await_next, nobody,
}
use hyper_server.Errors.{BoxError, IoError, io}
use hyper_server.Errors.Accept.{ControlFlow, handle_accept_error, continues, breaks}
use hyper_server.Tls.{TlsIncoming, at_head, handshaking, after_handshake, serve_tls_incoming}
use hyper_server.Tls.Promises.{same, Stalls}

-- No connection is brought, nor does the task panic.
abbrev pub NotAccepted : {TlsStream : Type 0} → Awaited (Result BoxError TlsStream) → Type 0
NotAccepted crashed = ⊥
NotAccepted (answered (some (ok t))) = ⊥
NotAccepted _ = Unit

module _ {Tcp H TlsStream Cx : Type 0} (accept : Tcp → H)
    (handshake : Future Cx H (Result IoError TlsStream)) where
  abbrev pub awaited :
      List Cx
      → TlsIncoming (List (Arrival (Result BoxError Tcp))) H
      → Awaited (Result BoxError TlsStream)
  awaited = await_next (serve_tls_incoming same accept handshake)

  -- A handshake starts in the poll that brings its connection.
  awaited-item :
      (cxs : List Cx) (tcp : Tcp) (rest : List (Arrival (Result BoxError Tcp)))
      → awaited cxs (at_head (item (ok tcp) ∷ rest)) ≡ awaited cxs (handshaking (accept tcp) rest)
  unfolding await_next serve_tls_incoming
  awaited-item [] tcp rest = refl
  awaited-item (cx ∷ cxs) tcp rest = refl

  awaited-ok :
      (n : ℕ) (h : H) (t : TlsStream) (rest : List (Arrival (Result BoxError Tcp))) (cxs : List Cx)
      → Finishes handshake n h (ok t)
      → n < length cxs
      → awaited cxs (handshaking h rest) ≡ answered (some (ok t))
  unfolding await_next serve_tls_incoming
  awaited-ok n h t rest [] finishes fits = absurd (omega arith)
  awaited-ok zero h t rest (cx ∷ cxs) finishes fits =
      let (h', e) = finishes cx in rw (e, after_handshake) refl
  awaited-ok (suc n) h t rest (cx ∷ cxs) finishes fits =
      let (h', e, later_polls) = finishes cx in
      rw (e, after_handshake) (awaited-ok n h' t rest cxs later_polls (omega arith))

  pub awaited-ok_after :
      (before n : ℕ) (tcp : Tcp) (t : TlsStream) (rest : List (Arrival (Result BoxError Tcp)))
      (cxs : List Cx)
      → Finishes handshake n (accept tcp) (ok t)
      → n + before < length cxs
      → awaited cxs (at_head (nobody before ++ item (ok tcp) ∷ rest)) ≡ answered (some (ok t))
  unfolding await_next serve_tls_incoming
  awaited-ok_after zero n tcp t rest cxs finishes fits =
      awaited-item cxs tcp rest ∙ awaited-ok n (accept tcp) t rest cxs finishes (omega arith)
  awaited-ok_after (suc before) n tcp t rest [] finishes fits = absurd (omega arith)
  awaited-ok_after (suc before) n tcp t rest (cx ∷ cxs) finishes fits =
      awaited-ok_after before n tcp t rest cxs finishes (omega arith)

  awaited-nobody : (m : ℕ) (cxs : List Cx) → NotAccepted (awaited cxs (at_head (nobody m)))
  unfolding await_next serve_tls_incoming
  awaited-nobody m [] = tt
  awaited-nobody zero (cx ∷ cxs) = tt
  awaited-nobody (suc m) (cx ∷ cxs) = awaited-nobody m cxs

  awaited-err :
      (n : ℕ) (h : H) (e : IoError) (m : ℕ) (cxs : List Cx)
      → Finishes handshake n h (err e)
      → NotAccepted (awaited cxs (handshaking h (nobody m)))
  unfolding await_next serve_tls_incoming
  awaited-err n h e m [] finishes = tt
  awaited-err zero h e m (cx ∷ cxs) finishes =
      let (h', q) = finishes cx in
      rw (q, after_handshake) (go (handle_accept_error io e) (awaited-nobody m (cx ∷ cxs)))
    where
      go :
          (c : ControlFlow BoxError)
          → NotAccepted (awaited (cx ∷ cxs) (at_head (nobody m)))
          → NotAccepted (
              answer
                (elim c [
                  | continues ↦ serve_tls_incoming same accept handshake (at_head (nobody m)) cx
                  | breaks fatal ↦ yields (err fatal) (at_head (nobody m))
                ])
                (await_next (serve_tls_incoming same accept handshake) cxs))
      go continues k = k
      go (breaks fatal) k = tt
  awaited-err (suc n) h e m (cx ∷ cxs) finishes =
      let (h', q, later_polls) = finishes cx in
      rw (q, after_handshake) (awaited-err n h' e m cxs later_polls)

  pub awaited-err_after :
      (before n : ℕ) (tcp : Tcp) (e : IoError) (m : ℕ) (cxs : List Cx)
      → Finishes handshake n (accept tcp) (err e)
      → NotAccepted (awaited cxs (at_head (nobody before ++ item (ok tcp) ∷ nobody m)))
  unfolding await_next serve_tls_incoming
  awaited-err_after zero n tcp e m cxs finishes =
      subst NotAccepted (sym (awaited-item cxs tcp (nobody m)))
        (awaited-err n (accept tcp) e m cxs finishes)
  awaited-err_after (suc before) n tcp e m [] finishes = tt
  awaited-err_after (suc before) n tcp e m (cx ∷ cxs) finishes =
      awaited-err_after before n tcp e m cxs finishes

  module _ (Silent : H → Type 0)
      (stalls : Stalls {IE = BoxError} same accept handshake Silent) where
    awaited-silent :
        (h : H) (rest : List (Arrival (Result BoxError Tcp))) (cxs : List Cx)
        → Silent h
        → awaited cxs (handshaking h rest) ≡ unanswered
    unfolding await_next serve_tls_incoming
    awaited-silent h rest [] s = refl
    awaited-silent h rest (cx ∷ cxs) s =
        let (h', e, s') = stalls.stays h cx s in
        rw (e, after_handshake) (awaited-silent h' rest cxs s')

    pub awaited-silent_after :
        (before : ℕ) (tcp : Tcp) (rest : List (Arrival (Result BoxError Tcp))) (cxs : List Cx)
        → Silent (accept tcp)
        → awaited cxs (at_head (nobody before ++ item (ok tcp) ∷ rest)) ≡ unanswered
    unfolding await_next serve_tls_incoming
    awaited-silent_after zero tcp rest cxs s =
        awaited-item cxs tcp rest ∙ awaited-silent (accept tcp) rest cxs s
    awaited-silent_after (suc before) tcp rest [] s = refl
    awaited-silent_after (suc before) tcp rest (cx ∷ cxs) s =
        awaited-silent_after before tcp rest cxs s
