-- ===== src/Fuse/Once.antt =====
-- What the polls of a `Fuse` show, against those of the future inside (src/fuse.rs).
use hyper_server.Prelude.{ℕ, suc, ◌≤◌, ◌≡◌, refl, ap, List, [], ◌∷◌, map, Option, some, none, arith}
use hyper_server.Future.{
  Polled, panics, waits, completes, Future, Stays, Seen, panic, pending, ready, IsSound, seen,
  observe,
}
use hyper_server.Fuse.{Fuse, settle, poll_fuse, fuse_future}

module _ {ℓ κ} {Cx : Type κ} {A : Type ℓ} where
  -- What is seen up to the first completion, and from there on nothing but `pending`.
  abbrev pub once : List Cx → List (Seen A) → List (Seen A)
  once (cx ∷ cxs) (pending ∷ r) = pending ∷ once cxs r
  once (cx ∷ cxs) (ready a ∷ r) = ready a ∷ map (λ _. pending) cxs
  once (cx ∷ cxs) (panic ∷ r) = panic ∷ []
  once _ _ = []

-- A `Fuse` may be polled if what is left inside may be.
abbrev pub IsPollable {ℓ} : {F : Type ℓ} → (F → Type 0) → Fuse F → Type 0
IsPollable Live s = elim s.inner [ some fut ↦ Live fut | none ↦ Unit ]

abbrev pub completions {ℓ} : {A : Type ℓ} → List (Seen A) → ℕ
completions [] = 0
completions (ready a ∷ r) = suc (completions r)
completions (_ ∷ r) = completions r

completions-pending {ℓ κ} :
    (A : Type ℓ) {Cx : Type κ} (cxs : List Cx)
    → completions (map {B = Seen A} (λ _. pending) cxs) ≡ 0
completions-pending A [] = refl
completions-pending A (cx ∷ cxs) = completions-pending A cxs

completions-once {ℓ κ} :
    {Cx : Type κ} {A : Type ℓ} (cxs : List Cx) (r : List (Seen A)) → completions (once cxs r) ≤ 1
completions-once (cx ∷ cxs) (pending ∷ r) = completions-once cxs r
completions-once {A = A} (cx ∷ cxs) (ready a ∷ r) = omega (arith, completions-pending A cxs)
completions-once (cx ∷ cxs) (panic ∷ r) = omega arith
completions-once _ _ = omega arith

module _ {ℓ κ μ} {Cx : Type μ} {F : Type ℓ} {A : Type κ} (f : Future Cx F A) where
  observe-spent :
      (s : Fuse F) (cxs : List Cx)
      → s.inner ≡ none
      → observe (fuse_future f) s cxs ≡ map (λ _. pending) cxs
  unfolding observe poll_fuse
  observe-spent s [] e = refl
  observe-spent s (cx ∷ cxs) e = ground (arith, observe-spent s cxs e)

  -- One poll: the rest of the polls are known to agree.
  once-seen :
      (cx : Cx) (cxs : List Cx) (r : Polled F A)
      → ((s : F)
          → observe (fuse_future f) (record { inner = some s }) cxs ≡ once cxs (observe f s cxs))
      → seen (settle r) (λ s. observe (fuse_future f) s cxs)
        ≡ once (cx ∷ cxs) (seen r (λ s. observe f s cxs))
  once-seen cx cxs panics ih = refl
  once-seen cx cxs (waits s) ih = ap (λ l. pending ∷ l) (ih s)
  once-seen cx cxs (completes a s) ih = ap (λ l. ready a ∷ l) (observe-spent _ cxs refl)

  -- Polled any number of times, a fuse shows what the future inside shows up to its completion, the
  -- completion included, and from there on only `Pending`.
  pub observe-fuse :
      (s : F) (cxs : List Cx)
      → observe (fuse_future f) (record { inner = some s }) cxs ≡ once cxs (observe f s cxs)
  unfolding observe poll_fuse
  observe-fuse s [] = refl
  observe-fuse s (cx ∷ cxs) = once-seen cx cxs (f.poll s cx) (λ s'. observe-fuse s' cxs)

  -- In whatever state a fuse is, at most one of any number of polls completes.
  pub completions-observe-fuse :
      (s : Fuse F) (cxs : List Cx) → completions (observe (fuse_future f) s cxs) ≤ 1
  completions-observe-fuse s cxs = go s.inner
    where
      go : (o : Option F) → completions (observe (fuse_future f) (record { inner = o }) cxs) ≤ 1
      go (some fut) = rw observe-fuse (completions-once cxs (observe f fut cxs))
      go none =
          rw (observe-spent (record { inner = none }) cxs refl)
            (omega (arith, completions-pending A cxs))

  Stays-settle :
      (Live : F → Type 0) (r : Polled F A) → Stays Live r → Stays (IsPollable Live) (settle r)
  Stays-settle Live panics h = h
  Stays-settle Live (waits s) h = h
  Stays-settle Live (completes a s) h = tt

  -- If the future inside does not panic in its live states, and stays live while it waits, a `Fuse`
  -- over it does not panic, live inside or completed, and stays so.
  pub poll_fuse-Stays :
      (Live : F → Type 0)
      → IsSound f Live
      → (s : Fuse F) (cx : Cx) → IsPollable Live s
      → Stays (IsPollable Live) (poll_fuse f s cx)
  unfolding poll_fuse
  poll_fuse-Stays Live sound s cx h = go s.inner h
    where
      go :
          (o : Option F)
          → IsPollable Live (record { inner = o })
          → Stays (IsPollable Live) (poll_fuse f (record { inner = o }) cx)
      go (some fut) h' = Stays-settle Live (f.poll fut cx) (sound fut cx h')
      go none h' = tt
