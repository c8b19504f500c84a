-- ===== src/Future.antt =====
-- `std::future::Future`: what one call of `poll` does, futures as an interface, and their contract.
use hyper_server.Prelude.{ℕ, zero, suc, ◌≡◌, List, [], ◌∷◌}

-- The outcome of `poll(self: Pin<&mut Self>, cx)`, with the state that the future is left in: it
-- panics, returns `Poll::Pending`, or returns `Poll::Ready(a)`.
pub data Polled {ℓ κ} (F : Type ℓ) (A : Type κ) : Type (ℓ ⊔ κ) where
  panics : Polled F A
  waits : F → Polled F A
  completes : A → F → Polled F A

-- `std::task::Poll`
pub data Poll {ℓ} (A : Type ℓ) : Type ℓ where
  pending : Poll A
  ready : A → Poll A

-- The trait: `Cx` is what a poll may read of its surroundings.
pub record Future {ℓ κ μ} (Cx : Type μ) (F : Type ℓ) (A : Type κ) : Type (ℓ ⊔ κ ⊔ μ) where
  pub poll : F → Cx → Polled F A

-- The outcome is no panic, and a future that waits has the property.
abbrev pub Stays {ℓ κ} : {F : Type ℓ} {A : Type κ} → (F → Type 0) → Polled F A → Type 0
Stays P panics = ⊥
Stays P (waits s) = P s
Stays P (completes a s) = Unit

-- A poll of one part of a larger future.
abbrev pub map_polled {ℓ κ μ ν} :
    {F : Type ℓ} {A : Type κ} {G : Type μ} {B : Type ν}
    → (F → G)
    → (A → B)
    → Polled F A
    → Polled G B
map_polled whole result panics = panics
map_polled whole result (waits s) = waits (whole s)
map_polled whole result (completes a s) = completes (result a) (whole s)

-- What the caller of `poll` sees.
pub data Seen {ℓ} (A : Type ℓ) : Type ℓ where
  panic : Seen A
  pending : Seen A
  ready : A → Seen A

-- The outcome, and what a continuation sees of the state that is left.
abbrev pub seen {ℓ κ} : {F : Type ℓ} {A : Type κ} → Polled F A → (F → List (Seen A)) → List (Seen A)
seen panics rest = panic ∷ []
seen (waits s) rest = pending ∷ rest s
seen (completes a s) rest = ready a ∷ rest s

module _ {ℓ κ μ} {Cx : Type μ} {F : Type ℓ} {A : Type κ} (f : Future Cx F A) where
  -- The contract of the trait: in the states `Live`, where it has not completed, a poll does not
  -- panic. Nothing is said of a future that has completed.
  abbrev pub IsSound : (F → Type 0) → Type (ℓ ⊔ μ)
  IsSound Live = (s : F) (cx : Cx) → Live s → Stays Live (f.poll s cx)

  -- Any number of polls, also after completion, up to a panic.
  unfoldable pub observe : F → List Cx → List (Seen A)
  observe s [] = []
  observe s (cx ∷ cxs) = seen (f.poll s cx) (λ s'. observe s' cxs)

module _ {Cx H A : Type 0} (future : Future Cx H A) where
  -- After `n` polls that are not ready the next one brings `a`, whatever the contexts.
  abbrev pub Finishes : ℕ → H → A → Type 0
  Finishes zero h a = (cx : Cx) → (h' : H) × (future.poll h cx ≡ completes a h')
  Finishes (suc n) h a = (cx : Cx) → (h' : H) × (future.poll h cx ≡ waits h') × Finishes n h' a
