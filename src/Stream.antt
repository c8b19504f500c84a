-- ===== src/Stream.antt =====
-- `futures::Stream`: what the polls of an incoming stream bring, and what a generated stream answers.
use mathlib.Core.Option
use hyper_server.Prelude.{ℕ, zero, suc, Option, none, some, List, [], ◌∷◌, ◌++◌, map, ◌≡◌, refl, ap}

-- One poll of a stream that has not ended: it is not ready, or has an item. A stream is the list of
-- what its polls will bring; at its end it answers `None` for ever.
pub data Arrival {ℓ} (A : Type ℓ) : Type ℓ where
  later : Arrival A
  item : A → Arrival A

-- The items in order.
abbrev pub items {ℓ} : {A : Type ℓ} → List (Arrival A) → List A
items [] = []
items (later ∷ s) = items s
items (item a ∷ s) = a ∷ items s

-- The answer of `poll_next`: a panic, pending, `Some(a)` or `None`, with the state that is left.
pub data Next {ℓ κ} (S : Type ℓ) (A : Type κ) : Type (ℓ ⊔ κ) where
  crashes : Next S A
  waits : S → Next S A
  yields : A → S → Next S A
  ended : Next S A

module _ {ℓ κ} {S : Type ℓ} {A : Type κ} where
  abbrev pub collect : Next S A → (S → Option (List A)) → Option (List A)
  collect crashes rest = none
  collect (waits s) rest = rest s
  collect (yields a s) rest = Option.map (λ l. a ∷ l) (rest s)
  collect ended rest = some []

  -- All items of a stream that is polled to its end, one context for each poll; `none` if it panics
  -- or takes more polls.
  unfoldable pub drain {μ} : {Cx : Type μ} → (S → Cx → Next S A) → List Cx → S → Option (List A)
  drain poll_next [] s = none
  drain poll_next (cx ∷ cxs) s = collect (poll_next s cx) (drain poll_next cxs)

  abbrev pub gather : Next S A → (S → List A) → List A
  gather (waits s) rest = rest s
  gather (yields a s) rest = a ∷ rest s
  gather _ rest = []

  -- What is yielded in the course of the given polls, whether or not the stream ends in them.
  unfoldable pub yielded {μ} : {Cx : Type μ} → (S → Cx → Next S A) → List Cx → S → List A
  yielded poll_next [] s = []
  yielded poll_next (cx ∷ cxs) s = gather (poll_next s cx) (yielded poll_next cxs)

pub items-append {ℓ} : {A : Type ℓ} (s t : List (Arrival A)) → items (s ++ t) ≡ items s ++ items t
items-append [] t = refl
items-append (later ∷ s) t = items-append s t
items-append (item a ∷ s) t = ap (λ l. a ∷ l) (items-append s t)

pub items-map_item {ℓ} : {A : Type ℓ} (l : List A) → items (map item l) ≡ l
items-map_item [] = refl
items-map_item (a ∷ l) = ap (λ k. a ∷ k) (items-map_item l)

-- What the `.await` of a stream's `next` comes to within some polls: a panic, no answer yet, or
-- `Some(a)` or `None`.
pub data Awaited (A : Type 0) : Type 0 where
  crashed : Awaited A
  unanswered : Awaited A
  answered : Option A → Awaited A

abbrev pub answer : {S A : Type 0} → Next S A → (S → Awaited A) → Awaited A
answer crashes rest = crashed
answer (waits s) rest = rest s
answer (yields a s) rest = answered (some a)
answer ended rest = answered none

unfoldable pub await_next : {S A Cx : Type 0} → (S → Cx → Next S A) → List Cx → S → Awaited A
await_next poll_next [] s = unanswered
await_next poll_next (cx ∷ cxs) s = answer (poll_next s cx) (await_next poll_next cxs)

-- What so many polls of a generated stream bring, as a stream.
unfoldable pub polled_out : {S A : Type 0} → (S → Next S A) → ℕ → S → List (Arrival A)
polled_out next zero s = []
polled_out next (suc n) s = elim (next s) [
  | crashes ↦ []
  | waits s' ↦ later ∷ polled_out next n s'
  | yields a s' ↦ item a ∷ polled_out next n s'
  | ended ↦ []
]

-- Polls of a listener at which nobody connects.
abbrev pub nobody {ℓ} : {A : Type ℓ} → ℕ → List (Arrival A)
nobody zero = []
nobody (suc n) = later ∷ nobody n
