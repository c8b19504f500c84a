-- ===== src/Prelude/Equality.antt =====
-- Boolean equality of numbers and of lists of numbers.
use Prim.Native.Nat.{ℕ, zero, suc}
use mathlib.Core.Path.{◌≡◌, refl, ap}
use mathlib.Core.Bool.{Bool, true, false, ◌&&◌}
use mathlib.Core.List.{List, [], ◌∷◌}

abbrev pub eqb : ℕ → ℕ → Bool
eqb zero zero = true
eqb (suc m) (suc n) = eqb m n
eqb _ _ = false

pub eqb_refl : (n : ℕ) → eqb n n ≡ true
eqb_refl zero = refl
eqb_refl (suc n) = eqb_refl n

pub eqb_sound : (m n : ℕ) → eqb m n ≡ true → m ≡ n
eqb_sound zero zero e = refl
eqb_sound zero (suc n) e = cc
eqb_sound (suc m) zero e = cc
eqb_sound (suc m) (suc n) e = ap suc (eqb_sound m n e)

abbrev pub same_bytes : List ℕ → List ℕ → Bool
same_bytes [] [] = true
same_bytes (x ∷ xs) (y ∷ ys) = eqb x y && same_bytes xs ys
same_bytes _ _ = false

pub same_bytes_refl : (xs : List ℕ) → same_bytes xs xs ≡ true
same_bytes_refl [] = refl
same_bytes_refl (x ∷ xs) = rw (eqb_refl x, same_bytes_refl xs) refl

and_split : (a b : Bool) → (a && b) ≡ true → (a ≡ true) × (b ≡ true)
and_split true true e = (refl, refl)
and_split true false e = cc
and_split false true e = cc
and_split false false e = cc

pub same_bytes_sound : (xs ys : List ℕ) → same_bytes xs ys ≡ true → xs ≡ ys
same_bytes_sound [] [] e = refl
same_bytes_sound [] (y ∷ ys) e = cc
same_bytes_sound (x ∷ xs) [] e = cc
same_bytes_sound (x ∷ xs) (y ∷ ys) e =
    let (f, g) = and_split (eqb x y) (same_bytes xs ys) e in
    rw (eqb_sound x y f, same_bytes_sound xs ys g) refl
