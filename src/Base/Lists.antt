-- ===== src/Base/Lists.antt =====
-- Lists measured by native numbers, membership as a family, and predicates over lists.
use Prim.Native.Nat.{ℕ, zero, suc, ◌+◌, min}
use mathlib.Core.Path.{◌≡◌}
use mathlib.Core.Bool.{Bool, true, false}
use mathlib.Core.Logic.{◌⊎◌, inl, inr}
use mathlib.Core.List.{List, [], ◌∷◌, ◌++◌}
use native.Mathlib.Omega.{arith}

module _ {ℓ} {A : Type ℓ} where
  abbrev pub length : List A → ℕ
  length [] = 0
  length (x ∷ xs) = suc (length xs)

  abbrev pub is_empty : List A → Bool
  is_empty [] = true
  is_empty (x ∷ xs) = false

  abbrev pub take : ℕ → List A → List A
  take zero xs = []
  take (suc n) [] = []
  take (suc n) (x ∷ xs) = x ∷ take n xs

  -- `x` stands in the list.
  pub data In (x : A) : List A → Type ℓ where
    here : {xs : List A} → In x (x ∷ xs)
    there : {y : A} {xs : List A} → In x xs → In x (y ∷ xs)

  pub In-append_left : {x : A} {xs : List A} (ys : List A) → In x xs → In x (xs ++ ys)
  In-append_left ys here = here
  In-append_left ys (there m) = there (In-append_left ys m)

  pub In-append_right : {x : A} (xs : List A) {ys : List A} → In x ys → In x (xs ++ ys)
  In-append_right [] m = m
  In-append_right (y ∷ xs) m = there (In-append_right xs m)

  pub In-append : {x : A} (xs : List A) {ys : List A} → In x (xs ++ ys) → In x xs ⊎ In x ys
  In-append [] m = inr m
  In-append (y ∷ xs) here = inl here
  In-append (y ∷ xs) (there m) = elim (In-append xs m) [ inl l ↦ inl (there l) | inr r ↦ inr r ]

  pub length-append : (xs ys : List A) → length (xs ++ ys) ≡ length xs + length ys
  length-append [] ys = omega arith
  length-append (x ∷ xs) ys = omega (arith, length-append xs ys)

  pub length-take : (n : ℕ) (xs : List A) → length (take n xs) ≡ min n (length xs)
  length-take zero xs = omega arith
  length-take (suc n) [] = omega arith
  length-take (suc n) (x ∷ xs) = omega (arith, length-take n xs)

-- Some element satisfies `P`; every element does.
module _ {ℓ κ} {A : Type ℓ} (P : A → Type κ) where
  pub data Some : List A → Type (ℓ ⊔ κ) where
    first : {x : A} {xs : List A} → P x → Some (x ∷ xs)
    later : {x : A} {xs : List A} → Some xs → Some (x ∷ xs)

  abbrev pub All : List A → Type κ
  All [] = Unit
  All (x ∷ xs) = P x × All xs

module _ {ℓ κ} {A : Type ℓ} {P : A → Type κ} where
  pub Some-of-In : {x : A} {xs : List A} → In x xs → P x → Some P xs
  Some-of-In here p = first p
  Some-of-In (there m) p = later (Some-of-In m p)

  pub In-of-Some : {xs : List A} → Some P xs → (x : A) × In x xs × P x
  In-of-Some (first {x = x} p) = (x, here, p)
  In-of-Some (later s) = let (x, m, p) = In-of-Some s in (x, there m, p)

pub All-In {ℓ κ} : {A : Type ℓ} (P : A → Type κ) {x : A} (xs : List A) → All P xs → In x xs → P x
All-In P [] h m = elim m [ ]
All-In P (y ∷ xs) h here = h.0
All-In P (y ∷ xs) h (there m) = All-In P xs h.1 m
