-- ===== src/Base/Unary.antt =====
-- A generator of identifiers that gives none twice, for the examples: "", "u", "uu" and so on.
use Prim.Native.Nat.{ℕ, zero, suc}
use Prim.Native.String.{String}
use mathlib.Core.Path.{◌≡◌, refl, ap}
use mathlib.Core.Bool.{Bool, true, false}
use text.Mathlib.TextLemmas.{tail-eq_of_cons-eq}

abbrev pub uuid : ℕ → String
uuid zero = ""
uuid (suc n) = String.◌∷◌ "u" (uuid n)

abbrev is_nil : String → Bool
is_nil String.[] = true
is_nil (String.◌∷◌ c s) = false

pub uuid_inj : (n m : ℕ) → uuid n ≡ uuid m → n ≡ m
uuid_inj zero zero e = refl
uuid_inj zero (suc m) e = let h = ap is_nil e in cc
uuid_inj (suc n) zero e = let h = ap is_nil e in cc
uuid_inj (suc n) (suc m) e = ap suc (uuid_inj n m (tail-eq_of_cons-eq e))
