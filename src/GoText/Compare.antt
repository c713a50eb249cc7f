-- ===== src/GoText/Compare.antt =====
-- The order of texts by their characters, read from the other side.
use Prim.Native.Nat.{Ordering, compare as compare_nat}
use Prim.Native.Nat.compare as nat_clause
use Prim.Native.Char.{code}
use Prim.Native.String.{compare, then}
use Prim.Native.String.compare as clause
use cobo_iam_services.Base.{ℕ, zero, suc, String, ◌≡◌, ◌≢◌, refl, ap, sym, ◌∙◌}

abbrev flip : Ordering → Ordering
flip Ordering.lt = Ordering.gt
flip Ordering.eq = Ordering.eq
flip Ordering.gt = Ordering.lt

flip-nat : (m n : ℕ) → flip (compare_nat m n) ≡ compare_nat n m
flip-nat zero zero = ap flip nat_clause.zero-zero ∙ sym nat_clause.zero-zero
flip-nat zero (suc n) = ap flip (nat_clause.zero-suc n) ∙ sym (nat_clause.suc-zero n)
flip-nat (suc m) zero = ap flip (nat_clause.suc-zero m) ∙ sym (nat_clause.zero-suc m)
flip-nat (suc m) (suc n) =
    ap flip (nat_clause.suc-suc m n) ∙ (flip-nat m n ∙ sym (nat_clause.suc-suc n m))

flip-then : (o r : Ordering) → flip (then o r) ≡ then (flip o) (flip r)
flip-then Ordering.lt r = refl
flip-then Ordering.eq r = refl
flip-then Ordering.gt r = refl

flip-compare : (s t : String) → flip (compare s t) ≡ compare t s
flip-compare String.[] String.[] = ap flip clause.nil-nil ∙ sym clause.nil-nil
flip-compare String.[] (String.◌∷◌ d t) = ap flip (clause.nil-cons d t) ∙ sym (clause.cons-nil d t)
flip-compare (String.◌∷◌ c s) String.[] = ap flip (clause.cons-nil c s) ∙ sym (clause.nil-cons c s)
flip-compare (String.◌∷◌ c s) (String.◌∷◌ d t) =
    ap flip (clause.cons-cons c d s t)
    ∙ (flip-then (compare_nat (code c) (code d)) (compare s t)
        ∙ (ap (λ o. then o (flip (compare s t))) (flip-nat (code c) (code d))
            ∙ (ap (λ r. then (compare_nat (code d) (code c)) r) (flip-compare s t)
                ∙ sym (clause.cons-cons d c t s))))

-- Of two texts one at most is less than the other.
pub less-not_less : (s t : String) → compare s t ≡ Ordering.lt → compare t s ≢ Ordering.lt
less-not_less s t h e =
    let both : Path Ordering Ordering.gt Ordering.lt = sym (ap flip h) ∙ (flip-compare s t ∙ e) in
    cc
