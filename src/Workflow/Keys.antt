-- ===== src/Workflow/Keys.antt =====
-- The repositories' keys, `companyID + ":" + id`: companies without a colon in their id share none.
use Prim.Native.Char.{Char, code}
use text.Mathlib.TextLemmas.{nil-append, cons-append, head-eq_of_cons-eq, tail-eq_of_cons-eq}
use cobo_iam_services.Base.{
  String, ◌<>◌, ◌≡◌, refl, ap, sym, ◌∙◌, Bool, true, not, ◌&&◌, eqb, arith,
}
use cobo_iam_services.Workflow.{ikey}

-- no colon in the text
unfoldable pub is_plain : String → Bool
is_plain String.[] = true
is_plain (String.◌∷◌ c s) = not (eqb (code c) b':') && is_plain s

plain_head : (c : Char) (s : String) → is_plain (String.◌∷◌ c s) ≡ true → code c ≡ b':' → ⊥
unfolding is_plain
plain_head c s p e = ground (arith, p, e)

plain_tail : (c : Char) (s : String) → is_plain (String.◌∷◌ c s) ≡ true → is_plain s ≡ true
unfolding is_plain
plain_tail c s p = ground (arith, p)

ikey-nil : (x : String) → ikey "" x ≡ String.◌∷◌ ":" x
unfolding ikey
ikey-nil x = nil-append (":" <> x) ∙ (cons-append ":" "" x ∙ ap (String.◌∷◌ ":") (nil-append x))

ikey-cons : (a : Char) (c x : String) → ikey (String.◌∷◌ a c) x ≡ String.◌∷◌ a (ikey c x)
unfolding ikey
ikey-cons a c x = cons-append a c (":" <> x)

-- Companies without a colon in their id share no key.
pub ikey_inj :
    (c d x y : String)
    → is_plain c ≡ true
    → is_plain d ≡ true
    → ikey c x ≡ ikey d y
    → (c ≡ d) × (x ≡ y)
ikey_inj String.[] String.[] x y p q e =
    (refl, tail-eq_of_cons-eq (sym (ikey-nil x) ∙ (e ∙ ikey-nil y)))
ikey_inj String.[] (String.◌∷◌ b d) x y p q e =
    elim (plain_head b d q
      (ap code (head-eq_of_cons-eq (sym (ikey-cons b d y) ∙ (sym e ∙ ikey-nil x))))) [ ]
ikey_inj (String.◌∷◌ a c) String.[] x y p q e =
    elim (plain_head a c p
      (ap code (head-eq_of_cons-eq (sym (ikey-cons a c x) ∙ (e ∙ ikey-nil y))))) [ ]
ikey_inj (String.◌∷◌ a c) (String.◌∷◌ b d) x y p q e =
    let whole : String.◌∷◌ a (ikey c x) ≡ String.◌∷◌ b (ikey d y) =
      sym (ikey-cons a c x) ∙ (e ∙ ikey-cons b d y) in
    let (same, rest) =
      ikey_inj c d x y (plain_tail a c p) (plain_tail b d q) (tail-eq_of_cons-eq whole) in
    (ap (λ z. String.◌∷◌ z c) (head-eq_of_cons-eq whole) ∙ ap (String.◌∷◌ b) same, rest)
