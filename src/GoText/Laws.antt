-- ===== src/GoText/Laws.antt =====
-- Trimming twice is trimming once.
use Prim.Native.Char.{Char, code}
use cobo_iam_services.Base.{String, ◌≡◌, refl, true, false, Bool-cases, inl, inr, ◌∙◌, ap}
use cobo_iam_services.GoText.{is_space, keep_unless_blank, trim_left, trim_right, trim_space}

module _ (c : Char) where
  keep_right :
      (r : String) → trim_right r ≡ r → trim_right (keep_unless_blank c r) ≡ keep_unless_blank c r
  unfolding trim_right
  keep_right String.[] e = elim (Bool-cases (is_space (code c))) [ inl y ↦ simp y | inr n ↦ simp n ]
  keep_right (String.◌∷◌ d r) e = rw (e, keep_unless_blank)

  trim_left-space :
      (s : String) → is_space (code c) ≡ true → trim_left (String.◌∷◌ c s) ≡ trim_left s
  unfolding trim_left
  trim_left-space s e = rw e

  trim_left-stop :
      (s : String) → is_space (code c) ≡ false → trim_left (String.◌∷◌ c s) ≡ String.◌∷◌ c s
  unfolding trim_left
  trim_left-stop s e = rw e

  keep_left :
      (r : String)
      → is_space (code c) ≡ false
      → trim_left (keep_unless_blank c r) ≡ keep_unless_blank c r
  keep_left String.[] e = rw (e, keep_unless_blank) (trim_left-stop "" e)
  keep_left (String.◌∷◌ d r) e = trim_left-stop (String.◌∷◌ d r) e

trim_right_idem : (s : String) → trim_right (trim_right s) ≡ trim_right s
unfolding trim_right
trim_right_idem String.[] = refl
trim_right_idem (String.◌∷◌ c s) = keep_right c (trim_right s) (trim_right_idem s)

left_right : (s : String) → trim_left (trim_right (trim_left s)) ≡ trim_right (trim_left s)
left_right String.[] = unfold trim_left trim_right in refl
left_right (String.◌∷◌ c s) = elim (Bool-cases (is_space (code c))) [
  | inl e ↦ rw (trim_left-space c s e) (left_right s)
  | inr e ↦ rw (trim_left-stop c s e) (unfold trim_right in keep_left c (trim_right s) e)
]

-- Trimming a trimmed text changes nothing.
pub trim_space_idem : (s : String) → trim_space (trim_space s) ≡ trim_space s
trim_space_idem s =
    unfold trim_space in ap trim_right (left_right s) ∙ trim_right_idem (trim_left s)
