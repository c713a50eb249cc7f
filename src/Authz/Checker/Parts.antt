-- ===== src/Authz/Checker/Parts.antt =====
-- The parts of a list that a policy writes as a text, stated without `splitOrStar`: what stands
-- between the bars, trimmed, without the blank ones; and a blank text or a star is a star.
use Prim.Native.Char.{Char, code}
use cobo_iam_services.Base.{
  String, ◌≡◌, ◌≢◌, ◌⊎◌, inl, inr, refl, ap, ◌∙◌, true, false, List, [], ◌∷◌, ◌==◌, ◌||◌, eqb,
  arith, eq_iff, Bool-cases, ne_of_eq-false,
}
use cobo_iam_services.GoText.{trim_space, to_lower, split, cons_first}
use cobo_iam_services.Authz.Checker.{split_or_star, drop_blank}

-- The pieces of a text between its bars.
pub data Cuts : String → List String → Type 0 where
  ends : Cuts "" ("" ∷ [])
  at_bar :
      {c : Char} {s : String} {pieces : List String}
      → code c ≡ b'|'
      → Cuts s pieces
      → Cuts (String.◌∷◌ c s) ("" ∷ pieces)
  inside :
      {c : Char} {s p : String} {pieces : List String}
      → code c ≢ b'|'
      → Cuts s (p ∷ pieces)
      → Cuts (String.◌∷◌ c s) (String.◌∷◌ c p ∷ pieces)

-- The pieces that are not blank, trimmed.
pub data Filled : List String → List String → Type 0 where
  none_left : Filled [] []
  drops :
      {p : String} {raw parts : List String}
      → trim_space p ≡ ""
      → Filled raw parts
      → Filled (p ∷ raw) parts
  keeps :
      {p : String} {raw parts : List String}
      → trim_space p ≢ ""
      → Filled raw parts
      → Filled (p ∷ raw) (trim_space p ∷ parts)

-- A text that asks for nothing in particular.
abbrev pub IsOpen : String → Type 0
IsOpen s = (s ≡ "") ⊎ (s ≡ "*")

pub data Parts (raw : String) : List String → Type 0 where
  anything : IsOpen (trim_space (to_lower raw)) → Parts raw ("*" ∷ [])
  listed :
      {pieces parts : List String}
      → ¬ IsOpen (trim_space (to_lower raw))
      → Cuts (trim_space (to_lower raw)) pieces
      → Filled pieces parts
      → Parts raw parts

first-Cuts :
    (c : Char) (s : String) (pieces : List String)
    → code c ≢ b'|'
    → Cuts s pieces
    → Cuts (String.◌∷◌ c s) (cons_first c pieces)
first-Cuts c s [] n cuts = elim cuts [ ]
first-Cuts c s (p ∷ pieces) n cuts = inside n cuts

split-Cuts : (s : String) → Cuts s (split b'|' s)
unfolding split
split-Cuts String.[] = ends
split-Cuts (String.◌∷◌ c s) = elim (Bool-cases (eqb (code c) b'|')) [
  | inl bar ↦ rw bar (at_bar (ground (arith, bar)) (split-Cuts s))
  | inr other ↦
      rw other (first-Cuts c s (split b'|' s) (λ e. ground (arith, other, e)) (split-Cuts s))
]

Cuts-split : (s : String) (pieces : List String) → Cuts s pieces → pieces ≡ split b'|' s
unfolding split
Cuts-split _ _ ends = refl
Cuts-split _ _ (at_bar {c = c} {s = s} {pieces = pieces} bar cuts) =
    let test : eqb (code c) b'|' ≡ true = ground (arith, bar) in
    rw test (ap (λ l. "" ∷ l) (Cuts-split s pieces cuts))
Cuts-split _ _ (inside {c = c} {s = s} {p = p} {pieces = pieces} n cuts) =
    let test : eqb (code c) b'|' ≡ false = ground (arith, n) in
    rw test (ap (λ l. cons_first c l) (Cuts-split s (p ∷ pieces) cuts))

drop_blank-Filled : (raw : List String) → Filled raw (drop_blank raw)
unfolding drop_blank
drop_blank-Filled [] = none_left
drop_blank-Filled (p ∷ raw) = elim (Bool-cases (trim_space p == "")) [
  | inl blank ↦ rw blank (drops ((eq_iff (trim_space p) "").0 blank) (drop_blank-Filled raw))
  | inr filled ↦ rw filled (keeps (ne_of_eq-false filled) (drop_blank-Filled raw))
]

Filled-drop_blank : (raw parts : List String) → Filled raw parts → parts ≡ drop_blank raw
unfolding drop_blank
Filled-drop_blank _ _ none_left = refl
Filled-drop_blank _ _ (drops {p = p} {raw = raw} {parts = parts} blank rest) =
    rw ((eq_iff (trim_space p) "").1 blank) (Filled-drop_blank raw parts rest)
Filled-drop_blank _ _ (keeps {p = p} {raw = raw} {parts = parts} filled rest) =
    let test : (trim_space p == "") ≡ false = ground (arith, filled, eq_iff (trim_space p) "") in
    rw test (ap (λ l. trim_space p ∷ l) (Filled-drop_blank raw parts rest))

IsOpen-sound : (s : String) → (s == "" || s == "*") ≡ true → IsOpen s
IsOpen-sound s h = elim (Bool-cases (s == "")) [
  | inl e ↦ inl ((eq_iff s "").0 e)
  | inr n ↦ inr ((eq_iff s "*").0 (rw n at h))
]

IsOpen-complete : (s : String) → IsOpen s → (s == "" || s == "*") ≡ true
IsOpen-complete s (inl e) = rw ((eq_iff s "").1 e) refl
IsOpen-complete s (inr e) = ground (arith, (eq_iff s "*").1 e)

-- `splitOrStar` returns the parts.
pub split_or_star-Parts : (raw : String) → Parts raw (split_or_star raw)
unfolding split_or_star
split_or_star-Parts raw =
    let s = trim_space (to_lower raw) in
    elim (Bool-cases (s == "" || s == "*")) [
      | inl all ↦ rw all (anything (IsOpen-sound s all))
      | inr some₁ ↦ rw some₁ (
          listed (λ o. cc (some₁, IsOpen-complete s o)) (split-Cuts s)
            (drop_blank-Filled (split b'|' s)))
    ]

pub Parts-split_or_star :
    (raw : String) (parts : List String) → Parts raw parts → parts ≡ split_or_star raw
unfolding split_or_star
Parts-split_or_star raw _ (anything all) = rw (IsOpen-complete (trim_space (to_lower raw)) all) refl
Parts-split_or_star raw parts (listed {pieces = pieces} some₁ cuts filled) =
    let s = trim_space (to_lower raw) in
    elim (Bool-cases (s == "" || s == "*")) [
      | inl all ↦ elim (some₁ (IsOpen-sound s all)) [ ]
      | inr not_all ↦
          rw not_all
            (Filled-drop_blank pieces parts filled ∙ ap drop_blank (Cuts-split s pieces cuts))
    ]
