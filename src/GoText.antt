-- ===== src/GoText.antt =====
-- The functions of Go's `strings` package that the program calls, over native texts.
-- Case mapping covers ASCII, Latin-1, Latin Extended-A, the horned vowels and Latin Extended
-- Additional, which hold the Vietnamese alphabet; letters of other scripts map to themselves.
pub mod Laws
pub mod Compare
mod Tests
use Prim.Native.Nat.{compare, Ordering}
use Prim.Native.Char.{Char, char, code, nul, IsLt}
use Prim.Native.String.{len}
use text.Mathlib.Text.{find?, starts_with as native_starts_with}
use cobo_iam_services.Base.{
  ℕ, ◌+◌, ◌%◌, String, ◌<>◌, Bool, true, false, not, ◌&&◌, ◌||◌, none, some, List, [], ◌∷◌, ◌==◌,
  leb, eqb, ltb, if◌then◌else◌, zero, suc, ◌/◌, ◌<◌, ◌≡◌, refl, arith, Bool-cases, inl, inr,
}

-- `unicode.IsSpace`
unfoldable pub is_space : ℕ → Bool
is_space c =
    leb 9 c && leb c 13
    || eqb c 32
    || eqb c 0x85
    || eqb c 0xA0
    || eqb c 0x1680
    || leb 0x2000 c && leb c 0x200A
    || eqb c 0x2028
    || eqb c 0x2029
    || eqb c 0x202F
    || eqb c 0x205F
    || eqb c 0x3000

abbrev between : ℕ → ℕ → ℕ → Bool
between lo hi c = leb lo c && leb c hi

abbrev is_even : ℕ → Bool
is_even c = eqb (c % 2) 0

-- blocks where an upper case letter stands at an even number, before its lower case
abbrev even_pairs : ℕ → Bool
even_pairs c =
    between 0x100 0x12F c
    || between 0x132 0x137 c
    || between 0x14A 0x177 c
    || eqb c 0x1A0
    || between 0x1E00 0x1E95 c
    || between 0x1EA0 0x1EFF c

-- blocks where it stands at an odd number
abbrev odd_pairs : ℕ → Bool
odd_pairs c = between 0x139 0x148 c || between 0x179 0x17E c || eqb c 0x1AF

-- `unicode.ToLower` on the blocks named above
unfoldable pub lower_rune : ℕ → ℕ
lower_rune c =
    if between b'A' b'Z' c || between 0xC0 0xDE c && not (eqb c 0xD7)
    then c + 32
    else if eqb c 0x130
    then b'i'
    else if eqb c 0x178
    then 0xFF
    else if eqb c 0x1E9E
    then 0xDF
    else if eqb c 0x212A
    then b'k'
    else if eqb c 0x212B
    then 0xE5
    else if even_pairs c && is_even c || odd_pairs c && not (is_even c)
    then c + 1
    else c

-- `IsScalar` of three comparisons, in the clauses that the built-in module has.
abbrev BothLess : Ordering → Ordering → Type 0
BothLess Ordering.lt o = IsLt o
BothLess Ordering.eq _ = ⊥
BothLess Ordering.gt _ = ⊥

abbrev Scalar : Ordering → Ordering → Ordering → Type 0
Scalar Ordering.lt _ _ = Unit
Scalar Ordering.eq o p = BothLess o p
Scalar Ordering.gt o p = BothLess o p

abbrev pick : (a b c : Ordering) → (Scalar a b c → Char) → Char
pick Ordering.lt b c build = build tt
pick Ordering.eq Ordering.lt Ordering.lt build = build tt
pick Ordering.gt Ordering.lt Ordering.lt build = build tt
pick _ _ _ build = nul

-- the character with a number, U+0000 where the number is no Scalar value
unfoldable pub of_code : ℕ → Char
of_code n = pick (compare n 55296) (compare 57343 n) (compare n 1114112) (char n)

-- `strings.ToLower`
unfoldable pub to_lower : String → String
unfolding lower_rune of_code
to_lower String.[] = ""
to_lower (String.◌∷◌ c s) = String.◌∷◌ (of_code (lower_rune (code c))) (to_lower s)

-- `unicode.SimpleFold`, where it differs from `ToLower`: the long s is an s, the dotted capital I
-- folds with no other letter, and the long s with a dot is an s with a dot.
unfoldable pub fold_rune : ℕ → ℕ
unfolding lower_rune
fold_rune r =
    if eqb r 0x17F
    then b's'
    else if eqb r 0x130
    then 0x130
    else if eqb r 0x1E9B
    then 0x1E61
    else lower_rune r

unfoldable pub fold : String → String
unfolding fold_rune of_code
fold String.[] = ""
fold (String.◌∷◌ c s) = String.◌∷◌ (of_code (fold_rune (code c))) (fold s)

-- `strings.EqualFold`
unfoldable pub equal_fold : String → String → Bool
unfolding fold
equal_fold s t = fold s == fold t

unfoldable pub trim_left : String → String
trim_left String.[] = ""
trim_left (String.◌∷◌ c s) =
    let rest = trim_left s in if is_space (code c) then rest else String.◌∷◌ c s

-- a character before a text whose end is trimmed
abbrev keep_unless_blank : Char → String → String
keep_unless_blank c String.[] = if is_space (code c) then "" else String.◌∷◌ c ""
keep_unless_blank c (String.◌∷◌ d s) = String.◌∷◌ c (String.◌∷◌ d s)

unfoldable pub trim_right : String → String
trim_right String.[] = ""
trim_right (String.◌∷◌ c s) = keep_unless_blank c (trim_right s)

-- `strings.TrimSpace`
unfoldable pub trim_space : String → String
unfolding trim_left trim_right
trim_space s = trim_right (trim_left s)

-- `strings.TrimSpace(s) == ""`, the test that most handlers begin with
abbrev pub is_blank : String → Bool
is_blank s = trim_space s == ""

abbrev pub cons_first : Char → List String → List String
cons_first c [] = String.◌∷◌ c "" ∷ []
cons_first c (p ∷ ps) = String.◌∷◌ c p ∷ ps

-- `strings.Split(s, sep)` for a separator of one character
unfoldable pub split : ℕ → String → List String
split sep String.[] = "" ∷ []
split sep (String.◌∷◌ c s) =
    let rest = split sep s in if eqb (code c) sep then "" ∷ rest else cons_first c rest

-- `strings.Contains`, `strings.HasPrefix`
abbrev pub contains : String → String → Bool
contains s t = elim (find? s t) [ none ↦ false | some _ ↦ true ]

abbrev pub has_prefix : String → String → Bool
has_prefix s t = native_starts_with s t

-- `strings.Join`
unfoldable pub join : String → List String → String
join sep [] = ""
join sep (p ∷ []) = p
join sep (p ∷ (q ∷ ps)) = p <> sep <> join sep (q ∷ ps)

-- `len` of a text counts bytes
abbrev pub byte_length : String → ℕ
byte_length s = len s

-- `strconv.Itoa` of a number that is not negative: its digits, last first, with fuel
unfoldable pub digits : ℕ → ℕ → String → String
unfolding of_code
digits zero n acc = acc
digits (suc fuel) n acc =
    let longer = String.◌∷◌ (of_code (b'0' + n % 10)) acc in
    let rest = digits fuel (n / 10) longer in if ltb n 10 then longer else rest

-- More than `n` rounds are enough.
unfoldable pub itoa : ℕ → String
itoa n = digits (suc n) n ""

digits_enough : (f g n : ℕ) (acc : String) → n < f → n < g → digits f n acc ≡ digits g n acc
unfolding digits
digits_enough zero g n acc p q = elim p [ ]
digits_enough (suc f) zero n acc p q = elim q [ ]
digits_enough (suc f) (suc g) n acc p q = elim (Bool-cases (ltb n 10)) [
  | inl small ↦ rw small refl
  | inr large ↦ rw large (
      digits_enough f g (n / 10) (String.◌∷◌ (of_code (b'0' + n % 10)) acc) (ground arith)
        (ground arith))
]
