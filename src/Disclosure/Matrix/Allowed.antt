-- ===== src/Disclosure/Matrix/Allowed.antt =====
-- Which templates pass the validation, against the table of the allowed combinations.
use cobo_iam_services.Base.{
  String, ◌≡◌, ◌≢◌, ◌↔◌, refl, ap, sym, ◌∙◌, subst, Bool, true, false, not, ◌&&◌, ◌||◌, List, [],
  ◌∷◌, ◌==◌, arith, eq_iff, is_empty, In, here, there, Bool-cases, inl, inr, if◌then◌else◌,
  ne_of_eq-false,
}
use cobo_iam_services.Base.Results.{Result, Error, ok, err}
use cobo_iam_services.Dict.{Dict, insert}
use cobo_iam_services.Disclosure.Types.{Template}
use cobo_iam_services.Disclosure.Blocks.{FieldErrors, Library}
use cobo_iam_services.Disclosure.Matrix.{when, normalized, required_fields, matrix_fields}
use cobo_iam_services.Disclosure.Matrix.Rules.{
  validate_template_matrix, validate_template_blocks, trimmed_blocks,
}

-- The rows of the table: category, periodicity and deadline strategy.
pub data IsAllowed (category periodicity strategy : String) : Type 0 where
  periodic :
      category ≡ "periodic"
      → In periodicity ("monthly" ∷ "quarterly" ∷ "yearly" ∷ [])
      → strategy ≡ "fixed_cycle_days"
      → IsAllowed category periodicity strategy
  irregular :
      category ≡ "irregular"
      → periodicity ≡ "event_based"
      → strategy ≡ "event_relative_hours"
      → IsAllowed category periodicity strategy
  custom :
      category ≡ "custom"
      → In periodicity ("monthly" ∷ "quarterly" ∷ "yearly" ∷ "ad_hoc" ∷ [])
      → strategy ≡ "configurable"
      → IsAllowed category periodicity strategy

abbrev one_of : String → List String → Bool
one_of s [] = false
one_of s (x ∷ xs) = s == x || one_of s xs

one_of-In : (s : String) (xs : List String) → one_of s xs ≡ true → In s xs
one_of-In s [] h = cc
one_of-In s (x ∷ xs) h = elim (Bool-cases (s == x)) [
  | inl same ↦ subst (λ y. In s (y ∷ xs)) ((eq_iff s x).0 same) here
  | inr other ↦ there (one_of-In s xs (ground (arith, h, other)))
]

In-one_of : (s : String) (xs : List String) → In s xs → one_of s xs ≡ true
In-one_of s _ (here {xs = xs}) = ground (arith, eq_iff s s)
In-one_of s _ (there {y = x} {xs = xs} m) = ground (arith, In-one_of s xs m)

insert-is_empty : (k v : String) (m : Dict String) → is_empty (insert k v m) ≡ false
unfolding insert
insert-is_empty k v [] = refl
insert-is_empty k v ((j, w) ∷ m) = elim (Bool-cases (j == k)) [
  | inl same ↦ rw same refl
  | inr other ↦ rw other refl
]

when-is_empty :
    (b : Bool) (at message : String) (errors : FieldErrors)
    → is_empty (when b at message errors) ≡ (not b && is_empty errors)
when-is_empty true at message errors = insert-is_empty at message errors
when-is_empty false at message errors = refl

required-is_empty :
    (t : Template)
    → is_empty (required_fields t []) ≡ (
        not (t.deadline_strategy == "")
        && (not (t.deadline_rule == "") && (not (t.template_category == "") && true)))
unfolding required_fields
required-is_empty t = simp when-is_empty

when_twice :
    (b c : Bool) (at at' message message' : String) (errors : FieldErrors)
    → is_empty (when b at message (when c at' message' errors))
      ≡ (not b && (not c && is_empty errors))
when_twice b c at at' message message' errors = simp when-is_empty

-- The switch on the category, as a test.
abbrev row : Template → Bool
row t =
    if t.template_category == "periodic"
    then t.deadline_strategy == "fixed_cycle_days"
      && one_of t.periodicity ("monthly" ∷ "quarterly" ∷ "yearly" ∷ [])
    else if t.template_category == "irregular"
    then t.deadline_strategy == "event_relative_hours" && t.periodicity == "event_based"
    else if t.template_category == "custom"
    then t.deadline_strategy == "configurable"
      && one_of t.periodicity ("monthly" ∷ "quarterly" ∷ "yearly" ∷ "ad_hoc" ∷ [])
    else t.template_category == ""

matrix-is_empty :
    (t : Template) (errors : FieldErrors)
    → is_empty (matrix_fields t errors) ≡ (row t && is_empty errors)
unfolding matrix_fields
matrix-is_empty t errors = elim (Bool-cases (t.template_category == "periodic")) [
  | inl a ↦ rw (a, when_twice) (ground arith)
  | inr a ↦ elim (Bool-cases (t.template_category == "irregular")) [
    | inl b ↦ rw (a, b, when_twice) (ground arith)
    | inr b ↦ elim (Bool-cases (t.template_category == "custom")) [
      | inl c ↦ rw (a, b, c, when_twice) (ground arith)
      | inr c ↦ rw (a, b, c, when-is_empty) (ground arith)
    ]
  ]
]

and_true : {b c : Bool} → (b && c) ≡ true → (b ≡ true) × (c ≡ true)
and_true {b = b} {c = c} h = ground (arith, h)

row-IsAllowed :
    (t : Template)
    → t.template_category ≢ ""
    → row t ≡ true
    → IsAllowed t.template_category t.periodicity t.deadline_strategy
row-IsAllowed t named h = elim (Bool-cases (t.template_category == "periodic")) [
  | inl a ↦
      let both = and_true (rw a at h) in
      periodic ((eq_iff t.template_category _).0 a) (one_of-In t.periodicity _ both.1)
        ((eq_iff t.deadline_strategy _).0 both.0)
  | inr a ↦ elim (Bool-cases (t.template_category == "irregular")) [
    | inl b ↦
        let both = and_true (rw (a, b) at h) in
        irregular ((eq_iff t.template_category _).0 b) ((eq_iff t.periodicity _).0 both.1)
          ((eq_iff t.deadline_strategy _).0 both.0)
    | inr b ↦ elim (Bool-cases (t.template_category == "custom")) [
      | inl c ↦
          let both = and_true (rw (a, b, c) at h) in
          custom ((eq_iff t.template_category _).0 c) (one_of-In t.periodicity _ both.1)
            ((eq_iff t.deadline_strategy _).0 both.0)
      | inr c ↦ elim (named ((eq_iff t.template_category "").0 (rw (a, b, c) at h))) [ ]
    ]
  ]
]

differs : {s : String} (t : String) → s ≡ t → (t == "") ≡ false → s ≢ ""
differs {s = s} t is h e = cc (h, (eq_iff t "").1 (sym is ∙ e))

IsAllowed-row :
    (t : Template)
    → IsAllowed t.template_category t.periodicity t.deadline_strategy
    → (row t ≡ true) × (t.template_category ≢ "") × (t.deadline_strategy ≢ "")
IsAllowed-row t (periodic c p d) = (
  rw (row, c, d, In-one_of t.periodicity _ p) refl,
  differs "periodic" c refl,
  differs "fixed_cycle_days" d refl,
)
IsAllowed-row t (irregular c p d) =
    (rw (row, c, p, d) refl, differs "irregular" c refl, differs "event_relative_hours" d refl)
IsAllowed-row t (custom c p d) = (
  rw (row, c, d, In-one_of t.periodicity _ p) refl,
  differs "custom" c refl,
  differs "configurable" d refl,
)

three :
    {b c d : Bool}
    → (not b && (not c && (not d && true))) ≡ true
    → (b ≡ false) × (c ≡ false) × (d ≡ false)
three {b = b} {c = c} {d = d} h = ground (arith, h)

three_back :
    {b c d : Bool}
    → b ≡ false
    → c ≡ false
    → d ≡ false
    → (not b && (not c && (not d && true))) ≡ true
three_back p q r = rw (p, q, r) refl

eq_false : (s t : String) → s ≢ t → (s == t) ≡ false
eq_false s t n = ground (arith, eq_iff s t, n)

-- The fields other than the blocks are right exactly for the rows of the table.
fields_iff :
    (t : Template)
    → (is_empty (matrix_fields t (required_fields t [])) ≡ true)
      ↔ ((t.deadline_rule ≢ "") × IsAllowed t.template_category t.periodicity t.deadline_strategy)
fields_iff t = (
  λ h.
      let (matched, rest) = and_true (sym (matrix-is_empty t (required_fields t [])) ∙ h) in
      let (planned, ruled, named) = three (sym (required-is_empty t) ∙ rest) in
      (ne_of_eq-false ruled, row-IsAllowed t (ne_of_eq-false named) matched),
  λ (ruled, allowed).
      let (matched, named, planned) = IsAllowed-row t allowed in
      let required =
        required-is_empty t
        ∙ three_back (eq_false t.deadline_strategy "" planned) (eq_false t.deadline_rule "" ruled)
            (eq_false t.template_category "" named) in
      matrix-is_empty t (required_fields t []) ∙ rw (matched, required) refl,
)

ok_inj : {x y : Template} → Path (Result Template) (ok x) (ok y) → x ≡ y
ok_inj h = cc

gate-ok :
    (p q : Bool) (x : Template) (d e : Error) {y : Template}
    → (if p then (if q then ok x else err d) else err e) ≡ ok y
    → (p ≡ true) × (q ≡ true) × (x ≡ y)
gate-ok false q x d e h = cc
gate-ok true false x d e h = cc
gate-ok true true x d e h = (refl, refl, ok_inj h)

is_empty-nil : (errors : FieldErrors) → is_empty errors ≡ true → errors ≡ []
is_empty-nil [] h = refl
is_empty-nil (e ∷ errors) h = cc

-- A template is accepted exactly where it has a rule for the deadline, its normalised category,
-- periodicity and strategy are a row of the table, and its trimmed blocks have no errors; it is then
-- returned with these names and blocks, and with nothing else changed.
pub validate_template_matrix_iff :
    (library : Library) (t t' : Template)
    → (validate_template_matrix library t ≡ ok t') ↔ (
        (t.deadline_rule ≢ "")
        × IsAllowed
            (normalized t).template_category
            (normalized t).periodicity
            (normalized t).deadline_strategy
        × (validate_template_blocks library (trimmed_blocks t.blocks) ≡ [])
        × (t' ≡ record (normalized t) { blocks = trimmed_blocks t.blocks }))
unfolding validate_template_matrix normalized
validate_template_matrix_iff library t t' = (
  λ h.
      let (right, clean, is) = gate-ok _ _ _ _ _ h in
      let (ruled, allowed) = (fields_iff (normalized t)).0 right in
      (ruled, allowed, is_empty-nil _ clean, sym is),
  λ (ruled, allowed, clean, is).
      rw ((fields_iff (normalized t)).1 (ruled, allowed), clean) (ap ok (sym is)),
)
