-- ===== src/Disclosure/Sanitize/Distinct.antt =====
-- The texts that `sanitizeStringList` keeps.
use cobo_iam_services.Base.{
  String, ◌≡◌, ◌≢◌, ◌↔◌, ◌⊎◌, inl, inr, refl, ap, sym, ◌∙◌, subst, true, false, List, [], ◌∷◌, ◌==◌,
  arith, eq_iff, Bool-cases, In, here, there, ne_of_eq-false,
}
use cobo_iam_services.GoText.{trim_space}
use cobo_iam_services.GoText.Laws.{trim_space_idem}
use cobo_iam_services.Disclosure.Sanitize.{has_seen, distinct_from, sanitize_string_list}

-- No text stands in the list twice.
unfoldable pub IsDistinct : List String → Type 0
IsDistinct [] = Unit
IsDistinct (x ∷ xs) = (In x xs → ⊥) × IsDistinct xs

-- Some item of the list is `t` after trimming.
pub data Trims (t : String) : List String → Type 0 where
  first : {item : String} {items : List String} → trim_space item ≡ t → Trims t (item ∷ items)
  later : {item : String} {items : List String} → Trims t items → Trims t (item ∷ items)

has_seen-In : (s : String) (seen : List String) → has_seen s seen ≡ true → In s seen
unfolding has_seen
has_seen-In s [] h = cc
has_seen-In s (t ∷ seen) h = elim (Bool-cases (t == s)) [
  | inl same ↦ subst (λ x. In s (x ∷ seen)) (sym ((eq_iff t s).0 same)) here
  | inr other ↦ there (has_seen-In s seen (ground (arith, other, h)))
]

In-has_seen : {s : String} {seen : List String} → In s seen → has_seen s seen ≡ true
unfolding has_seen
In-has_seen {s = s} here = ground (arith, eq_iff s s)
In-has_seen (there m) = ground (arith, In-has_seen m)

-- What one round of the loop does.
distinct_from-blank :
    (seen : List String) (item : String) (items : List String)
    → (trim_space item == "") ≡ true
    → distinct_from seen (item ∷ items) ≡ distinct_from seen items
unfolding distinct_from
distinct_from-blank seen item items b = rw b refl

distinct_from-again :
    (seen : List String) (item : String) (items : List String)
    → has_seen (trim_space item) seen ≡ true
    → distinct_from seen (item ∷ items) ≡ distinct_from seen items
unfolding distinct_from
distinct_from-again seen item items h = elim (Bool-cases (trim_space item == "")) [
  | inl b ↦ rw b refl
  | inr b ↦ rw (b, h) refl
]

distinct_from-new :
    (seen : List String) (item : String) (items : List String)
    → (trim_space item == "") ≡ false
    → has_seen (trim_space item) seen ≡ false
    → distinct_from seen (item ∷ items)
      ≡ trim_space item ∷ distinct_from (trim_space item ∷ seen) items
unfolding distinct_from
distinct_from-new seen item items b h = rw (b, h) refl

-- A round passes its item over, which is blank or was seen, or keeps it.
data Round (seen : List String) (item : String) (items : List String) : Type 0 where
  passes :
      (trim_space item ≡ "") ⊎ In (trim_space item) seen
      → distinct_from seen (item ∷ items) ≡ distinct_from seen items
      → Round seen item items
  keeps :
      trim_space item ≢ ""
      → (In (trim_space item) seen → ⊥)
      → distinct_from seen (item ∷ items)
        ≡ trim_space item ∷ distinct_from (trim_space item ∷ seen) items
      → Round seen item items

Round-cases : (seen : List String) (item : String) (items : List String) → Round seen item items
Round-cases seen item items = elim (Bool-cases (trim_space item == "")) [
  | inl b ↦ passes (inl ((eq_iff (trim_space item) "").0 b)) (distinct_from-blank seen item items b)
  | inr b ↦ elim (Bool-cases (has_seen (trim_space item) seen)) [
    | inl h ↦
        passes (inr (has_seen-In (trim_space item) seen h)) (distinct_from-again seen item items h)
    | inr h ↦
        keeps (ne_of_eq-false b) (λ m. cc (In-has_seen m, h))
          (distinct_from-new seen item items b h)
  ]
]

In-cons : {s t : String} {l : List String} → In s (t ∷ l) → (s ≡ t) ⊎ In s l
In-cons here = inl refl
In-cons (there m) = inr m

In-head : {s t : String} {l : List String} → s ≡ t → In s (t ∷ l)
In-head {s = s} {l = l} e = subst (λ x. In s (x ∷ l)) e here

-- What is kept is not blank, was not seen, and is an item after trimming.
In-distinct_from :
    (t : String) (seen items : List String)
    → In t (distinct_from seen items)
    → (t ≢ "") × (In t seen → ⊥) × Trims t items
unfolding distinct_from
In-distinct_from t seen [] m = elim m [ ]
In-distinct_from t seen (item ∷ items) m = elim (Round-cases seen item items) [
  | passes why same ↦
      let (a, b, c) = In-distinct_from t seen items (subst (λ l. In t l) same m) in (a, b, later c)
  | keeps named fresh same ↦ elim (In-cons (subst (λ l. In t l) same m)) [
    | inl e ↦ (λ z. named (sym e ∙ z), λ z. fresh (subst (λ x. In x seen) e z), first (sym e))
    | inr n ↦
        let (a, b, c) = In-distinct_from t (trim_space item ∷ seen) items n in
        (a, λ z. b (there z), later c)
  ]
]

-- Every item that is not blank is kept, or was seen.
distinct_from-In :
    (t : String) (seen items : List String)
    → t ≢ ""
    → Trims t items
    → In t seen ⊎ In t (distinct_from seen items)
distinct_from-In t seen [] named m = elim m [ ]
distinct_from-In t seen (item ∷ items) named (first e) = elim (Round-cases seen item items) [
  | passes (inl blank) same ↦ elim (named (sym e ∙ blank)) [ ]
  | passes (inr again) same ↦ inl (subst (λ x. In x seen) e again)
  | keeps filled fresh same ↦ inr (subst (λ l. In t l) (sym same) (In-head (sym e)))
]
distinct_from-In t seen (item ∷ items) named (later m) = elim (Round-cases seen item items) [
  | passes why same ↦ elim (distinct_from-In t seen items named m) [
    | inl old ↦ inl old
    | inr n ↦ inr (subst (λ l. In t l) (sym same) n)
  ]
  | keeps filled fresh same ↦ elim (distinct_from-In t (trim_space item ∷ seen) items named m) [
    | inl old ↦ elim (In-cons old) [
      | inl e ↦ inr (subst (λ l. In t l) (sym same) (In-head e))
      | inr before ↦ inl before
    ]
    | inr n ↦ inr (subst (λ l. In t l) (sym same) (there n))
  ]
]

distinct_from-IsDistinct : (seen items : List String) → IsDistinct (distinct_from seen items)
unfolding distinct_from IsDistinct
distinct_from-IsDistinct seen [] = tt
distinct_from-IsDistinct seen (item ∷ items) = elim (Round-cases seen item items) [
  | passes why same ↦ subst (λ l. IsDistinct l) (sym same) (distinct_from-IsDistinct seen items)
  | keeps named fresh same ↦
      subst (λ l. IsDistinct l) (sym same)
        (
          λ m.
              let (a, b, c) = In-distinct_from (trim_space item) (trim_space item ∷ seen) items m in
              b here,
          distinct_from-IsDistinct (trim_space item ∷ seen) items,
        )
]

Trims-trimmed : {t : String} {items : List String} → Trims t items → trim_space t ≡ t
Trims-trimmed (first {item = item} e) = subst (λ x. trim_space x ≡ x) e (trim_space_idem item)
Trims-trimmed (later m) = Trims-trimmed m

-- A list of trimmed, filled, distinct texts that were not seen is kept as it is.
distinct_from-same :
    (seen items : List String)
    → ((t : String) → In t items → (t ≢ "") × (In t seen → ⊥) × (trim_space t ≡ t))
    → IsDistinct items
    → distinct_from seen items ≡ items
unfolding distinct_from IsDistinct
distinct_from-same seen [] clean distinct = refl
distinct_from-same seen (item ∷ items) clean (fresh, rest) =
    let (named, unseen, trimmed) = clean item here in
    elim (Round-cases seen item items) [
      | passes (inl blank) same ↦ elim (named (sym trimmed ∙ blank)) [ ]
      | passes (inr again) same ↦ elim (unseen (subst (λ x. In x seen) trimmed again)) [ ]
      | keeps filled new same ↦
          same
          ∙ subst (λ x. x ∷ distinct_from (x ∷ seen) items ≡ item ∷ items) (sym trimmed)
              (ap (λ l. item ∷ l) (distinct_from-same (item ∷ seen) items below rest))
    ]
  where
    below : (t : String) → In t items → (t ≢ "") × (In t (item ∷ seen) → ⊥) × (trim_space t ≡ t)
    below t m =
        let (named, unseen, trimmed) = clean t (there m) in
        (
          named,
          λ old. elim (In-cons old) [
            | inl e ↦ fresh (subst (λ x. In x items) e m)
            | inr before ↦ unseen before
          ],
          trimmed,
        )

-- The list after clean-up holds exactly the texts that are an item after trimming and not blank,
-- each once; and another clean-up changes nothing.
pub sanitize_string_list_lem :
    (items : List String)
    → ((t : String) → In t (sanitize_string_list items) ↔ ((t ≢ "") × Trims t items))
      × IsDistinct (sanitize_string_list items)
      × (sanitize_string_list (sanitize_string_list items) ≡ sanitize_string_list items)
unfolding sanitize_string_list
sanitize_string_list_lem items = (
  λ t. (
    λ m. let (named, unseen, origin) = In-distinct_from t [] items m in (named, origin),
    λ (named, origin). elim (distinct_from-In t [] items named origin) [
      | inl old ↦ elim old [ ]
      | inr m ↦ m
    ],
  ),
  distinct_from-IsDistinct [] items,
  distinct_from-same [] (distinct_from [] items)
      (λ t m.
        let (named, unseen, origin) = In-distinct_from t [] items m in
        (named, unseen, Trims-trimmed origin))
      (distinct_from-IsDistinct [] items),
)
