-- ===== src/Disclosure/Catalog/Active.antt =====
-- Each type has one active version at most, and that is the version that the catalog shows.
pub mod Calls
pub mod Runs
use cobo_iam_services.Base.{
  ℕ, zero, suc, ◌+◌, ◌≤◌, String, ◌≡◌, ◌≢◌, ◌⊎◌, inl, inr, refl, ap, sym, ◌∙◌, subst, Bool, true,
  false, Option, none, some, List, [], ◌∷◌, ◌++◌, ◌==◌, eqb, arith, eq_iff, if◌then◌else◌,
  Bool-cases, Option-cases, ne_of_eq-false, All,
}
use cobo_iam_services.Dict.{Dict, lookup, insert, get_or, lookup-insert_same, lookup-insert_other}
use cobo_iam_services.Disclosure.Types.{
  DisclosureTypeDto, UpsertTypeVersionRequest, DisclosureTypeVersionDto, ActivateTypeVersionRequest,
}
use cobo_iam_services.Disclosure.Catalog.{State, at_version, put_version}
use cobo_iam_services.Disclosure.Catalog.Versions.{
  deactivated, last_index, activate_at, activated, next_entry,
}

-- how many versions are active
unfoldable pub active_count : List DisclosureTypeVersionDto → ℕ
active_count [] = 0
active_count (v ∷ vs) = (if v.is_active then 1 else 0) + active_count vs

-- At most one version is active, and an active one has the number `n`.
unfoldable pub IsActiveAs : ℕ → List DisclosureTypeVersionDto → Type 0
unfolding active_count
IsActiveAs n vs =
    (active_count vs ≤ 1)
    × All (λ (v : DisclosureTypeVersionDto). v.is_active ≡ true → v.version_no ≡ n) vs

-- The catalog shows the active version, and the snapshot of a version has its number.
pub record IsConsistent (s : State) : Type 0 where
  pub shown :
      (type_id : String) (item : DisclosureTypeDto)
      → lookup type_id s.catalog ≡ some item
      → IsActiveAs item.version_no (get_or [] type_id s.versions)
  pub snapshots :
      (type_id : String) (n : ℕ) (item : DisclosureTypeDto)
      → at_version n (get_or [] type_id s.catalog_by_ver) ≡ some item
      → item.version_no ≡ n

deactivated-inactive :
    (n : ℕ) (vs : List DisclosureTypeVersionDto)
    → (active_count (deactivated vs) ≡ 0)
      × All
          (λ (v : DisclosureTypeVersionDto). v.is_active ≡ true → v.version_no ≡ n)
          (deactivated vs)
unfolding active_count deactivated
deactivated-inactive n [] = (refl, tt)
deactivated-inactive n (v ∷ vs) =
    let (none_active, rest) = deactivated-inactive n vs in
    (omega (arith, none_active), (λ (h : Path Bool false true). cc, rest))

pub deactivated-IsActiveAs :
    (n : ℕ) (vs : List DisclosureTypeVersionDto) → IsActiveAs n (deactivated vs)
unfolding IsActiveAs
deactivated-IsActiveAs n vs =
    let (none_active, rest) = deactivated-inactive n vs in (omega (arith, none_active), rest)

-- A new version after the others have been switched off is the active one.
pub appended-IsActiveAs :
    (v : DisclosureTypeVersionDto) (vs : List DisclosureTypeVersionDto)
    → v.is_active ≡ true
    → IsActiveAs v.version_no (deactivated vs ++ v ∷ [])
      × (active_count (deactivated vs ++ v ∷ []) ≡ 1)
unfolding IsActiveAs active_count deactivated
appended-IsActiveAs v [] on = ((rw on (omega arith), ((λ h. refl), tt)), rw on refl)
appended-IsActiveAs v (w ∷ vs) on =
    let ((few, rest), one) = appended-IsActiveAs v vs on in
    ((omega (arith, few), ((λ (h : Path Bool false true). cc), rest)), omega (arith, one))

-- The version at a place has the number `n`.
pub Numbered : ℕ → ℕ → List DisclosureTypeVersionDto → Type 0
Numbered n i [] = ⊥
Numbered n zero (v ∷ vs) = v.version_no ≡ n
Numbered n (suc i) (v ∷ vs) = Numbered n i vs

pub last_index-Numbered :
    (n i j : ℕ) (vs : List DisclosureTypeVersionDto)
    → last_index n i vs ≡ some j
    → (d : ℕ) × (j ≡ i + d) × Numbered n d vs
unfolding last_index Numbered
last_index-Numbered n i j [] h = cc
last_index-Numbered n i j (v ∷ vs) h = elim (Option-cases (last_index n (suc i) vs)) [
  | inr (k, later) ↦
      let (d, at, numbered) = last_index-Numbered n (suc i) k vs later in
      let same : k ≡ j = some_inj (rw later at h) in (suc d, omega (arith, at, same), numbered)
  | inl last ↦ elim (Bool-cases (eqb v.version_no n)) [
    | inl here ↦
        let same : i ≡ j = some_inj (rw (last, here) at h) in
        (zero, omega (arith, same), ground (arith, here))
    | inr other ↦ elim (none_some (rw (last, other) at h)) [ ]
  ]
]
  where
    some_inj : {a b : ℕ} → Path (Option ℕ) (some a) (some b) → a ≡ b
    some_inj e = cc

    none_some : {a : ℕ} → Path (Option ℕ) none (some a) → ⊥
    none_some e = cc

pub activate_at-IsActiveAs :
    (req : ActivateTypeVersionRequest) (now n i : ℕ) (vs : List DisclosureTypeVersionDto)
    → Numbered n i vs
    → IsActiveAs n (activate_at req now i (deactivated vs))
      × (active_count (activate_at req now i (deactivated vs)) ≡ 1)
unfolding IsActiveAs active_count deactivated activate_at Numbered
activate_at-IsActiveAs req now n i [] numbered = elim numbered [ ]
activate_at-IsActiveAs req now n zero (v ∷ vs) numbered =
    let (none_active, rest) = deactivated-inactive n vs in
    ((omega (arith, none_active), ((λ h. numbered), rest)), omega (arith, none_active))
activate_at-IsActiveAs req now n (suc i) (v ∷ vs) numbered =
    let ((few, rest), one) = activate_at-IsActiveAs req now n i vs numbered in
    ((omega (arith, few), ((λ (h : Path Bool false true). cc), rest)), omega (arith, one))
