-- ===== src/Disclosure/Catalog/Active/Calls.antt =====
-- The repository's writes, the handlers and sequences of them keep the catalog and the active
-- versions together.
use cobo_iam_services.Base.{
  ℕ, String, ◌≡◌, refl, ap, sym, ◌∙◌, subst, Option, none, some, List, [], ◌∷◌, ◌==◌, eqb, arith,
  eq_iff, if◌then◌else◌, Bool-cases, Option-cases, inl, inr, ne_of_eq-false,
}
use cobo_iam_services.Base.Preserves.{Preserves}
use cobo_iam_services.Dict.{
  lookup, insert, get_or, lookup-insert_same, lookup-insert_other, get_or-insert_same,
  get_or-insert_other,
}
use cobo_iam_services.Disclosure.Types.{
  DisclosureTypeDto, UpsertTypeVersionRequest, DisclosureTypeVersionDto, ActivateTypeVersionRequest,
}
use cobo_iam_services.Disclosure.Catalog.{State, at_version, put_version, is_foreign}
use cobo_iam_services.Disclosure.Catalog.Versions.{
  deactivated, last_index, activate_at, next_entry, next_type, next_version, upsert_type_version,
  activate_type_version, activate_found, snapshot_or,
}
use cobo_iam_services.Disclosure.Catalog.Active.{
  IsActiveAs, IsConsistent, deactivated-IsActiveAs, appended-IsActiveAs, Numbered,
  last_index-Numbered, activate_at-IsActiveAs,
}

some_inj : {x y : DisclosureTypeDto} → Path (Option DisclosureTypeDto) (some x) (some y) → x ≡ y
some_inj h = cc

-- One type is written, with versions that its number is the active one of.
shown_after :
    (s : State) (k : String) (item : DisclosureTypeDto) (vs : List DisclosureTypeVersionDto)
    → IsConsistent s
    → IsActiveAs item.version_no vs
    → (t : String) (it : DisclosureTypeDto) → lookup t (insert k item s.catalog) ≡ some it
    → IsActiveAs it.version_no (get_or [] t (insert k vs s.versions))
shown_after s k item vs consistent active t it h = elim (Bool-cases (k == t)) [
  | inl e ↦
      let same : k ≡ t = (eq_iff k t).0 e in
      let is : item ≡ it = some_inj (
        sym (lookup-insert_same k item s.catalog)
        ∙ subst (λ j. lookup j (insert k item s.catalog) ≡ some it) (sym same) h) in
      subst (λ j. IsActiveAs it.version_no (get_or [] j (insert k vs s.versions))) same
        (subst (λ l. IsActiveAs it.version_no l) (sym (get_or-insert_same [] vs k s.versions))
          (subst (λ (i : DisclosureTypeDto). IsActiveAs i.version_no vs) is active))
  | inr n ↦
      let differ = ne_of_eq-false {s = k} {t = t} n in
      subst (λ l. IsActiveAs it.version_no l)
        (sym (get_or-insert_other [] vs k t s.versions differ))
        (consistent.shown t it (sym (lookup-insert_other k t item s.catalog differ) ∙ h))
]

at-put_version :
    (n m : ℕ) (v : DisclosureTypeDto) (l : List (ℕ × DisclosureTypeDto))
    → at_version m (put_version n v l) ≡ (if eqb n m then some v else at_version m l)
unfolding at_version put_version
at-put_version n m v [] = refl
at-put_version n m v ((k, w) ∷ l) = ground (arith, at-put_version n m v l)

put-numbered :
    (n m : ℕ) (v it : DisclosureTypeDto) (l : List (ℕ × DisclosureTypeDto))
    → v.version_no ≡ n
    → (at_version m l ≡ some it → it.version_no ≡ m)
    → at_version m (put_version n v l) ≡ some it
    → it.version_no ≡ m
put-numbered n m v it l own before h = elim (Bool-cases (eqb n m)) [
  | inl e ↦
      let is : v ≡ it = some_inj (rw e at (sym (at-put_version n m v l) ∙ h)) in
      ap (λ (i : DisclosureTypeDto). i.version_no) (sym is) ∙ (own ∙ ground (arith, e))
  | inr e ↦ before (rw e at (sym (at-put_version n m v l) ∙ h))
]

snapshots_after :
    (s : State) (k : String) (n : ℕ) (item : DisclosureTypeDto)
    → IsConsistent s
    → item.version_no ≡ n
    → (t : String) (m : ℕ) (it : DisclosureTypeDto)
    → at_version m (
        get_or [] t (insert k (put_version n item (get_or [] k s.catalog_by_ver)) s.catalog_by_ver))
      ≡ some it
    → it.version_no ≡ m
snapshots_after s k n item consistent own t m it h = elim (Bool-cases (k == t)) [
  | inl e ↦
      let same : k ≡ t = (eq_iff k t).0 e in
      let old = get_or [] k s.catalog_by_ver in
      let next = insert k (put_version n item old) s.catalog_by_ver in
      put-numbered n m item it old own (consistent.snapshots k m it) (
        subst (λ l. at_version m l ≡ some it)
          (get_or-insert_same [] (put_version n item old) k s.catalog_by_ver)
          (subst (λ j. at_version m (get_or [] j next) ≡ some it) (sym same) h))
  | inr e ↦ consistent.snapshots t m it (
      subst (λ l. at_version m l ≡ some it)
        (get_or-insert_other [] _ k t s.catalog_by_ver (ne_of_eq-false e)) h)
]

pub upsert-IsConsistent :
    (now : ℕ) (req : UpsertTypeVersionRequest)
    → Preserves IsConsistent (upsert_type_version now req)
unfolding Preserves upsert_type_version next_type next_entry
upsert-IsConsistent now req s consistent =
    let n = next_version (lookup req.type_id s.catalog) in
    record {
      shown =
          shown_after s req.type_id (next_type req n) _ consistent
            (appended-IsActiveAs (next_entry now req n) (get_or [] req.type_id s.versions) refl).0;
      snapshots = snapshots_after s req.type_id n (next_type req n) consistent refl;
    }

snapshot-numbered :
    (n : ℕ) (current : DisclosureTypeDto) (o : Option DisclosureTypeDto)
    → ((it : DisclosureTypeDto) → o ≡ some it → it.version_no ≡ n)
    → (snapshot_or (record current { version_no = n }) o).version_no ≡ n
snapshot-numbered n current none numbered = refl
snapshot-numbered n current (some snapshot) numbered = numbered snapshot refl

-- Switching all versions of a type off is harmless.
shown_off :
    (s : State) (k : String)
    → IsConsistent s
    → (t : String) (it : DisclosureTypeDto) → lookup t s.catalog ≡ some it
    → IsActiveAs it.version_no
        (get_or [] t (insert k (deactivated (get_or [] k s.versions)) s.versions))
shown_off s k consistent t it h =
    let off = deactivated (get_or [] k s.versions) in
    elim (Bool-cases (k == t)) [
      | inl e ↦
          subst (λ j. IsActiveAs it.version_no (get_or [] j (insert k off s.versions)))
            ((eq_iff k t).0 e)
            (subst (λ l. IsActiveAs it.version_no l) (sym (get_or-insert_same [] off k s.versions))
              (deactivated-IsActiveAs it.version_no (get_or [] k s.versions)))
      | inr n ↦
          subst (λ l. IsActiveAs it.version_no l)
            (sym (get_or-insert_other [] off k t s.versions (ne_of_eq-false n)))
            (consistent.shown t it h)
    ]

activate_found-IsConsistent :
    (now : ℕ) (req : ActivateTypeVersionRequest) (current : DisclosureTypeDto)
    → Preserves IsConsistent (activate_found now req current)
unfolding Preserves activate_found
activate_found-IsConsistent now req current s consistent =
    elim (Option-cases (last_index req.version_no 0 (get_or [] req.type_id s.versions))) [
      | inl absent ↦
          rw (activate_found, absent)
            (record {
              shown = shown_off s req.type_id consistent;
              snapshots = consistent.snapshots;
            })
      | inr (i, at) ↦
          let n = req.version_no in
          let o = at_version n (get_or [] req.type_id s.catalog_by_ver) in
          let item = snapshot_or (record current { version_no = n }) o in
          let own : item.version_no ≡ n =
            snapshot-numbered n current o (consistent.snapshots req.type_id n) in
          let vs = activate_at req now i (deactivated (get_or [] req.type_id s.versions)) in
          let (d, place, numbered) = last_index-Numbered n 0 i _ at in
          let same : d ≡ i = omega (arith, place) in
          let active =
            (activate_at-IsActiveAs req now n i (get_or [] req.type_id s.versions)
              (subst (λ j. Numbered n j (get_or [] req.type_id s.versions)) same numbered)).0 in
          rw (activate_found, at)
            (record {
              shown =
                  shown_after s req.type_id item vs consistent
                    (subst (λ k. IsActiveAs k vs) (sym own) active);
              snapshots = consistent.snapshots;
            })
    ]

pub activate-IsConsistent :
    (now : ℕ) (req : ActivateTypeVersionRequest)
    → Preserves IsConsistent (activate_type_version now req)
unfolding Preserves activate_type_version
activate-IsConsistent now req s consistent = elim (Option-cases (lookup req.type_id s.catalog)) [
  | inl absent ↦ rw (activate_type_version, absent) consistent
  | inr (current, found) ↦ elim (Bool-cases (is_foreign req.subject.company_id req.type_id s)) [
    | inl foreign ↦ rw (activate_type_version, found, foreign) consistent
    | inr mine ↦
        rw (activate_type_version, found, mine)
          (activate_found-IsConsistent now req current s consistent)
  ]
]
