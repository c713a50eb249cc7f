-- ===== src/CompanyAccess/Grants.antt =====
-- internal/companyaccess/infra/inmemory/admin_repository.go: `addSet` and `delSet`, as changes of a
-- relation between memberships and roles, departments or titles, or between roles and permissions.
use cobo_iam_services.Base.{
  String, ◌≡◌, refl, ap, sym, ◌∙◌, Bool, false, not, ◌&&◌, ◌||◌, none, some, List, [], ◌∷◌, ◌==◌,
  arith, eq_iff, Bool-cases, Option-cases, inl, inr, if◌then◌else◌, ne_of_eq-false, subst,
}
use cobo_iam_services.Dict.{
  Dict, lookup, insert, erase, get_or, has_key, lookup-insert, lookup-erase, get_or-insert_same,
  get_or-insert_other,
}
use cobo_iam_services.CompanyAccess.Repository.{Set, add_set, del_set}

-- The relation: from a membership or role to what is linked to it.
abbrev pub Relation : Type 0
Relation = String → String → Bool

abbrev pub linked : Dict Set → Relation
linked m k v = has_key v (get_or [] k m)

pub data Change : Type 0 where
  adds removes : String → String → Change

unfoldable pub apply : List Change → Dict Set → Dict Set
apply [] m = m
apply (adds k v ∷ changes) m = apply changes (add_set m k v)
apply (removes k v ∷ changes) m = apply changes (del_set m k v)

abbrev pub with_pair : String → String → Relation → Relation
with_pair k v r a b = (k == a && v == b) || r a b

abbrev pub without_pair : String → String → Relation → Relation
without_pair k v r a b = not (k == a && v == b) && r a b

unfoldable pub replay : List Change → Relation → Relation
replay [] r = r
replay (adds k v ∷ changes) r = replay changes (with_pair k v r)
replay (removes k v ∷ changes) r = replay changes (without_pair k v r)

has_key-insert :
    (v b : String) (set : Set) → has_key b (insert v tt set) ≡ (v == b || has_key b set)
has_key-insert v b set = elim (Bool-cases (v == b)) [
  | inl e ↦ rw (has_key, lookup-insert v b tt set, e) refl
  | inr e ↦ rw (has_key, lookup-insert v b tt set, e) refl
]

has_key-erase :
    (v b : String) (set : Set) → has_key b (erase v set) ≡ (not (v == b) && has_key b set)
has_key-erase v b set = elim (Bool-cases (v == b)) [
  | inl e ↦ rw (has_key, lookup-erase v b set, e) refl
  | inr e ↦ rw (has_key, lookup-erase v b set, e) refl
]

-- What is linked to `a` once a set is written for `k`.
linked-insert :
    (m : Dict Set) (k a b : String) (set : Set)
    → linked (insert k set m) a b ≡ (if k == a then has_key b set else linked m a b)
linked-insert m k a b set = elim (Bool-cases (k == a)) [
  | inl e ↦ rw e (
      ap (λ s. has_key b s)
        (subst (λ j. get_or [] j (insert k set m) ≡ set) ((eq_iff k a).0 e)
          (get_or-insert_same [] set k m)))
  | inr e ↦ rw e (ap (λ s. has_key b s) (get_or-insert_other [] set k a m (ne_of_eq-false e)))
]

linked-add :
    (m : Dict Set) (k v a b : String) → linked (add_set m k v) a b ≡ with_pair k v (linked m) a b
unfolding add_set
linked-add m k v a b =
    let set = get_or [] k m in
    let written = linked-insert m k a b (insert v tt set) in
    elim (Bool-cases (k == a)) [
      | inl e ↦
          let at : linked m k b ≡ linked m a b = ap (λ j. linked m j b) ((eq_iff k a).0 e) in
          (rw e at written) ∙ (has_key-insert v b set ∙ rw (e, at) refl)
      | inr e ↦ (rw e at written) ∙ rw e refl
    ]

del-absent : (m : Dict Set) (k v : String) → lookup k m ≡ none → del_set m k v ≡ m
unfolding del_set
del-absent m k v absent = rw (del_set, absent) refl

del-found :
    (m : Dict Set) (k v : String) (set : Set)
    → lookup k m ≡ some set
    → del_set m k v ≡ insert k (erase v set) m
unfolding del_set
del-found m k v set found = rw (del_set, found) refl

and_false : (b : Bool) {c : Bool} → c ≡ false → (b && c) ≡ false
and_false b h = ground (arith, h)

linked-del :
    (m : Dict Set) (k v a b : String) → linked (del_set m k v) a b ≡ without_pair k v (linked m) a b
unfolding lookup
linked-del m k v a b = elim (Option-cases (lookup k m)) [
  | inl absent ↦ elim (Bool-cases (k == a)) [
    | inl e ↦
        let none_at : linked m k b ≡ false = rw (linked, get_or, absent) refl in
        let at : linked m a b ≡ false = ap (λ j. linked m j b) (sym ((eq_iff k a).0 e)) ∙ none_at in
        ap (λ n. linked n a b) (del-absent m k v absent) ∙ (at ∙ sym (and_false _ at))
    | inr e ↦ ap (λ n. linked n a b) (del-absent m k v absent) ∙ rw e refl
  ]
  | inr (set, found) ↦
      let whole = ap (λ n. linked n a b) (del-found m k v set found) in
      let written = linked-insert m k a b (erase v set) in
      elim (Bool-cases (k == a)) [
        | inl e ↦
            let here : linked m k b ≡ has_key b set = rw (linked, get_or, found) refl in
            let at : linked m a b ≡ has_key b set =
              ap (λ j. linked m j b) (sym ((eq_iff k a).0 e)) ∙ here in
            whole ∙ ((rw e at written) ∙ (has_key-erase v b set ∙ rw (e, at) refl))
        | inr e ↦ whole ∙ ((rw e at written) ∙ rw e refl)
      ]
]

-- After any additions and removals, exactly the pairs are linked that the relation holds after the
-- same changes: a pair that was added and not removed since, or was linked before and not removed.
pub apply-replay_grants :
    (changes : List Change) (m : Dict Set) (r : Relation)
    → ((k v : String) → linked m k v ≡ r k v)
    → (k v : String) → linked (apply changes m) k v ≡ replay changes r k v
unfolding apply replay
apply-replay_grants [] m r same = same
apply-replay_grants (adds k v ∷ changes) m r same =
    apply-replay_grants changes (add_set m k v) (with_pair k v r)
      λ a b. linked-add m k v a b ∙ ap (λ t. (k == a && v == b) || t) (same a b)
apply-replay_grants (removes k v ∷ changes) m r same =
    apply-replay_grants changes (del_set m k v) (without_pair k v r)
      λ a b. linked-del m k v a b ∙ ap (λ t. not (k == a && v == b) && t) (same a b)
