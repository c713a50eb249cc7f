-- ===== src/Dict.antt =====
-- Go maps with text keys, as association lists. A range over a map visits the entries in no
-- fixed order; here it is that of the list, and no theorem depends on it.
use cobo_iam_services.Base.{
  String, ◌≡◌, ◌≢◌, ◌⊎◌, refl, Bool, true, false, Option, none, some, List, [], ◌∷◌, arith, ◌==◌,
  eq_iff, if◌then◌else◌,
}

abbrev pub Dict {ℓ} : Type ℓ → Type ℓ
Dict V = List (String × V)

module _ {ℓ} {V : Type ℓ} where
  -- `v, ok := m[k]`
  unfoldable pub lookup : String → Dict V → Option V
  lookup k [] = none
  lookup k ((j, v) ∷ m) = if j == k then some v else lookup k m

  -- `m[k] = v`
  unfoldable pub insert : String → V → Dict V → Dict V
  insert k v [] = (k, v) ∷ []
  insert k v ((j, w) ∷ m) = if j == k then (k, v) ∷ m else (j, w) ∷ insert k v m

  -- `delete(m, k)`
  unfoldable pub erase : String → Dict V → Dict V
  erase k [] = []
  erase k ((j, w) ∷ m) = let rest = erase k m in if j == k then rest else (j, w) ∷ rest

  -- `m[k]`, with the zero value for a key that is absent
  abbrev pub get_or : V → String → Dict V → V
  get_or zero_value k m = elim (lookup k m) [ none ↦ zero_value | some v ↦ v ]

  abbrev pub has_key : String → Dict V → Bool
  has_key k m = elim (lookup k m) [ none ↦ false | some v ↦ true ]

  pub lookup-insert :
      (written read : String) (v : V) (m : Dict V)
      → lookup read (insert written v m) ≡ (if written == read then some v else lookup read m)
  unfolding insert lookup
  lookup-insert written read v [] = refl
  lookup-insert written read v ((i, w) ∷ m) =
      let rest = lookup-insert written read v m in
      ground (arith, rest, eq_iff i written, eq_iff i read, eq_iff written read)

  pub lookup-erase :
      (k j : String) (m : Dict V) → lookup j (erase k m) ≡ (if k == j then none else lookup j m)
  unfolding lookup erase
  lookup-erase k j [] = ground arith
  lookup-erase k j ((i, w) ∷ m) =
      ground (arith, eq_iff k j, eq_iff i k, eq_iff i j, lookup-erase k j m)

  pub lookup-insert_other :
      (k j : String) (v : V) (m : Dict V) → k ≢ j → lookup j (insert k v m) ≡ lookup j m
  lookup-insert_other k j v m differ = ground (arith, eq_iff k j, lookup-insert k j v m, differ)

  -- A value that stands in the map after a write is the one written, or stood there before.
  pub lookup-insert_cases :
      (k j : String) (v u : V) (m : Dict V)
      → lookup j (insert k v m) ≡ some u
      → ((k ≡ j) × (v ≡ u)) ⊎ (lookup j m ≡ some u)
  lookup-insert_cases k j v u m h = ground (arith, eq_iff k j, lookup-insert k j v m, h)

  pub lookup-insert_same : (k : String) (v : V) (m : Dict V) → lookup k (insert k v m) ≡ some v
  lookup-insert_same k v m = ground (arith, eq_iff k k, lookup-insert k k v m)

  pub lookup-erase_same : (k : String) (m : Dict V) → lookup k (erase k m) ≡ none
  lookup-erase_same k m = ground (arith, eq_iff k k, lookup-erase k k m)

  pub lookup-erase_cases :
      (k j : String) (u : V) (m : Dict V)
      → lookup j (erase k m) ≡ some u
      → (k ≢ j) × (lookup j m ≡ some u)
  lookup-erase_cases k j u m h = ground (arith, eq_iff k j, lookup-erase k j m, h)

  pub get_or-insert_same : (z v : V) (k : String) (m : Dict V) → get_or z k (insert k v m) ≡ v
  get_or-insert_same z v k m = rw (get_or, lookup-insert_same k v m) refl

  pub get_or-insert_other :
      (z v : V) (k j : String) (m : Dict V) → k ≢ j → get_or z j (insert k v m) ≡ get_or z j m
  get_or-insert_other z v k j m differ = rw (get_or, lookup-insert_other k j v m differ) refl

pub ruleset dict_laws = (lookup-insert, lookup-erase)
