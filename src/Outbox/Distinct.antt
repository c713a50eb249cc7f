-- ===== src/Outbox/Distinct.antt =====
-- Selecting and sorting keep the keys apart.
use cobo_iam_services.Base.{
  ℕ, String, ◌≡◌, inl, inr, false, Option, none, some, [], ◌∷◌, ◌==◌, arith, eq_iff, Bool-cases,
}
use cobo_iam_services.Dict.{lookup}
use cobo_iam_services.Outbox.{Item, Repository, is_due, due, before, insert_sorted, sort}
use cobo_iam_services.Outbox.Lock.{IsMap}

some-none : {w : Item} → Path (Option Item) (some w) none → ⊥
some-none h = cc

-- A key that is not there stays away.
absent :
    (k j : String) (w : Item) (r : Repository)
    → lookup k ((j, w) ∷ r) ≡ none
    → ((j == k) ≡ false) × (lookup k r ≡ none)
unfolding lookup
absent k j w r h = elim (Bool-cases (j == k)) [
  | inl e ↦ elim (some-none (rw e at h)) [ ]
  | inr n ↦ (n, rw n at h)
]

absent-cons :
    (k j : String) (w : Item) (r : Repository)
    → (j == k) ≡ false
    → lookup k r ≡ none
    → lookup k ((j, w) ∷ r) ≡ none
unfolding lookup
absent-cons k j w r n h = rw n h

absent-insert :
    (k j : String) (w : Item) (r : Repository)
    → (j == k) ≡ false
    → lookup k r ≡ none
    → lookup k (insert_sorted (j, w) r) ≡ none
unfolding insert_sorted
absent-insert k j w [] n h = absent-cons k j w [] n h
absent-insert k j w ((i, v) ∷ r) n h =
    let (other, below) = absent k i v r h in
    elim (Bool-cases (before w v)) [
      | inl e ↦ rw e (absent-cons k j w ((i, v) ∷ r) n h)
      | inr m ↦
          rw m (absent-cons k i v (insert_sorted (j, w) r) other (absent-insert k j w r n below))
    ]

absent-sort : (k : String) (r : Repository) → lookup k r ≡ none → lookup k (sort r) ≡ none
unfolding sort
absent-sort k [] h = h
absent-sort k ((j, w) ∷ r) h =
    let (other, below) = absent k j w r h in
    absent-insert k j w (sort r) other (absent-sort k r below)

absent-due :
    (now : ℕ) (k : String) (r : Repository) → lookup k r ≡ none → lookup k (due now r) ≡ none
unfolding due
absent-due now k [] h = h
absent-due now k ((j, w) ∷ r) h =
    let (other, below) = absent k j w r h in
    let rest = absent-due now k r below in
    elim (Bool-cases (is_due now w)) [
      | inl e ↦ rw e (absent-cons k j w (due now r) other rest)
      | inr n ↦ rw n rest
    ]

insert_sorted-IsMap :
    (j : String) (w : Item) (r : Repository)
    → lookup j r ≡ none
    → IsMap r
    → IsMap (insert_sorted (j, w) r)
unfolding IsMap insert_sorted
insert_sorted-IsMap j w [] new m = (new, tt)
insert_sorted-IsMap j w ((i, v) ∷ r) new (first₁, m) =
    let (other, below) = absent j i v r new in
    elim (Bool-cases (before w v)) [
      | inl e ↦ rw e (new, (first₁, m))
      | inr n ↦ rw n (
        absent-insert i j w r (ground (arith, other, eq_iff i j, eq_iff j i)) first₁,
        insert_sorted-IsMap j w r below m,
      )
    ]

pub sort-IsMap : (r : Repository) → IsMap r → IsMap (sort r)
unfolding IsMap sort
sort-IsMap [] m = tt
sort-IsMap ((j, w) ∷ r) (new, m) =
    insert_sorted-IsMap j w (sort r) (absent-sort j r new) (sort-IsMap r m)

pub due-IsMap : (now : ℕ) (r : Repository) → IsMap r → IsMap (due now r)
unfolding IsMap due
due-IsMap now [] m = tt
due-IsMap now ((j, w) ∷ r) (new, m) = elim (Bool-cases (is_due now w)) [
  | inl e ↦ rw e (absent-due now j r new, due-IsMap now r m)
  | inr n ↦ rw n (due-IsMap now r m)
]
