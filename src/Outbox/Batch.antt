-- ===== src/Outbox/Batch.antt =====
-- What is in a batch: events that are stored, pending and due.
use cobo_iam_services.Base.{
  ℕ, zero, suc, String, ◌≡◌, refl, sym, subst, Bool, true, false, List, [], ◌∷◌, take, inl, inr,
  ◌⊎◌, In, here, there,
}
use cobo_iam_services.Outbox.{
  Item, Repository, is_due, due, add_due, before, insert_sorted, place, sort, batch,
}

abbrev pub at : String × Item → ℕ
at x = x.1.event.available_at

In-place :
    (b : Bool) (x y z : String × Item) (zs rest : List (String × Item))
    → (In y rest → (y ≡ x) ⊎ In y zs)
    → In y (place b x z zs rest)
    → (y ≡ x) ⊎ In y (z ∷ zs)
In-place true x y z zs rest h here = inl refl
In-place true x y z zs rest h (there i) = inr i
In-place false x y z zs rest h here = inr here
In-place false x y z zs rest h (there i) = elim (h i) [ inl e ↦ inl e | inr j ↦ inr (there j) ]

In-insert_sorted :
    (x y : String × Item) (ys : List (String × Item))
    → In y (insert_sorted x ys)
    → (y ≡ x) ⊎ In y ys
unfolding insert_sorted
In-insert_sorted x y [] here = inl refl
In-insert_sorted x y [] (there i) = elim i [ ]
In-insert_sorted x y (z ∷ zs) i =
    In-place (before x.1 z.1) x y z zs (insert_sorted x zs) (In-insert_sorted x y zs) i

pub In-sort : (y : String × Item) (xs : List (String × Item)) → In y (sort xs) → In y xs
unfolding sort
In-sort y [] i = i
In-sort y (x ∷ xs) i = elim (In-insert_sorted x y (sort xs) i) [
  | inl e ↦ subst (λ z. In z (x ∷ xs)) (sym e) here
  | inr j ↦ there (In-sort y xs j)
]

In-take : (n : ℕ) (y : String × Item) (xs : List (String × Item)) → In y (take n xs) → In y xs
In-take zero y xs i = elim i [ ]
In-take (suc n) y [] i = elim i [ ]
In-take (suc n) y (x ∷ xs) here = here
In-take (suc n) y (x ∷ xs) (there i) = there (In-take n y xs i)

In-add :
    (now : ℕ) (x : String × Item) (k : String) (it : Item) (r : Repository)
    → (In x (due now r) → In x r × (is_due now x.1 ≡ true))
    → (b : Bool) → is_due now it ≡ b
    → In x (add_due b (k, it) (due now r))
    → In x ((k, it) ∷ r) × (is_due now x.1 ≡ true)
In-add now x k it r h true e here = (here, e)
In-add now x k it r h true e (there i) = let (j, d) = h i in (there j, d)
In-add now x k it r h false e i = let (j, d) = h i in (there j, d)

pub In-due :
    (now : ℕ) (x : String × Item) (r : Repository)
    → In x (due now r)
    → In x r × (is_due now x.1 ≡ true)
unfolding due
In-due now x [] i = elim i [ ]
In-due now x ((k, it) ∷ r) i = In-add now x k it r (In-due now x r) (is_due now it) refl i

-- Each item of a batch is stored, and is pending and due.
pub In-batch :
    (size now : ℕ) (r : Repository) (x : String × Item)
    → In x (batch size now r)
    → In x r × (is_due now x.1 ≡ true)
In-batch size now r x i =
    In-due now x r (In-sort x (due now r) (In-take size x (sort (due now r)) i))
