-- ===== src/Outbox/Ready.antt =====
-- The batch is the beginning of the events that are due, each once, by time and then by id.
use Prim.Native.Nat.{min, Ordering}
use Prim.Native.String.{compare}
use cobo_iam_services.Base.{
  ℕ, zero, suc, ◌≤◌, ◌<◌, String, ◌≡◌, ◌≢◌, ◌⊎◌, ◌↔◌, inl, inr, refl, ap, sym, ◌∙◌, subst, true,
  false, List, [], ◌∷◌, ◌++◌, ltb, eqb, arith, eq_iff, Bool-cases, In, here, there, length,
  length-take, take,
}
use cobo_iam_services.GoText.Compare.{less-not_less}
use cobo_iam_services.Outbox.{
  Item, Repository, is_due, due, before, insert_sorted, sort, batch, is_less,
}
use cobo_iam_services.Outbox.Batch.{at, In-due, In-sort}
use cobo_iam_services.Outbox.Lock.{IsMap}
use cobo_iam_services.Outbox.Distinct.{sort-IsMap, due-IsMap}

abbrev pub event_id : String × Item → String
event_id x = x.1.event.event_id

-- `x` is due earlier than `y`, or at the same time and its id is not the greater one.
abbrev pub Precedes : String × Item → String × Item → Type 0
Precedes x y = (at x < at y) ⊎ ((at x ≡ at y) × (compare (event_id y) (event_id x) ≢ Ordering.lt))

abbrev pub Heads : String × Item → List (String × Item) → Type 0
Heads x [] = Unit
Heads x (y ∷ ys) = Precedes x y

-- Each item precedes the next.
unfoldable pub IsOrdered : List (String × Item) → Type 0
IsOrdered [] = Unit
IsOrdered (x ∷ xs) = Heads x xs × IsOrdered xs

-- An event waits, and its time has come.
abbrev pub Waits : ℕ → Item → Type 0
Waits now it = (it.status ≡ "pending") × (it.event.available_at ≤ now)

before-Precedes : (x y : String × Item) → before x.1 y.1 ≡ true → Precedes x y
unfolding before
before-Precedes x y h = elim (Bool-cases (eqb (at x) (at y))) [
  | inl same ↦
      inr (ground (arith, same), less-not_less (event_id x) (event_id y) (less _ (rw same at h)))
  | inr n ↦ let h' : ltb (at x) (at y) ≡ true = rw n at h in inl (ground (arith, h'))
]
  where
    less : (o : Ordering) → is_less o ≡ true → o ≡ Ordering.lt
    less Ordering.lt h = refl
    less Ordering.eq h = cc
    less Ordering.gt h = cc

not_before-Precedes : (x y : String × Item) → before x.1 y.1 ≡ false → Precedes y x
unfolding before
not_before-Precedes x y h = elim (Bool-cases (eqb (at x) (at y))) [
  | inl same ↦
      let h' : is_less (compare (event_id x) (event_id y)) ≡ false = rw same at h in
      inr (ground (arith, same), λ e. cc (h', ap is_less e))
  | inr n ↦ let h' : ltb (at x) (at y) ≡ false = rw n at h in inl (ground (arith, h', n))
]

Heads-insert :
    (x z : String × Item) (zs : List (String × Item))
    → Precedes z x
    → Heads z zs
    → Heads z (insert_sorted x zs)
unfolding insert_sorted
Heads-insert x z [] p h = p
Heads-insert x z (y ∷ ys) p h = elim (Bool-cases (before x.1 y.1)) [
  | inl e ↦ rw e p
  | inr n ↦ rw n h
]

IsOrdered-insert :
    (x : String × Item) (ys : List (String × Item)) → IsOrdered ys → IsOrdered (insert_sorted x ys)
unfolding IsOrdered insert_sorted
IsOrdered-insert x [] ordered = (tt, tt)
IsOrdered-insert x (z ∷ zs) (first₁, ordered) = elim (Bool-cases (before x.1 z.1)) [
  | inl e ↦ rw e (before-Precedes x z e, (first₁, ordered))
  | inr n ↦
      rw n (Heads-insert x z zs (not_before-Precedes x z n) first₁, IsOrdered-insert x zs ordered)
]

IsOrdered-sort : (xs : List (String × Item)) → IsOrdered (sort xs)
unfolding sort
IsOrdered-sort [] = unfold IsOrdered in tt
IsOrdered-sort (x ∷ xs) = IsOrdered-insert x (sort xs) (IsOrdered-sort xs)

In-below :
    {y z : String × Item} {zs ws : List (String × Item)}
    → In y (z ∷ zs)
    → (In y zs → In y ws)
    → In y (z ∷ ws)
In-below here f = here
In-below (there j) f = there (f j)

In-inserted :
    (x y : String × Item) (ys : List (String × Item))
    → (y ≡ x) ⊎ In y ys
    → In y (insert_sorted x ys)
unfolding insert_sorted
In-inserted x y [] (inl e) = subst (λ z. In y (z ∷ [])) e here
In-inserted x y [] (inr i) = elim i [ ]
In-inserted x y (z ∷ zs) (inl e) = elim (Bool-cases (before x.1 z.1)) [
  | inl b ↦ rw b (subst (λ w. In y (w ∷ z ∷ zs)) e here)
  | inr n ↦ rw n (there (In-inserted x y zs (inl e)))
]
In-inserted x y (z ∷ zs) (inr i) = elim (Bool-cases (before x.1 z.1)) [
  | inl b ↦ rw b (there i)
  | inr n ↦ rw n (In-below i (λ j. In-inserted x y zs (inr j)))
]

sort-In : (y : String × Item) (xs : List (String × Item)) → In y xs → In y (sort xs)
unfolding sort
sort-In y _ (here {xs = xs}) = In-inserted y y (sort xs) (inl refl)
sort-In y _ (there {y = x} {xs = xs} i) = In-inserted x y (sort xs) (inr (sort-In y xs i))

due-In :
    (now : ℕ) (y : String × Item) (r : Repository)
    → In y r
    → is_due now y.1 ≡ true
    → In y (due now r)
unfolding due
due-In now (k, it) _ (here {xs = r}) h = rw h here
due-In now y _ (there {y = (j, w)} {xs = r} i) h = elim (Bool-cases (is_due now w)) [
  | inl e ↦ rw e (there (due-In now y r i h))
  | inr n ↦ rw n (due-In now y r i h)
]

drop : ℕ → List (String × Item) → List (String × Item)
drop zero xs = xs
drop (suc n) [] = []
drop (suc n) (x ∷ xs) = drop n xs

take-drop : (n : ℕ) (xs : List (String × Item)) → take n xs ++ drop n xs ≡ xs
unfolding drop
take-drop zero xs = refl
take-drop (suc n) [] = refl
take-drop (suc n) (x ∷ xs) = ap (λ l. x ∷ l) (take-drop n xs)

is_due_sound : (now : ℕ) (it : Item) → is_due now it ≡ true → Waits now it
unfolding is_due
is_due_sound now it h = (ground (arith, h, eq_iff it.status "pending"), ground (arith, h))

is_due_complete : (now : ℕ) (it : Item) → Waits now it → is_due now it ≡ true
unfolding is_due
is_due_complete now it (pending, le) = ground (arith, le, (eq_iff it.status "pending").1 pending)

-- The events that are pending and due form a list, each with a key of its own, in the order of the
-- times that they are due and then of their ids; and a batch is the beginning of that list, as many
-- events as were asked for, or all if there are fewer. The map of the events has no key twice.
pub batch-IsOrdered :
    (size now : ℕ) (r : Repository)
    → IsMap r
    → (rest : List (String × Item)) × (length (batch size now r)
        ≡ min size (length (batch size now r ++ rest)))
      × IsOrdered (batch size now r ++ rest)
      × IsMap (batch size now r ++ rest)
      × ((x : String × Item) → In x (batch size now r ++ rest) ↔ (In x r × Waits now x.1))
batch-IsOrdered size now r m =
    let all = sort (due now r) in
    let whole = take-drop size all in
    (
      drop size all,
      length-take size all ∙ ap (λ l. min size (length l)) (sym whole),
      subst (λ l. IsOrdered l) (sym whole) (IsOrdered-sort (due now r)),
      subst (λ l. IsMap l) (sym whole) (sort-IsMap (due now r) (due-IsMap now r m)),
      λ x.
          subst (λ l. In x l ↔ (In x r × Waits now x.1)) (sym whole)
            (
              (λ i.
                  let (stored, ready) = In-due now x r (In-sort x (due now r) i) in
                  (stored, is_due_sound now x.1 ready)),
              λ (stored, waits).
                  sort-In x (due now r) (due-In now x r stored (is_due_complete now x.1 waits)),
            ),
    )
