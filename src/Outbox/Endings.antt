-- ===== src/Outbox/Endings.antt =====
-- Each event of a list that is processed comes to its outcome and keeps it.
use cobo_iam_services.Base.{
  ℕ, String, ◌≡◌, refl, sym, ap, subst, ◌∙◌, List, [], ◌∷◌, map, inl, inr, ◌⊎◌, some, In, here,
  there,
}
use cobo_iam_services.Dict.{Dict, lookup}
use cobo_iam_services.Outbox.{
  Item, Repository, QueuedEvent, Machine, Handler, process, process_all, event_of,
}
use cobo_iam_services.Outbox.Tick.{
  IsBounded, Settles, Outcome, process-Settles, Present, process-Present,
}

pub Settles-IsBounded :
    (id : String) (tries : ℕ) (r r' : Repository)
    → Settles id tries r r'
    → IsBounded r
    → IsBounded r'
unfolding Settles IsBounded
Settles-IsBounded id tries r r' settles bounded = λ k it h. elim (settles k it h) [
  | inl (other, before) ↦ bounded k it before
  | inr (at, moved, count) ↦ count
]

pub some_inj : {v w : Item} → some v ≡ some w → v ≡ w
some_inj h = cc

first_or :
    (e f : QueuedEvent) (events : List QueuedEvent) → In f (e ∷ events) → (f ≡ e) ⊎ In f events
first_or e _ events here = inl refl
first_or e f events (there i) = inr i

-- Each event of the list is an item's.
pub map_event-In :
    (f : QueuedEvent) (items : List (String × Item))
    → In f (map event_of items)
    → (x : String × Item) × In x items × (event_of x ≡ f)
map_event-In f [] i = elim i [ ]
map_event-In f (x ∷ items) i = elim (first_or (event_of x) f (map event_of items) i) [
  | inl same ↦ (x, here, sym same)
  | inr later ↦ let (y, j, is) = map_event-In f items later in (y, there j, is)
]

-- An event that was tried `c` times before has its outcome.
abbrev pub Ends : String → ℕ → Repository → Type 0
Ends k c r = (it : Item) × (lookup k r ≡ some it) × Outcome c it

-- Events with the id have that count of tries.
abbrev pub Agrees : String → ℕ → List QueuedEvent → Type 0
Agrees k c events = (f : QueuedEvent) → In f events → f.event_id ≡ k → f.retry_count ≡ c

module _ {H : Type 0} (clock : ℕ → ℕ) (draw : ℕ → ℕ → ℕ) where
  process-Ends :
      (handlers : Dict (Handler H)) (f : QueuedEvent) (m : Machine H) (k : String) (c : ℕ)
      → IsBounded m.repository
      → (f.event_id ≡ k → f.retry_count ≡ c)
      → (f.event_id ≡ k) ⊎ Ends k c m.repository
      → Present k m.repository
      → Ends k c (process clock draw handlers f m).repository
  unfolding Settles
  process-Ends handlers f m k c bounded agrees ends present =
      let (it, found) = process-Present clock draw handlers f m k present in
      elim (process-Settles clock draw handlers f m bounded k it found) [
        | inr (at, outcome, lt) ↦ (it, found, subst (λ n. Outcome n it) (agrees (sym at)) outcome)
        | inl (other, before) ↦ elim ends [
          | inl at ↦ elim (other (sym at)) [ ]
          | inr (old, was, outcome) ↦
              (it, found, subst (λ w. Outcome c w) (some_inj (sym was ∙ before)) outcome)
        ]
      ]

  pub all-Ends :
      (handlers : Dict (Handler H)) (events : List QueuedEvent) (m : Machine H) (k : String) (c : ℕ)
      → IsBounded m.repository
      → Agrees k c events
      → Present k m.repository
      → ((f : QueuedEvent) × In f events × (f.event_id ≡ k)) ⊎ Ends k c m.repository
      → Ends k c (process_all clock draw handlers events m).repository
  unfolding process_all
  all-Ends handlers [] m k c bounded agrees present (inl (f, i, at)) = elim i [ ]
  all-Ends handlers [] m k c bounded agrees present (inr ends) = ends
  all-Ends handlers (e ∷ events) m k c bounded agrees present ends =
      let next = process clock draw handlers e m in
      let settles = process-Settles clock draw handlers e m bounded in
      all-Ends handlers events next k c
        (Settles-IsBounded e.event_id e.retry_count m.repository _ settles bounded)
        (λ f i. agrees f (there i)) (process-Present clock draw handlers e m k present)
        (elim ends [
          | inr old ↦ inr (process-Ends handlers e m k c bounded (agrees e here) (inr old) present)
          | inl (f, i, at) ↦ elim (first_or e f events i) [
            | inl same ↦ inr (
                process-Ends handlers e m k c bounded (agrees e here)
                  (inl (ap (λ (x : QueuedEvent). x.event_id) (sym same) ∙ at)) present)
            | inr later ↦ inl (f, later, at)
          ]
        ])
