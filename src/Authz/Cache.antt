-- ===== src/Authz/Cache.antt =====
-- internal/authorization/infra/projection: the in-memory snapshot store (store.go) and the resolver
-- that reads through it (cached_resolver.go). Times and lifetimes are nanoseconds; a lifetime of 0
-- stands for every one that is not positive.
use cobo_iam_services.Base.{
  ℕ, ◌+◌, ◌*◌, ◌^◌, String, ◌≡◌, Option, none, some, [], arith, ltb, eqb, eq_refl, leb,
  if◌then◌else◌,
}
use cobo_iam_services.Base.Results.{Result, ok, err, wrap, Exec}
use cobo_iam_services.Dict.{Dict, lookup, insert, erase, lookup-insert}
use cobo_iam_services.Authz.{EffectiveAccessSummary}
use cobo_iam_services.Authz.Resolution.{IsAbout}
use cobo_iam_services.Authz.Store.{key}

pub record Entry : Type 0 where
  pub snapshot : EffectiveAccessSummary
  pub expires : ℕ

pub record SnapshotStore : Type 0 where
  pub ttl : ℕ
  pub items : Dict Entry

abbrev pub default_ttl : ℕ
default_ttl = 5 * 60 * 10 ^ 9

-- `NewInMemoryStore`
unfoldable pub new_store : ℕ → SnapshotStore
new_store ttl = record { ttl = if eqb ttl 0 then default_ttl else ttl; items = [] }

-- `Get` at a time: an expired entry is deleted, and missed.
unfoldable pub get :
    ℕ → String → String → SnapshotStore → Option EffectiveAccessSummary × SnapshotStore
get now membership_id company_id s = elim (lookup (key membership_id company_id) s.items) [
  | none ↦ (none, s)
  | some it ↦
      if ltb it.expires now
      then (none, record s { items = erase (key membership_id company_id) s.items })
      else (some it.snapshot, s)
]

unfoldable pub put : ℕ → EffectiveAccessSummary → SnapshotStore → SnapshotStore
put now snapshot s = record s {
  items =
      insert (key snapshot.membership_id snapshot.company_id)
        (record { snapshot = snapshot; expires = now + s.ttl }) s.items;
}

-- what `Resolve` does after a miss, with the base resolver's answer
abbrev fill : ℕ → Result EffectiveAccessSummary → Exec SnapshotStore EffectiveAccessSummary
fill now (ok resolved) s = (ok resolved, put now resolved s)
fill now (err e) s = (wrap "resolve base effective access" (err e), s)

-- `Resolve`: `base` is the answer that the base resolver would give now.
unfoldable pub resolve :
    ℕ → Result EffectiveAccessSummary → String → String → Exec SnapshotStore EffectiveAccessSummary
resolve now base membership_id company_id s =
    let (found, s') = get now membership_id company_id s in
    elim found [ some v ↦ (ok v, s') | none ↦ fill now base s' ]

abbrev answer :
    Result EffectiveAccessSummary → Option EffectiveAccessSummary → Result EffectiveAccessSummary
answer base none = wrap "resolve base effective access" base
answer base (some v) = ok v

module _ (m c : String) (s : SnapshotStore) where
  get_ttl : (now : ℕ) → (get now m c s).1.ttl ≡ s.ttl
  unfolding get
  get_ttl now = ground arith

  resolve-get :
      (now : ℕ) (base : Result EffectiveAccessSummary)
      → (resolve now base m c s).0 ≡ answer base (get now m c s).0
  unfolding resolve
  resolve-get now base = ground arith

  module _ (eff : EffectiveAccessSummary) (about : IsAbout m c eff) where
    resolve-miss :
        (now : ℕ)
        → (get now m c s).0 ≡ none
        → (resolve now (ok eff) m c s).1 ≡ put now eff (get now m c s).1
    unfolding resolve
    resolve-miss now missed = rw (missed, resolve)

    get-put :
        (t later : ℕ)
        → (get later m c (put t eff s)).0 ≡ (if leb later (t + s.ttl) then some eff else none)
    unfolding get put
    get-put t later =
        let hit : lookup (key m c) (put t eff s).items
            ≡ some (record { snapshot = eff; expires = t + s.ttl }) =
          simp (about.membership, about.company, lookup-insert, eq_refl) in
        rw (hit, get) (ground arith)

-- After a miss that the base resolver filled for the membership and company asked for, the same
-- access is answered until the store's lifetime has passed, whatever the base resolver would answer
-- by then; later its new answer, error or not, is given.
pub resolve-resolve :
    (m c : String) (s : SnapshotStore) (eff : EffectiveAccessSummary) (t later : ℕ)
    (base : Result EffectiveAccessSummary)
    → IsAbout m c eff
    → (get t m c s).0 ≡ none
    → (resolve later base m c (resolve t (ok eff) m c s).1).0
      ≡ (if leb later (t + s.ttl) then ok eff else wrap "resolve base effective access" base)
resolve-resolve m c s eff t later base about missed =
    rw
      (
        resolve-miss m c s eff about t missed,
        resolve-get m c _ later base,
        get-put m c (get t m c s).1 eff about t later,
        get_ttl m c s t,
      )
      (ground arith)
