-- ===== src/Iam/Sessions/Finality.antt =====
-- Revocation is final: no sequence of operations revives a session under any token.
use cobo_iam_services.Base.{
  ℕ, ◌<◌, String, ◌≡◌, sym, subst, ◌∙◌, ap, true, some, Option, List, [], ◌∷◌, arith, inl, inr,
  Bool-cases, eqb,
}
use cobo_iam_services.Base.Results.{ok}
use cobo_iam_services.Dict.{lookup, lookup-insert_other}
use cobo_iam_services.Iam.{SessionState}
use cobo_iam_services.Iam.Sessions.{Store, create, find_by_refresh_token, rotated, new_session}
use cobo_iam_services.Iam.Sessions.Linked.{
  IsLinked, assign-other, create-IsLinked, rotated-IsLinked,
}
use cobo_iam_services.Iam.Sessions.Rotation.{found-cell}
use cobo_iam_services.Iam.Sessions.Revocation.{
  Op, step, run, AllNew, Keeps, Keeps-IsLinked, Change, opened, turned, written, step-Change,
}

Change-IsLinked : (s s' : Store) → Change s s' → IsLinked s → IsLinked s'
Change-IsLinked s _ (opened p new) linked = create-IsLinked p s linked new
Change-IsLinked s _ (turned id token p found) linked = rotated-IsLinked id token p s linked found
Change-IsLinked s _ (written cells keeps) linked = Keeps-IsLinked s cells keeps linked

-- The session of the id `id` is the cell `p`, and is revoked.
unfoldable pub IsRevoked : String → ℕ → Store → Type 0
IsRevoked id p s =
    (p < s.used) × (lookup id s.by_session_id ≡ some p) × ((s.cells p).revoked ≡ true)

some_inj : {p q : ℕ} → Path (Option ℕ) (some p) (some q) → p ≡ q
some_inj h = cc

rotated-revoked :
    (s : Store) (p q : ℕ) (token : String)
    → (s.cells p).revoked ≡ true
    → ((rotated token q s).cells p).revoked ≡ true
rotated-revoked s p q token revoked = elim (Bool-cases (eqb q p)) [
  | inl e ↦
      let at : q ≡ p = ground (arith, e) in
      rw e (subst (λ x. (s.cells x).revoked ≡ true) (sym at) revoked)
  | inr n ↦ rw n revoked
]

Change-IsRevoked :
    (id : String) (p : ℕ) (s s' : Store) → Change s s' → IsRevoked id p s → IsRevoked id p s'
unfolding IsRevoked create Keeps
Change-IsRevoked id p s _ (opened params new) (lt, found, revoked) = (
  omega (arith, lt),
  lookup-insert_other params.session_id id s.used s.by_session_id (λ e. cc) ∙ found,
  rw (assign-other s.used p (new_session params) s.cells (λ e. omega (arith, e, lt))) revoked,
)
Change-IsRevoked id p s _ (turned id' token q found') (lt, found, revoked) =
    (lt, found, rotated-revoked s p q token revoked)
Change-IsRevoked id p s _ (written cells keeps) (lt, found, revoked) =
    (lt, found, (keeps p).2 revoked)

run-IsRevoked :
    (ops : List Op) (id : String) (p : ℕ) (s : Store)
    → AllNew ops s
    → IsRevoked id p s
    → IsRevoked id p (run ops s)
unfolding run
run-IsRevoked [] id p s new revoked = revoked
run-IsRevoked (o ∷ ops) id p s (new, rest) revoked =
    run-IsRevoked ops id p (step o s) rest (Change-IsRevoked id p s _ (step-Change o s new) revoked)

-- Every sequence of operations keeps the maps linked, if sessions are opened under ids that none has.
pub run-IsLinked : (ops : List Op) (s : Store) → AllNew ops s → IsLinked s → IsLinked (run ops s)
unfolding run
run-IsLinked [] s new linked = linked
run-IsLinked (o ∷ ops) s (new, rest) linked =
    run-IsLinked ops (step o s) rest (Change-IsLinked s _ (step-Change o s new) linked)

-- Once a session is revoked, every refresh token that leads to it after any further operations, new
-- tokens from rotation included, finds it revoked. The maps are linked at first, and sessions are
-- opened under ids that none has.
pub revoked-final :
    (ops : List Op) (id t : String) (p : ℕ) (s s' : Store) (ss : SessionState)
    → IsLinked s
    → AllNew ops s
    → IsRevoked id p s
    → find_by_refresh_token t (run ops s) ≡ (ok ss, s')
    → ss.session_id ≡ id
    → ss.revoked ≡ true
unfolding IsRevoked
revoked-final ops id t p s s' ss linked new revoked h is =
    let (lt, found, revoked') = run-IsRevoked ops id p s new revoked in
    let (q, at, cell, _) = found-cell t (run ops s) s' ss h in
    let (_, _, own) = (run-IsLinked ops s new linked).token_cell t q at in
    let own' : lookup id (run ops s).by_session_id ≡ some q =
      subst (λ i. lookup i (run ops s).by_session_id ≡ some q)
        (ap (λ c. c.session_id) (sym cell) ∙ is) own in
    let same : p ≡ q = some_inj (sym found ∙ own') in
    ap (λ c. c.revoked) cell ∙ subst (λ x. ((run ops s).cells x).revoked ≡ true) same revoked'
