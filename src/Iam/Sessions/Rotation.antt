-- ===== src/Iam/Sessions/Rotation.antt =====
-- Rotation: the old token leads nowhere, the new one to the same session.
use cobo_iam_services.Base.{
  ℕ, String, ◌≡◌, ◌≢◌, refl, sym, subst, ◌∙◌, ap, none, some, inl, inr, Option-cases,
}
use cobo_iam_services.Base.Results.{Error, ok, err, Result}
use cobo_iam_services.Dict.{lookup, lookup-insert_same, lookup-insert_other, lookup-erase_same}
use cobo_iam_services.Iam.{SessionState}
use cobo_iam_services.Iam.Sessions.{
  Store, find_by_refresh_token, rotate_refresh_token, expired, rotated,
}
use cobo_iam_services.Iam.Sessions.Linked.{IsLinked, assign-same}

pub find-missing :
    (t : String) (s : Store)
    → lookup t s.by_refresh_token ≡ none
    → find_by_refresh_token t s ≡ (err expired, s)
unfolding find_by_refresh_token
find-missing t s missing = rw missing refl

pub find-cell :
    (t : String) (p : ℕ) (s : Store)
    → lookup t s.by_refresh_token ≡ some p
    → find_by_refresh_token t s ≡ (ok (s.cells p), s)
unfolding find_by_refresh_token
find-cell t p s found = rw found refl

ok_inj : {c e : SessionState} → ok c ≡ ok e → c ≡ e
ok_inj h = cc

ok-err : {c : SessionState} {e : Error} → Path (Result SessionState) (err e) (ok c) → ⊥
ok-err h = cc

-- A session that is found is the cell under the token.
pub found-cell :
    (t : String) (s s' : Store) (ss : SessionState)
    → find_by_refresh_token t s ≡ (ok ss, s')
    → (p : ℕ) × (lookup t s.by_refresh_token ≡ some p) × (ss ≡ s.cells p) × (s' ≡ s)
found-cell t s s' ss h = elim (Option-cases (lookup t s.by_refresh_token)) [
  | inl missing ↦ elim (ok-err (ap (λ x. x.0) (sym (find-missing t s missing) ∙ h))) [ ]
  | inr (p, found) ↦
      let same = sym h ∙ find-cell t p s found in
      (p, found, ok_inj (ap (λ x. x.0) same), ap (λ x. x.1) same)
]

pub rotate-cell :
    (id token : String) (p : ℕ) (s : Store)
    → lookup id s.by_session_id ≡ some p
    → rotate_refresh_token id token s ≡ (ok tt, rotated token p s)
unfolding rotate_refresh_token
rotate-cell id token p s found = rw found refl

-- A rotated session's old token is gone.
rotated-old :
    (old new : String) (p : ℕ) (s : Store)
    → (s.cells p).refresh_token ≡ old
    → old ≢ new
    → lookup old (rotated new p s).by_refresh_token ≡ none
rotated-old old new p s token differ =
    lookup-insert_other new old p _ (λ e. differ (sym e))
    ∙ rw token (lookup-erase_same old s.by_refresh_token)

-- Rotating the session of a token to another token succeeds. In the store that it leaves the old
-- token is refused, and the new one leads to the same session with nothing but its token changed. The
-- store's maps are linked, as create and rotate keep them.
pub rotate-replaces :
    (old new : String) (s : Store) (ss : SessionState)
    → IsLinked s
    → find_by_refresh_token old s ≡ (ok ss, s)
    → old ≢ new
    → (s' : Store) × (rotate_refresh_token ss.session_id new s ≡ (ok tt, s'))
      × (find_by_refresh_token old s' ≡ (err expired, s'))
      × (find_by_refresh_token new s' ≡ (ok (record ss { refresh_token = new }), s'))
rotate-replaces old new s ss linked h differ =
    let (p, found, cell, _) = found-cell old s s ss h in
    let (lt, token, own) = linked.token_cell old p found in
    (
      rotated new p s,
      rotate-cell ss.session_id new p s
          (subst (λ c. lookup c.session_id s.by_session_id ≡ some p) (sym cell) own),
      find-missing old (rotated new p s) (rotated-old old new p s token differ),
      find-cell new p (rotated new p s) (lookup-insert_same new p _)
          ∙ ap (λ c. (ok c, rotated new p s))
              (assign-same p (record (s.cells p) { refresh_token = new }) s.cells
                ∙ ap {A = SessionState} {B = SessionState} (λ c. record c { refresh_token = new })
                    (sym cell)),
    )
