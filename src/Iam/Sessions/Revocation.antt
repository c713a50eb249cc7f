-- ===== src/Iam/Sessions/Revocation.antt =====
-- A revoked session stays revoked, whatever is done to the store, and no token revives it.
use cobo_iam_services.Base.{
  ℕ, String, ◌≡◌, refl, sym, subst, ◌∙◌, ap, true, none, some, List, [], ◌∷◌, ◌==◌, eqb, arith, inl,
  inr, Bool-cases, Option-cases,
}
use cobo_iam_services.Dict.{Dict, lookup}
use cobo_iam_services.Iam.{SessionState, CreateSessionParams}
use cobo_iam_services.Iam.Sessions.{
  Store, create, rotate_refresh_token, revoke_by_refresh_token, update_context,
  revoke_by_session_id, revoke_all_by_user, revoke_loop, revoke_of, assign, rotated,
}
use cobo_iam_services.Iam.Sessions.Linked.{IsLinked}

pub data Op : Type 0 where
  opens : CreateSessionParams → Op
  revokes : String → Op
  binds : String → String → String → Op
  rotates : String → String → Op
  revokes_one : String → String → Op
  revokes_all : String → Op

abbrev pub step : Op → Store → Store
step (opens p) s = (create p s).1
step (revokes token) s = (revoke_by_refresh_token token s).1
step (binds id membership_id company_id) s = (update_context id membership_id company_id s).1
step (rotates id token) s = (rotate_refresh_token id token s).1
step (revokes_one user_id id) s = (revoke_by_session_id user_id id s).1
step (revokes_all user_id) s = (revoke_all_by_user user_id "" s).1

unfoldable pub run : List Op → Store → Store
run [] s = s
run (o ∷ ops) s = run ops (step o s)

abbrev pub IsNew : Op → Store → Type 0
IsNew (opens p) s = lookup p.session_id s.by_session_id ≡ none
IsNew o s = Unit

-- Each session is opened under an id that none has.
abbrev pub AllNew : List Op → Store → Type 0
AllNew [] s = Unit
AllNew (o ∷ ops) s = IsNew o s × AllNew ops (step o s)

-- The cells are the same sessions, with the same tokens, and none is revived.
unfoldable pub Keeps : (ℕ → SessionState) → (ℕ → SessionState) → Type 0
Keeps cells cells' =
    (q : ℕ)
    → ((cells' q).session_id ≡ (cells q).session_id)
      × ((cells' q).refresh_token ≡ (cells q).refresh_token)
      × ((cells q).revoked ≡ true → (cells' q).revoked ≡ true)

assign-Keeps :
    (p : ℕ) (c : SessionState) (cells : ℕ → SessionState)
    → c.session_id ≡ (cells p).session_id
    → c.refresh_token ≡ (cells p).refresh_token
    → ((cells p).revoked ≡ true → c.revoked ≡ true)
    → Keeps cells (assign p c cells)
unfolding Keeps
assign-Keeps p c cells id token revoked = λ q. elim (Bool-cases (eqb p q)) [
  | inl e ↦
      let at : p ≡ q = ground (arith, e) in
      rw e (
        id ∙ ap (λ x. (cells x).session_id) at,
        token ∙ ap (λ x. (cells x).refresh_token) at,
        λ h. revoked (subst (λ x. (cells x).revoked ≡ true) (sym at) h),
      )
  | inr n ↦ rw n (refl, refl, λ h. h)
]

Keeps-same : (cells : ℕ → SessionState) → Keeps cells cells
unfolding Keeps
Keeps-same cells = λ q. (refl, refl, λ h. h)

Keeps-trans : (c₁ c₂ c₃ : ℕ → SessionState) → Keeps c₁ c₂ → Keeps c₂ c₃ → Keeps c₁ c₃
unfolding Keeps
Keeps-trans c₁ c₂ c₃ h₁ h₂ = λ q.
    let (id₁, token₁, revoked₁) = h₁ q in
    let (id₂, token₂, revoked₂) = h₂ q in (id₂ ∙ id₁, token₂ ∙ token₁, λ h. revoked₂ (revoked₁ h))

revoke_of-Keeps :
    (user_id : String) (p : ℕ) (cells : ℕ → SessionState) → Keeps cells (revoke_of user_id p cells)
revoke_of-Keeps user_id p cells = elim (Bool-cases ((cells p).user_id == user_id)) [
  | inl e ↦ rw e (assign-Keeps p _ cells refl refl (λ h. refl))
  | inr n ↦ rw n (Keeps-same cells)
]

pub loop-Keeps :
    (user_id : String) (m : Dict ℕ) (cells : ℕ → SessionState)
    → Keeps cells (revoke_loop user_id m cells)
unfolding revoke_loop
loop-Keeps user_id [] cells = Keeps-same cells
loop-Keeps user_id ((id, p) ∷ m) cells =
    Keeps-trans _ _ _ (revoke_of-Keeps user_id p cells)
      (loop-Keeps user_id m (revoke_of user_id p cells))

pub Keeps-IsLinked :
    (s : Store) (cells : ℕ → SessionState)
    → Keeps s.cells cells
    → IsLinked s
    → IsLinked (record s { cells = cells })
unfolding Keeps
Keeps-IsLinked s cells keeps linked = record {
  token_cell = λ t p h.
      let (lt, token, id) = linked.token_cell t p h in
      let (id', token', _) = keeps p in
      (lt, token' ∙ token, subst (λ i. lookup i s.by_session_id ≡ some p) (sym id') id);
  session_cell = λ id p h. let (lt, same) = linked.session_cell id p h in (lt, (keeps p).0 ∙ same);
}

-- What a step does to the store: a new session, a rotation, or a write to the cells alone.
pub data Change (s : Store) : Store → Type 0 where
  opened :
      (p : CreateSessionParams)
      → lookup p.session_id s.by_session_id ≡ none
      → Change s (create p s).1
  turned :
      (id token : String) (p : ℕ)
      → lookup id s.by_session_id ≡ some p
      → Change s (rotated token p s)
  written : (cells : ℕ → SessionState) → Keeps s.cells cells → Change s (record s { cells = cells })

pub step-Change : (o : Op) (s : Store) → IsNew o s → Change s (step o s)
unfolding revoke_by_refresh_token update_context rotate_refresh_token revoke_by_session_id
    revoke_all_by_user
step-Change (opens p) s new = opened p new
step-Change (revokes token) s new = elim (Option-cases (lookup token s.by_refresh_token)) [
  | inl missing ↦ rw (missing, step) (written s.cells (Keeps-same s.cells))
  | inr (p, found) ↦ rw (found, step) (written _ (assign-Keeps p _ s.cells refl refl (λ h. refl)))
]
step-Change (binds id membership_id company_id) s new =
    elim (Option-cases (lookup id s.by_session_id)) [
      | inl missing ↦ rw (missing, step) (written s.cells (Keeps-same s.cells))
      | inr (p, found) ↦ rw (found, step) (written _ (assign-Keeps p _ s.cells refl refl (λ h. h)))
    ]
step-Change (rotates id token) s new = elim (Option-cases (lookup id s.by_session_id)) [
  | inl missing ↦ rw (missing, step) (written s.cells (Keeps-same s.cells))
  | inr (p, found) ↦ rw (found, step) (turned id token p found)
]
step-Change (revokes_one user_id id) s new = elim (Option-cases (lookup id s.by_session_id)) [
  | inl missing ↦ rw (missing, step) (written s.cells (Keeps-same s.cells))
  | inr (p, found) ↦ elim (Bool-cases ((s.cells p).user_id == user_id)) [
    | inl e ↦ rw (found, e, step) (written _ (assign-Keeps p _ s.cells refl refl (λ h. refl)))
    | inr n ↦ rw (found, n, step) (written s.cells (Keeps-same s.cells))
  ]
]
step-Change (revokes_all user_id) s new = written _ (loop-Keeps user_id s.by_session_id s.cells)
