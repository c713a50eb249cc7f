-- ===== src/Iam/Login/Sound.antt =====
-- What a login that succeeds has passed: authentication, the status, the second factor and the list
-- of active memberships. It ends by creating the session whose refresh token it returns.
use cobo_iam_services.GoText.{to_lower, is_blank, equal_fold}
use cobo_iam_services.Base.{
  String, ◌≡◌, refl, sym, subst, ◌∙◌, ap, Bool, true, false, ◌||◌, Option, none, some, List, [],
  ◌∷◌, map, ◌==◌, eq_iff, Bool-cases, inl, inr, ◌⊎◌, ◌≢◌,
}
use cobo_iam_services.Base.Results.{ok, Exec}
use cobo_iam_services.Iam.{
  AuthenticatedUser, MembershipView, LoginRequest, LoginResponse, CreateSessionParams, Dependencies,
}
use cobo_iam_services.Iam.Attempts.{World}
use cobo_iam_services.Iam.Login.{
  login, login_id, succeed, start_session, open_session, check_mfa, list_memberships, accept,
  with_password, after_sso, with_sso, active_only, summary,
}
use cobo_iam_services.Iam.Login.Steps.{trying-ok, both, record-ports, fail-not_ok}

-- The memberships of a list whose status is active, letter case aside, in their order.
pub data AreActive : List MembershipView → List MembershipView → Type 0 where
  none_left : AreActive [] []
  takes :
      {m : MembershipView} {ms active : List MembershipView}
      → equal_fold m.status "active" ≡ true
      → AreActive ms active
      → AreActive (m ∷ ms) (m ∷ active)
  skips :
      {m : MembershipView} {ms active : List MembershipView}
      → equal_fold m.status "active" ≢ true
      → AreActive ms active
      → AreActive (m ∷ ms) active

active_only-AreActive : (ms : List MembershipView) → AreActive ms (active_only ms)
unfolding active_only
active_only-AreActive [] = none_left
active_only-AreActive (m ∷ ms) = elim (Bool-cases (equal_fold m.status "active")) [
  | inl is ↦ rw is (takes is (active_only-AreActive ms))
  | inr isnt ↦ rw isnt (skips (λ e. cc) (active_only-AreActive ms))
]

module _ {S : Type 0} (d : Dependencies S) (req : LoginRequest) where
  -- The password was verified, or the bridge handled the request.
  unfoldable pub IsAuthentic : AuthenticatedUser → Type 0
  IsAuthentic user =
      ((s : S) × (s' : S) × (d.verify (login_id req) req.password s ≡ (ok user, s')))
      ⊎ ((try : LoginRequest → Exec S (Option AuthenticatedUser × Bool)) × (s : S) × (s' : S)
          × (d.sso ≡ some try)
          × (try req s ≡ (ok (some user, true), s')))

  unfoldable pub PassesMfa : AuthenticatedUser → Type 0
  PassesMfa user =
      (d.mfa ≡ none)
      ⊎ ((check : AuthenticatedUser → LoginRequest → Exec S (Unit {0})) × (s : S) × (s' : S)
          × (d.mfa ≡ some check)
          × (check user req s ≡ (ok tt, s')))

  -- The user's memberships are `ms`, and `active` those of them that are active, of which there is
  -- one at least.
  unfoldable pub IsMemberList : AuthenticatedUser → List MembershipView → Type 0
  IsMemberList user active =
      (ms : List MembershipView) × (s : S) × (s' : S) × (d.memberships.get_memberships_by_user
          user.user_id s
        ≡ (ok ms, s'))
      × AreActive ms active
      × (active ≢ [])

  -- One active membership is selected; among several the session has no company yet.
  abbrev Selects : List MembershipView → CreateSessionParams → LoginResponse → Type 0
  Selects (m ∷ []) p resp =
      (p.company_id ≡ m.company_id)
      × (p.membership_id ≡ m.membership_id)
      × (resp.current_context
          ≡ some (record { company_id = m.company_id; membership_id = m.membership_id }))
  Selects active p resp =
      (p.company_id ≡ "")
      × (p.membership_id ≡ "")
      × (resp.current_context ≡ none)
      × (resp.memberships ≡ map summary active)

  -- The last write to the dependencies' state creates the session of the token returned.
  unfoldable pub Creates :
      AuthenticatedUser → List MembershipView → LoginResponse → World S → Type 0
  Creates user active resp w' =
      (p : CreateSessionParams) × (s : S) × (d.sessions.create p s ≡ (ok tt, w'.ports))
      × (p.user_id ≡ user.user_id)
      × (resp.user_id ≡ user.user_id)
      × (p.refresh_token ≡ resp.session.refresh_token)
      × Selects active p resp

  succeed-Creates :
      (user : AuthenticatedUser) (ms : List MembershipView) (p : CreateSessionParams) (s : S)
      (resp₀ resp : LoginResponse) (w w' : World S)
      → d.sessions.create p s ≡ (ok tt, w.ports)
      → p.user_id ≡ user.user_id
      → resp₀.user_id ≡ user.user_id
      → p.refresh_token ≡ resp₀.session.refresh_token
      → Selects ms p resp₀
      → succeed d req user resp₀ w ≡ (ok resp, w')
      → Creates user ms resp w'
  unfolding Creates succeed
  succeed-Creates user ms p s resp₀ resp w w' made of_user for_user token selects h =
      let (same, after) = both d req h in
      let ports : w.ports ≡ w'.ports =
        sym (record-ports d req (some user) none w) ∙ ap (λ x. x.ports) after in
      subst (λ r. Creates user ms r w') same
        (p, s, made ∙ ap (λ x. (ok tt, x)) ports, of_user, for_user, token, selects)

  start-Creates :
      (user : AuthenticatedUser) (sid refresh : String) (hint : Bool) (ms : List MembershipView)
      (w w' : World S) (resp : LoginResponse)
      → ms ≢ []
      → start_session d req user sid refresh hint ms w ≡ (ok resp, w')
      → Creates user ms resp w'
  unfolding start_session Creates
  start-Creates user sid refresh hint [] w w' resp some₁ h = elim (some₁ refl) [ ]
  start-Creates user sid refresh hint (m ∷ []) w w' resp some₁ h =
      let (issued, _, h₁) = trying-ok d req _ _ _ _ _ _ _ h in
      let (_, made, h₂) = trying-ok d req _ _ _ _ _ _ _ h₁ in
      succeed-Creates user (m ∷ []) _ _ _ _ _ _ made refl refl refl (refl, refl, refl) h₂
  start-Creates user sid refresh hint (m ∷ (n ∷ ms)) w w' resp some₁ h =
      let (issued, _, h₁) = trying-ok d req _ _ _ _ _ _ _ h in
      let (_, made, h₂) = trying-ok d req _ _ _ _ _ _ _ h₁ in
      succeed-Creates user (m ∷ (n ∷ ms)) _ _ _ _ _ _ made refl refl refl (refl, refl, refl, refl)
        h₂

  open-Creates :
      (user : AuthenticatedUser) (ms : List MembershipView) (w w' : World S) (resp : LoginResponse)
      → open_session d req user ms w ≡ (ok resp, w')
      → (ms ≢ []) × Creates user ms resp w'
  unfolding open_session
  open-Creates user [] w w' resp h = elim (fail-not_ok d req _ _ _ _ _ _ h) [ ]
  open-Creates user (m ∷ ms) w w' resp h =
      let (refresh, _, h₁) = trying-ok d req _ _ _ _ _ _ _ h in
      ((λ e. cc), start-Creates user _ refresh _ (m ∷ ms) _ w' resp (λ e. cc) h₁)

  -- what a login has passed once the user is known
  abbrev Opens : AuthenticatedUser → LoginResponse → World S → Type 0
  Opens user resp w' =
      (active : List MembershipView) × IsMemberList user active × Creates user active resp w'

  list-Opens :
      (user : AuthenticatedUser) (w w' : World S) (resp : LoginResponse)
      → list_memberships d req user w ≡ (ok resp, w')
      → Opens user resp w'
  unfolding list_memberships IsMemberList
  list-Opens user w w' resp h =
      let (ms, listed, h₁) = trying-ok d req _ _ _ _ _ _ _ h in
      let (some₁, made) = open-Creates user (active_only ms) _ w' resp h₁ in
      (active_only ms, (ms, _, _, listed, active_only-AreActive ms, some₁), made)

  mfa-Opens :
      (user : AuthenticatedUser)
      (mfa : Option (AuthenticatedUser → LoginRequest → Exec S (Unit {0}))) (w w' : World S)
      (resp : LoginResponse)
      → d.mfa ≡ mfa
      → check_mfa d req user mfa w ≡ (ok resp, w')
      → PassesMfa user × Opens user resp w'
  unfolding check_mfa PassesMfa
  mfa-Opens user none w w' resp e h = (inl e, list-Opens user w w' resp h)
  mfa-Opens user (some check) w w' resp e h =
      let (_, passed, h₁) = trying-ok d req _ _ _ _ _ _ _ h in
      (inr (check, _, _, e, passed), list-Opens user _ w' resp h₁)

  accept-Opens :
      (user : AuthenticatedUser) (w w' : World S) (resp : LoginResponse)
      → accept d req user w ≡ (ok resp, w')
      → (to_lower user.status ≡ "active") × PassesMfa user × Opens user resp w'
  unfolding accept
  accept-Opens user w w' resp h = elim (Bool-cases (to_lower user.status == "active")) [
    | inl active ↦
        let (mfa, opens) = mfa-Opens user d.mfa w w' resp refl (rw active at h) in
        ((eq_iff _ _).0 active, mfa, opens)
    | inr other ↦ elim (fail-not_ok d req _ _ _ _ _ _ (rw other at h)) [ ]
  ]

  -- the user whom a successful login is for
  unfoldable pub LogsIn : LoginResponse → World S → Type 0
  unfolding IsAuthentic PassesMfa IsMemberList Creates
  LogsIn resp w' =
      (user : AuthenticatedUser) × IsAuthentic user
      × (to_lower user.status ≡ "active")
      × PassesMfa user
      × Opens user resp w'

  accept-LogsIn :
      (user : AuthenticatedUser) (w w' : World S) (resp : LoginResponse)
      → IsAuthentic user
      → accept d req user w ≡ (ok resp, w')
      → LogsIn resp w'
  unfolding LogsIn
  accept-LogsIn user w w' resp authentic h =
      let (active, mfa, opens) = accept-Opens user w w' resp h in
      (user, authentic, active, mfa, opens)

  password-LogsIn :
      (w w' : World S) (resp : LoginResponse)
      → with_password d req w ≡ (ok resp, w')
      → LogsIn resp w'
  unfolding with_password IsAuthentic
  password-LogsIn w w' resp h = elim (Bool-cases (login_id req == "" || is_blank req.password)) [
    | inl missing ↦ elim (fail-not_ok d req _ _ _ _ _ _ (rw missing at h)) [ ]
    | inr given ↦
        let (user, verified, h₁) = trying-ok d req _ _ _ _ _ _ _ (rw given at h) in
        accept-LogsIn user _ w' resp (inl (_, _, verified)) h₁
  ]

  sso-LogsIn :
      (try : LoginRequest → Exec S (Option AuthenticatedUser × Bool)) (s s' : S)
      (r : Option AuthenticatedUser × Bool) (w w' : World S) (resp : LoginResponse)
      → d.sso ≡ some try
      → try req s ≡ (ok r, s')
      → after_sso d req r w ≡ (ok resp, w')
      → LogsIn resp w'
  unfolding after_sso IsAuthentic
  sso-LogsIn try s s' (u, false) w w' resp e tried h = password-LogsIn w w' resp h
  sso-LogsIn try s s' (none, true) w w' resp e tried h = elim (fail-not_ok d req _ _ _ _ _ _ h) [ ]
  sso-LogsIn try s s' (some user, true) w w' resp e tried h =
      accept-LogsIn user w w' resp (inr (try, s, s', e, tried)) h

  with_sso-LogsIn :
      (sso : Option (LoginRequest → Exec S (Option AuthenticatedUser × Bool))) (w w' : World S)
      (resp : LoginResponse)
      → d.sso ≡ sso
      → with_sso d req sso w ≡ (ok resp, w')
      → LogsIn resp w'
  unfolding with_sso
  with_sso-LogsIn none w w' resp e h = password-LogsIn w w' resp h
  with_sso-LogsIn (some try) w w' resp e h =
      let (r, tried, h₁) = trying-ok d req _ _ _ _ _ _ _ h in
      sso-LogsIn try _ _ r _ w' resp e tried h₁

-- A login that succeeds is for a user who was authenticated by password or by the bridge, whose
-- status is active, who passed the second factor where there is one, and who has an active
-- membership. Its last step creates the session of that user whose refresh token it returns, bound
-- to the membership if there is one only, and else to no company.
pub login_sound :
    {S : Type 0} (d : Dependencies S) (req : LoginRequest) (w w' : World S) (resp : LoginResponse)
    → login d req w ≡ (ok resp, w')
    → LogsIn d req resp w'
unfolding login
login_sound d req w w' resp h = with_sso-LogsIn d req d.sso w w' resp refl h
