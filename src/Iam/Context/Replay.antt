-- ===== src/Iam/Context/Replay.antt =====
-- A refresh token works once, over the in-memory session store beside any state `T` of the others.
use cobo_iam_services.Base.{String, ◌≡◌, ◌≢◌, refl, sym, ◌∙◌, ap, subst, false, ◌||◌, ◌==◌}
use cobo_iam_services.Base.Results.{ok, err, Exec, wrapping, ◌>>=◌}
use cobo_iam_services.Base.Steps.{step-ok, guard-ok}
use cobo_iam_services.GoText.{is_blank}
use cobo_iam_services.Iam.{
  SessionState, SessionRepository, RefreshResponse, Dependencies, AccessTokenClaims,
}
use cobo_iam_services.Iam.Context.{refresh, refresh_session, claims_of, renew, rotate_to}
use cobo_iam_services.Iam.Sessions.{
  Store, new_session_repository, find_by_refresh_token, rotate_refresh_token, expired,
}
use cobo_iam_services.Iam.Sessions.Linked.{IsLinked}
use cobo_iam_services.Iam.Sessions.Rotation.{rotate-replaces, found-cell}

ok_inj : {r u : RefreshResponse} → ok r ≡ ok u → r ≡ u
ok_inj h = cc

module _ {T : Type 0} where
  abbrev beside : {A : Type 0} → Exec Store A → Exec (Store × T) A
  beside m (s, t) = let (r, s') = m s in (r, (s', t))

  abbrev pub over : SessionRepository Store → SessionRepository (Store × T)
  over r = record {
    create = λ p. beside (r.create p);
    find_by_refresh_token = λ token. beside (r.find_by_refresh_token token);
    revoke_by_refresh_token = λ token. beside (r.revoke_by_refresh_token token);
    update_context = λ id m c. beside (r.update_context id m c);
    rotate_refresh_token = λ id token. beside (r.rotate_refresh_token id token);
    list_by_user = λ u. beside (r.list_by_user u);
    revoke_by_session_id = λ u id. beside (r.revoke_by_session_id u id);
    revoke_all_by_user = λ u reason. beside (r.revoke_all_by_user u reason);
  }

  -- Issuing tokens does not touch the session store.
  pub record LeavesSessions (d : Dependencies (Store × T)) : Type 0 where
    pub access :
        (c : AccessTokenClaims) (s : Store × T) → (d.tokens.issue_access_token c s).1.0 ≡ s.0
    pub renewal :
        (id user_id : String) (s : Store × T)
        → (d.tokens.issue_refresh_token id user_id s).1.0 ≡ s.0

  session-rotates :
      (d : Dependencies (Store × T)) (ss : SessionState) (s s' : Store × T) (resp : RefreshResponse)
      → d.sessions ≡ over new_session_repository
      → LeavesSessions d
      → refresh_session d ss s ≡ (ok resp, s')
      → (rotate_refresh_token ss.session_id resp.refresh_token s.0).1 ≡ s'.0
  session-rotates d ss s s' resp wired leaves h =
      let issue = d.tokens.issue_access_token (claims_of d ss) in
      let renewal = d.tokens.issue_refresh_token ss.session_id ss.user_id in
      let begin = wrapping "issue access token" issue >>= renew d ss in
      let (live, h₁) = guard-ok ss.revoked _ _ s s' resp h in
      let (bound, h₂) =
        guard-ok (ss.company_id == "" || ss.membership_id == "") _ begin s s' resp h₁ in
      let (issued, _, h₃) =
        step-ok (wrapping "issue access token" issue) (renew d ss) s s' resp h₂ in
      let s₁ = (issue s).1 in
      let (token, _, h₄) =
        step-ok (wrapping "issue refresh token" renewal) (rotate_to d ss issued) s₁ s' resp h₃ in
      let s₂ = (renewal s₁).1 in
      let rotate = d.sessions.rotate_refresh_token ss.session_id token in
      let answer : RefreshResponse = record {
        access_token = issued.0;
        refresh_token = token;
        expires_in = issued.1;
        current_context = record { company_id = ss.company_id; membership_id = ss.membership_id };
      } in
      let (_, _, h₅) =
        step-ok (wrapping "rotate refresh token" rotate) (λ _ x. (ok answer, x)) s₂ s' resp h₄ in
      let same : resp.refresh_token ≡ token =
        ap (λ x. x.refresh_token) (sym (ok_inj (ap (λ x. x.0) h₅))) in
      let kept : s₂.0 ≡ s.0 =
        leaves.renewal ss.session_id ss.user_id s₁ ∙ leaves.access (claims_of d ss) s in
      let stored : (rotate s₂).1.0 ≡ (rotate_refresh_token ss.session_id token s₂.0).1 =
        ap (λ x. (x.rotate_refresh_token ss.session_id token s₂).1.0) wired in
      ap (λ t. (rotate_refresh_token ss.session_id t s.0).1) same
      ∙ (ap (λ x. (rotate_refresh_token ss.session_id token x).1) (sym kept)
          ∙ (sym stored ∙ ap (λ x. x.1.0) h₅))

  find-over :
      (d : Dependencies (Store × T)) (token : String) (s : Store × T)
      → d.sessions ≡ over new_session_repository
      → d.sessions.find_by_refresh_token token s ≡ beside (find_by_refresh_token token) s
  find-over d token s wired = ap (λ x. x.find_by_refresh_token token s) wired

  refresh-stops :
      (d : Dependencies (Store × T)) (token : String) (s : Store × T)
      → is_blank token ≡ false
      → d.sessions ≡ over new_session_repository
      → find_by_refresh_token token s.0 ≡ (err expired, s.0)
      → refresh d token s ≡ (err expired, s)
  unfolding refresh
  refresh-stops d token s given wired gone =
      let missed : d.sessions.find_by_refresh_token token s ≡ (err expired, s) =
        find-over d token s wired ∙ ap (λ x. (x.0, (x.1, s.1))) gone in
      rw (given, missed) refl

-- A refresh token works once: after a refresh with it has succeeded, a refresh with it again is
-- refused as expired and changes nothing. The sessions are kept in the in-memory store, whose maps
-- are linked, issuing tokens leaves that store alone, and the new token differs from the old one.
pub refresh-refresh :
    {T : Type 0} (d : Dependencies (Store × T)) (token : String) (s s' : Store × T)
    (resp : RefreshResponse)
    → d.sessions ≡ over new_session_repository
    → LeavesSessions d
    → IsLinked s.0
    → refresh d token s ≡ (ok resp, s')
    → token ≢ resp.refresh_token
    → refresh d token s' ≡ (err expired, s')
unfolding refresh
refresh-refresh d token s s' resp wired leaves linked h differ =
    let (given, h₁) =
      guard-ok (is_blank token) _ (d.sessions.find_by_refresh_token token >>= refresh_session d) s
        s' resp h in
    let (ss, found, h₂) =
      step-ok (d.sessions.find_by_refresh_token token) (refresh_session d) s s' resp h₁ in
    let found' : beside (find_by_refresh_token token) s
        ≡ (ok ss, (d.sessions.find_by_refresh_token token s).1) =
      sym (find-over d token s wired) ∙ found in
    let in_store = ap (λ x. (x.0, x.1.0)) found' in
    let (p, at, cell, same) = found-cell token s.0 _ ss in_store in
    let (rotated, done, gone, new) =
      rotate-replaces token resp.refresh_token s.0 ss linked (in_store ∙ ap (λ x. (ok ss, x)) same)
        differ in
    let left : rotated ≡ s'.0 =
      ap (λ x. x.1) (sym done)
      ∙ (ap (λ x. (rotate_refresh_token ss.session_id resp.refresh_token x).1) (sym same)
          ∙ session-rotates d ss (d.sessions.find_by_refresh_token token s).1 s' resp wired leaves
              h₂) in
    refresh-stops d token s' given wired
      (subst (λ x. find_by_refresh_token token x ≡ (err expired, x)) left gone)
