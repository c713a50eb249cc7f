-- ===== src/Iam/Tests.antt =====
-- A login over the in-memory session store, and the sessions that follow.
use cobo_iam_services.Base.{
  ℕ, String, ◌≡◌, ◌+◌, ◌≢◌, refl, true, false, none, some, Option, [], ◌∷◌, map, arith,
  ne_of_eq-false,
}
use cobo_iam_services.Base.Results.{ok, err}
use cobo_iam_services.Dict.{lookup}
use cobo_iam_services.Iam.{
  AuthenticatedUser, MembershipView, LoginRequest, LoginResponse, SessionState, CreateSessionParams,
  Dependencies,
}
use cobo_iam_services.Iam.Recovery.{Setting, AuthRecoveryRepository, reset_password}
use cobo_iam_services.Iam.Recovery.Reset.{reset_password-Resets, Resets}
use cobo_iam_services.Iam.Sessions.{
  Store, new_session_repository, create, find_by_refresh_token, rotate_refresh_token, list_by_user,
  revoke_all_by_user, revoked_cell, expired, new_session,
}
use cobo_iam_services.Iam.Sessions.Linked.{IsLinked, create-IsLinked}
use cobo_iam_services.Iam.Sessions.Rotation.{rotate-replaces}
use cobo_iam_services.Iam.Sessions.Revocation.{opens, rotates, revokes, run}
use cobo_iam_services.Iam.Sessions.Finality.{revoked-final, run-IsLinked, IsRevoked}
use cobo_iam_services.Iam.Sessions.Everywhere.{revoke_all-lists}
use cobo_iam_services.Iam.Context.{refresh}
use cobo_iam_services.Iam.Context.Replay.{refresh-refresh, over, LeavesSessions}
use cobo_iam_services.Iam.{RefreshResponse}
use cobo_iam_services.Iam.Attempts.{World, attempt}
use cobo_iam_services.Iam.Login.{login}
use cobo_iam_services.Iam.Login.Sound.{login_sound, LogsIn}

abbrev user : AuthenticatedUser
user = record {
  user_id = "u_1";
  login_id = "an@example.com";
  full_name = "An";
  status = "Active";
  subscription_tier = "Free";
}

abbrev membership : MembershipView
membership = record {
  membership_id = "m_1";
  user_id = "u_1";
  company_id = "c_1";
  company_name = "Cobo";
  status = "active";
}

abbrev no_sessions : SessionState
no_sessions = new_session (record {
  session_id = "";
  user_id = "";
  membership_id = "";
  company_id = "";
  refresh_token = "";
  ip = "";
  user_agent = "";
})

abbrev empty : Store
empty = record { cells = λ p. no_sessions; used = 0; by_refresh_token = []; by_session_id = [] }

abbrev dependencies : Dependencies Store
dependencies = record {
  verify = λ id password s. (ok user, s);
  sessions = new_session_repository;
  tokens = record {
    issue_access_token = λ claims s. (ok ("atk", 900), s);
    issue_pre_company_token = λ u sid s. (ok ("ptk", 900), s);
    issue_refresh_token = λ sid u s. (ok "rtk", s);
  };
  memberships = record {
    get_memberships_by_user = λ u s. (ok (membership ∷ []), s);
    get_active_membership = λ u c s. (ok (some membership), s);
    get_membership_roles = λ m s. (ok [], s);
  };
  new_uuid = λ s. ("s_1", s);
  mfa = none;
  sso = none;
  records_attempts = true;
}

abbrev request : LoginRequest
request = record {
  login_id = "an@example.com";
  email = "";
  password = "secret";
  ip = "";
  user_agent = "";
  mfa_otp = "";
}

abbrev at_first : World Store
at_first = record { ports = empty; attempts = [] }

abbrev answer : LoginResponse
answer = record {
  user_id = "u_1";
  full_name = "An";
  session = record {
    access_token = "atk";
    pre_company_token = "";
    refresh_token = "rtk";
    expires_in = 900;
  };
  current_context = some (record { company_id = "c_1"; membership_id = "m_1" });
  memberships = [];
  platform_access_hint = false;
  next_action = "load_effective_access";
}

abbrev after_login : World Store
after_login = (login dependencies request at_first).1

logged_in : login dependencies request at_first ≡ (ok answer, after_login)
unfolding login cobo_iam_services.GoText.trim_space cobo_iam_services.GoText.is_space
    cobo_iam_services.Iam.Attempts.trying cobo_iam_services.GoText.to_lower
    cobo_iam_services.GoText.equal_fold create
logged_in = refl

login_sound_example : LogsIn dependencies request answer after_login
login_sound_example = login_sound dependencies request at_first after_login answer logged_in

abbrev params : CreateSessionParams
params = record {
  session_id = "s_1";
  user_id = "u_1";
  membership_id = "m_1";
  company_id = "c_1";
  refresh_token = "rtk";
  ip = "";
  user_agent = "";
}

abbrev one : Store
one = (create params empty).1

none-some : {p : ℕ} → Path (Option ℕ) none (some p) → ⊥
none-some h = cc

id_is_new : lookup "s_1" empty.by_session_id ≡ none
unfolding lookup
id_is_new = refl

empty-IsLinked : IsLinked empty
unfolding lookup
empty-IsLinked = record {
  token_cell = λ t p h. elim (none-some h) [ ];
  session_cell = λ id p h. elim (none-some h) [ ];
}

run-IsLinked_example : IsLinked (run (opens params ∷ revokes "rtk" ∷ []) empty)
run-IsLinked_example =
    run-IsLinked (opens params ∷ revokes "rtk" ∷ []) empty (id_is_new, (tt, tt)) empty-IsLinked

one-IsLinked : IsLinked one
one-IsLinked = create-IsLinked params empty empty-IsLinked id_is_new

one_found : find_by_refresh_token "rtk" one ≡ (ok (new_session params), one)
unfolding find_by_refresh_token lookup create cobo_iam_services.Dict.insert
one_found = refl

rotate-replaces_example :
    (s' : Store) × (rotate_refresh_token "s_1" "rtk2" one ≡ (ok tt, s'))
    × (find_by_refresh_token "rtk" s' ≡ (err expired, s'))
    × (find_by_refresh_token "rtk2" s'
        ≡ (ok (record (new_session params) { refresh_token = "rtk2" }), s'))
rotate-replaces_example =
    rotate-replaces "rtk" "rtk2" one (new_session params) one-IsLinked one_found
      (ne_of_eq-false {s = "rtk"} {t = "rtk2"} refl)

abbrev revoked_one : Store
revoked_one = (revoke_all_by_user "u_1" "" one).1

listed : list_by_user "u_1" one ≡ (ok (new_session params ∷ []), one)
unfolding list_by_user create cobo_iam_services.Dict.insert
listed = refl

revoke_all-lists_example :
    (list_by_user "u_1" revoked_one
      ≡ (ok (map revoked_cell (new_session params ∷ [])), revoked_one))
    × ((other : String)
        → other ≢ "u_1"
        → (list_by_user other revoked_one).0 ≡ (list_by_user other one).0)
revoke_all-lists_example = revoke_all-lists "u_1" "" one (new_session params ∷ []) listed

abbrev cut : Store
cut = run (opens params ∷ revokes "rtk" ∷ []) empty

cut-IsLinked : IsLinked cut
cut-IsLinked =
    run-IsLinked (opens params ∷ revokes "rtk" ∷ []) empty (id_is_new, (tt, tt)) empty-IsLinked

cut-IsRevoked : IsRevoked "s_1" 0 cut
unfolding IsRevoked run cobo_iam_services.Iam.Sessions.revoke_by_refresh_token lookup create
    cobo_iam_services.Dict.insert
cut-IsRevoked = (omega arith, refl, refl)

abbrev turned_cell : SessionState
turned_cell = record (new_session params) { refresh_token = "rtk2"; revoked = true }

turned_found :
    find_by_refresh_token "rtk2" (run (rotates "s_1" "rtk2" ∷ []) cut)
    ≡ (ok turned_cell, run (rotates "s_1" "rtk2" ∷ []) cut)
unfolding find_by_refresh_token lookup run rotate_refresh_token
    cobo_iam_services.Iam.Sessions.revoke_by_refresh_token create cobo_iam_services.Dict.insert
    cobo_iam_services.Dict.erase
turned_found = refl

revoked-final_example : turned_cell.revoked ≡ true
revoked-final_example =
    revoked-final (rotates "s_1" "rtk2" ∷ []) "s_1" "rtk2" 0 cut
      (run (rotates "s_1" "rtk2" ∷ []) cut) turned_cell cut-IsLinked (tt, tt) cut-IsRevoked
      turned_found refl

abbrev recovery : AuthRecoveryRepository Store
recovery = record {
  find_user_by_email = λ email s. (ok none, s);
  store_password_reset_token = λ t s. (ok tt, s);
  consume_password_reset_token = λ hash now s. (ok "u_1", s);
  store_email_verification_token = λ t s. (ok tt, s);
  consume_email_verification_token = λ hash now s. (ok "u_1", s);
  update_password_hash = λ user_id hash now s. (ok tt, s);
  mark_email_verified = λ user_id now s. (ok tt, s);
}

abbrev setting : Setting Store
setting = record {
  recovery = some recovery;
  outbox = none;
  sessions = new_session_repository;
  new_uuid = λ s. (ok "s_2", s);
  now = λ s. (ok 7, s);
  random_token = λ s. (ok "raw", s);
  hash = λ t. t;
  bcrypt = λ password s. (ok "hash", s);
  encode_token = λ t. t;
  print = λ n. "";
  web_base_url = "http://localhost:5173";
  password_reset_ttl = 30;
  email_verify_ttl = 60;
}

abbrev revoked_by_reset : Store
revoked_by_reset = (revoke_all_by_user "u_1" "password_reset" one).1

reset_done : reset_password setting "token" "a long password" one ≡ (ok tt, revoked_by_reset)
unfolding reset_password cobo_iam_services.GoText.trim_space cobo_iam_services.GoText.is_space
reset_done = refl

reset_password-Resets_example : Resets setting recovery "token" "a long password" revoked_by_reset
reset_password-Resets_example =
    reset_password-Resets setting recovery "token" "a long password" one revoked_by_reset refl
      reset_done

abbrev at_work : Dependencies (Store × ℕ)
at_work = record {
  verify = λ id password s. (ok user, s);
  sessions = over new_session_repository;
  tokens = record {
    issue_access_token = λ claims s. (ok ("atk", 900), s);
    issue_pre_company_token = λ u sid s. (ok ("ptk", 900), s);
    issue_refresh_token = λ sid u s. (ok "rtk2", (s.0, s.1 + 1));
  };
  memberships = record {
    get_memberships_by_user = λ u s. (ok (membership ∷ []), s);
    get_active_membership = λ u c s. (ok (some membership), s);
    get_membership_roles = λ m s. (ok [], s);
  };
  new_uuid = λ s. ("s_2", s);
  mfa = none;
  sso = none;
  records_attempts = false;
}

at_work-LeavesSessions : LeavesSessions at_work
at_work-LeavesSessions = record { access = λ c s. refl; renewal = λ id u s. refl }

abbrev renewed : RefreshResponse
renewed = record {
  access_token = "atk";
  refresh_token = "rtk2";
  expires_in = 900;
  current_context = record { company_id = "c_1"; membership_id = "m_1" };
}

abbrev after_refresh : Store × ℕ
after_refresh = (refresh at_work "rtk" (one, 0)).1

refreshed : refresh at_work "rtk" (one, 0) ≡ (ok renewed, after_refresh)
unfolding refresh cobo_iam_services.GoText.trim_space cobo_iam_services.GoText.is_space
    find_by_refresh_token lookup create cobo_iam_services.Dict.insert rotate_refresh_token
refreshed = refl

refresh-refresh_example : refresh at_work "rtk" after_refresh ≡ (err expired, after_refresh)
refresh-refresh_example =
    refresh-refresh at_work "rtk" (one, 0) after_refresh renewed refl at_work-LeavesSessions
      one-IsLinked refreshed (ne_of_eq-false {s = "rtk"} {t = "rtk2"} refl)
