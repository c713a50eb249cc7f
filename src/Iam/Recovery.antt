-- ===== src/Iam/Recovery.antt =====
-- internal/iam/app/service.go: ForgotPassword, ResendVerificationEmail, ResetPassword, VerifyEmail and
-- what they share. The random token, the hash of a token, bcrypt, the query encoding of a token and
-- the printing of a number are parameters. Times are nanoseconds.
pub mod Reset
use Prim.Native.Char.{Char, code}
use cobo_iam_services.Base.{
  ℕ, ◌/◌, ◌+◌, ◌*◌, ◌^◌, String, ◌<>◌, Bool, true, false, not, ◌||◌, Option, none, some, List, [],
  ◌∷◌, ◌==◌, ltb, eqb, if◌then◌else◌,
}
use cobo_iam_services.Base.Results.{
  invalid_request, password_reset_token_invalid, email_verification_token_invalid, new_http_error,
  Error, Result, ok, err, Exec, pure, raise, unless, wrapping, ◌>>=◌, ◌>>◌,
}
use cobo_iam_services.GoText.{trim_space, is_blank, to_lower, has_prefix, byte_length}
use cobo_iam_services.Dict.{Dict}
use cobo_iam_services.Iam.{SessionRepository}

pub record RecoveryUser : Type 0 where
  pub user_id : String
  pub email : String
  pub full_name : String
  pub login_id : String

pub record RecoveryTokenRecord : Type 0 where
  pub token_id : String
  pub user_id : String
  pub token_hash : String
  pub expires_at : ℕ

pub record AuthRecoveryRepository (S : Type 0) : Type 0 where
  pub find_user_by_email : String → Exec S (Option RecoveryUser)
  pub store_password_reset_token : RecoveryTokenRecord → Exec S (Unit {0})
  pub consume_password_reset_token : String → ℕ → Exec S String
  pub store_email_verification_token : RecoveryTokenRecord → Exec S (Unit {0})
  pub consume_email_verification_token : String → ℕ → Exec S String
  pub update_password_hash : String → String → ℕ → Exec S (Unit {0})
  pub mark_email_verified : String → ℕ → Exec S (Unit {0})

-- platform/events/event.go
pub record Event : Type 0 where
  pub event_id : String
  pub aggregate_type : String
  pub aggregate_id : String
  pub event_type : String
  pub payload : Dict String
  pub occurred_at : ℕ

-- What the four operations use; `outbox` is its `Publish`.
pub record Setting (S : Type 0) : Type 0 where
  pub recovery : Option (AuthRecoveryRepository S)
  pub outbox : Option (Event → Exec S (Unit {0}))
  pub sessions : SessionRepository S
  pub new_uuid : Exec S String
  pub now : Exec S ℕ
  pub random_token : Exec S String
  pub hash : String → String
  pub bcrypt : String → Exec S String
  pub encode_token : String → String
  pub print : ℕ → String
  pub web_base_url : String
  pub password_reset_ttl : ℕ
  pub email_verify_ttl : ℕ

abbrev minute : ℕ
minute = 60 * 10 ^ 9

abbrev keep_unless_slash : Char → String → String
keep_unless_slash c String.[] = if eqb (code c) b'/' then "" else String.◌∷◌ c ""
keep_unless_slash c (String.◌∷◌ d s) = String.◌∷◌ c (String.◌∷◌ d s)

-- `strings.TrimRight(s, "/")`
unfoldable pub trim_slashes : String → String
trim_slashes String.[] = ""
trim_slashes (String.◌∷◌ c s) = keep_unless_slash c (trim_slashes s)

abbrev pub coalesce : String → String → String
coalesce a b = if is_blank a then b else a

abbrev pub whose : Error → Result String → Result String
whose e (err f) = err e
whose e (ok u) = if is_blank u then err e else ok u

-- the user of a token that was consumed, if there is one
abbrev pub consumed {ℓ} : {S : Type ℓ} → Error → Exec S String → Exec S String
consumed e m s = let (r, s') = m s in (whose e r, s')

abbrev pub too_short : Error
too_short = new_http_error 422 invalid_request "new_password must be at least 12 characters"

abbrev pub reset_invalid : Error
reset_invalid = new_http_error 401 password_reset_token_invalid "reset token invalid or expired"

module _ {S : Type 0} (d : Setting S) where
  unfoldable pub build_action_link : String → String → String
  build_action_link path token =
      trim_slashes d.web_base_url <> path <> "?" <> "token=" <> d.encode_token token

  abbrev publish_to :
      Option (Event → Exec S (Unit {0})) → String → String → Dict String → Exec S (Unit {0})
  publish_to none event_type user_id payload = pure tt
  publish_to (some publish) event_type user_id payload = do
    id ← d.new_uuid
    now ← d.now
    publish (record {
      event_id = id;
      aggregate_type = "user";
      aggregate_id = user_id;
      event_type = event_type;
      payload = payload;
      occurred_at = now;
    })

  -- What goes wrong in publishing is dropped.
  unfoldable pub publish_email : String → String → Dict String → Exec S (Unit {0})
  publish_email event_type user_id payload s =
      (ok tt, (publish_to d.outbox event_type user_id payload s).1)

  -- the two mails with a link
  pub record Mail : Type 0 where
    pub generate_note : String
    pub store_note : String
    pub store : RecoveryTokenRecord → Exec S (Unit {0})
    pub ttl : ℕ
    pub event_type : String
    pub subject : String
    pub body : String → String → String
    pub path : String

  abbrev send_link : Mail → RecoveryUser → Exec S (Unit {0})
  send_link m user = do
    raw ← wrapping m.generate_note d.random_token
    id ← d.new_uuid
    now ← d.now
    wrapping m.store_note (
        m.store (record {
          token_id = id;
          user_id = user.user_id;
          token_hash = d.hash raw;
          expires_at = now + m.ttl;
        }))
    publish_email m.event_type user.user_id (
        ("to", user.email)
        ∷ ("subject", m.subject)
        ∷ ("body", m.body (coalesce user.full_name user.login_id) (build_action_link m.path raw))
        ∷ [])

  -- An unknown address gets the answer that a known one gets.
  abbrev found : Mail → Result (Option RecoveryUser) → Exec S (Unit {0})
  found m (err e) = pure tt
  found m (ok none) = pure tt
  found m (ok (some user)) = send_link m user

  abbrev mail_to : Mail → AuthRecoveryRepository S → String → Exec S (Unit {0})
  mail_to m r email s = let (user, s') = r.find_user_by_email email s in found m user s'

  abbrev reset_mail : AuthRecoveryRepository S → Mail
  reset_mail r = record {
    generate_note = "generate reset token";
    store_note = "store password reset token";
    store = r.store_password_reset_token;
    ttl = d.password_reset_ttl;
    event_type = "auth.password_reset_requested";
    subject = "Reset your password";
    body = λ name link.
        "Xin chao "
        <> name
        <> ",\n\nVui long dat lai mat khau qua link sau:\n"
        <> link
        <> "\n\nLink het han sau "
        <> d.print (d.password_reset_ttl / minute)
        <> " phut.";
    path = "/reset-password";
  }

  abbrev verify_mail : AuthRecoveryRepository S → Mail
  verify_mail r = record {
    generate_note = "generate verification token";
    store_note = "store email verification token";
    store = r.store_email_verification_token;
    ttl = d.email_verify_ttl;
    event_type = "auth.email_verification_requested";
    subject = "Verify your email";
    body = λ name link.
        "Xin chao "
        <> name
        <> ",\n\nVui long xac thuc email qua link sau:\n"
        <> link
        <> "\n\nLink het han trong "
        <> d.print (d.email_verify_ttl / (60 * minute))
        <> " gio.";
    path = "/verify-email";
  }

  abbrev email_required : Error
  email_required = new_http_error 400 invalid_request "email is required"

  abbrev mail_link :
      Option (AuthRecoveryRepository S)
      → (AuthRecoveryRepository S → Mail)
      → String
      → Exec S (Unit {0})
  mail_link none mail email = pure tt
  mail_link (some r) mail email = mail_to (mail r) r email

  unfoldable pub forgot_password : String → Exec S (Unit {0})
  forgot_password email =
      unless (trim_space (to_lower email) == "") email_required
        (mail_link d.recovery reset_mail (trim_space (to_lower email)))

  unfoldable pub resend_verification_email : String → Exec S (Unit {0})
  resend_verification_email email =
      unless (trim_space (to_lower email) == "") email_required
        (mail_link d.recovery verify_mail (trim_space (to_lower email)))

  -- The result of revoking the sessions is dropped.
  abbrev end_sessions : String → Exec S (Unit {0})
  end_sessions user_id s = (ok tt, (d.sessions.revoke_all_by_user user_id "password_reset" s).1)

  abbrev save_hash : AuthRecoveryRepository S → String → String → ℕ → Exec S (Unit {0})
  save_hash r user_id hash now =
      wrapping "update password hash" (r.update_password_hash user_id hash now)
      >> end_sessions user_id

  abbrev change_hash : AuthRecoveryRepository S → String → String → Exec S (Unit {0})
  change_hash r user_id hash = d.now >>= save_hash r user_id hash

  abbrev change_password : AuthRecoveryRepository S → String → String → Exec S (Unit {0})
  change_password r new_password user_id =
      wrapping "hash password" (d.bcrypt new_password) >>= change_hash r user_id

  abbrev set_password : AuthRecoveryRepository S → String → String → Exec S (Unit {0})
  set_password r new_password user_id =
      unless (ltb (byte_length (trim_space new_password)) 12) too_short
        (change_password r new_password user_id)

  abbrev reset_with : Option (AuthRecoveryRepository S) → String → String → Exec S (Unit {0})
  reset_with none token new_password =
      unless (not (has_prefix (trim_space token) "mock-reset-")) reset_invalid (pure tt)
  reset_with (some r) token new_password = do
    now ← d.now
    user_id ←
        consumed reset_invalid (r.consume_password_reset_token (d.hash (trim_space token)) now)
    set_password r new_password user_id

  unfoldable pub reset_password : String → String → Exec S (Unit {0})
  reset_password token new_password =
      unless (is_blank token || is_blank new_password)
        (new_http_error 400 invalid_request "token and new_password are required")
        (reset_with d.recovery token new_password)

  abbrev verify_invalid : Error
  verify_invalid =
      new_http_error 401 email_verification_token_invalid "verification token invalid or expired"

  abbrev verify_with : Option (AuthRecoveryRepository S) → String → Exec S (Unit {0})
  verify_with none token =
      unless (not (has_prefix (trim_space token) "mock-verify-")) verify_invalid (pure tt)
  verify_with (some r) token = do
    now ← d.now
    user_id ←
        consumed verify_invalid (r.consume_email_verification_token (d.hash (trim_space token)) now)
    at ← d.now
    wrapping "mark email verified" (r.mark_email_verified user_id at)

  unfoldable pub verify_email : String → Exec S (Unit {0})
  verify_email token =
      unless (is_blank token) (new_http_error 400 invalid_request "token is required")
        (verify_with d.recovery token)
