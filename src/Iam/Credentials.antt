-- ===== src/Iam/Credentials.antt =====
-- internal/iam/infra/inmemory/credentials.go: the users of a table, by login id, as a verifier of
-- credentials and as the store that account recovery writes to.
mod Tests
use cobo_iam_services.Base.{
  ℕ, String, ◌≡◌, ◌≢◌, refl, ap, sym, ◌∙◌, subst, Bool, true, false, Option, none, some, List, [],
  ◌∷◌, ◌==◌, ◌||◌, not, ◌&&◌, if◌then◌else◌, In, here, there, arith, eq_iff, Bool-cases, inl, inr,
}
use cobo_iam_services.Base.Results.{
  new_http_error, invalid_credentials, membership_not_found, Error, Result, ok, err, Exec, pure,
}
use cobo_iam_services.GoText.{to_lower, trim_space, is_blank}
use cobo_iam_services.Dict.{Dict, lookup, insert, lookup-insert}
use cobo_iam_services.Iam.{AuthenticatedUser}
use cobo_iam_services.Iam.Recovery.{RecoveryUser, AuthRecoveryRepository}

pub record StaticUser : Type 0 where
  pub user_id : String
  pub login_id : String
  pub email : String
  pub password : String
  pub full_name : String
  pub status : String
  pub subscription_tier : String
  pub email_verified_at : Option ℕ

abbrev Users : Type 0
Users = Dict StaticUser

unfoldable pub coalesce : String → String → String
coalesce a b = if is_blank a then b else a

abbrev pub login_key : String → String
login_key login_id = to_lower (trim_space login_id)

unfoldable pub authenticated : StaticUser → AuthenticatedUser
unfolding coalesce
authenticated u = record {
  user_id = u.user_id;
  login_id = u.login_id;
  full_name = u.full_name;
  status = u.status;
  subscription_tier = coalesce (trim_space u.subscription_tier) "Free";
}

abbrev pub refused : Result AuthenticatedUser
refused = err (new_http_error 401 invalid_credentials "invalid credentials")

abbrev check_password : String → Option StaticUser → Result AuthenticatedUser
check_password password none = refused
check_password password (some u) = if u.password == password then ok (authenticated u) else refused

unfoldable pub verify : String → String → Exec Users AuthenticatedUser
verify login_id password users =
    (check_password password (lookup (login_key login_id) users), users)

-- `for k, u := range v.Users { if u.UserID == userID`
unfoldable pub find_user_id : String → Users → Option (String × StaticUser)
find_user_id user_id [] = none
find_user_id user_id ((k, u) ∷ users) =
    let rest = find_user_id user_id users in if u.user_id == user_id then some (k, u) else rest

abbrev known : Option (String × StaticUser) → Result AuthenticatedUser
known none = err (new_http_error 404 membership_not_found "user not found")
known (some (k, u)) = ok (authenticated u)

unfoldable pub get_by_user_id : String → Exec Users AuthenticatedUser
unfolding find_user_id authenticated
get_by_user_id user_id users = (known (find_user_id user_id users), users)

abbrev email_key : String → String
email_key email = trim_space (to_lower email)

unfoldable pub find_email : String → Users → Option RecoveryUser
unfolding coalesce
find_email key [] = none
find_email key ((k, u) ∷ users) =
    let rest = find_email key users in
    if email_key u.email == key || email_key u.login_id == key
    then some (record {
      user_id = u.user_id;
      email = coalesce u.email u.login_id;
      full_name = u.full_name;
      login_id = u.login_id;
    })
    else rest

unfoldable pub find_user_by_email : String → Exec Users (Option RecoveryUser)
unfolding find_email
find_user_by_email email users = (ok (find_email (email_key email) users), users)

abbrev put : (StaticUser → StaticUser) → Option (String × StaticUser) → Users → Users
put change none users = users
put change (some (k, u)) users = insert k (change u) users

unfoldable pub update_password_hash : String → String → ℕ → Exec Users (Unit {0})
unfolding find_user_id
update_password_hash user_id password_hash at users =
    (ok tt, put (λ u. record u { password = password_hash }) (find_user_id user_id users) users)

unfoldable pub mark_email_verified : String → ℕ → Exec Users (Unit {0})
unfolding find_user_id
mark_email_verified user_id verified_at users = (
  ok tt,
  put (λ u. record u { email_verified_at = some verified_at }) (find_user_id user_id users) users,
)

-- Tokens are not stored, and none is found.
unfoldable pub consume_token : String → ℕ → Exec Users String
consume_token token_hash at users = (ok "", users)

unfoldable pub static_recovery : AuthRecoveryRepository Users
unfolding find_user_by_email consume_token update_password_hash mark_email_verified
static_recovery = record {
  find_user_by_email = find_user_by_email;
  store_password_reset_token = λ t. pure tt;
  consume_password_reset_token = consume_token;
  store_email_verification_token = λ t. pure tt;
  consume_email_verification_token = consume_token;
  update_password_hash = update_password_hash;
  mark_email_verified = mark_email_verified;
}

some_inj : {u w : StaticUser} → some u ≡ some w → u ≡ w
some_inj h = cc

find_unique :
    (k : String) (u : StaticUser) (users : Users)
    → lookup k users ≡ some u
    → ((j : String) (w : StaticUser) → In (j, w) users → w.user_id ≡ u.user_id → j ≡ k)
    → find_user_id u.user_id users ≡ some (k, u)
unfolding lookup find_user_id
find_unique k u [] h only = cc
find_unique k u ((j, w) ∷ users) h only = elim (Bool-cases (w.user_id == u.user_id)) [
  | inl same ↦
      let e = only j w here ((eq_iff w.user_id u.user_id).0 same) in
      let found : w ≡ u = some_inj (rw ((eq_iff j k).1 e) at h) in
      rw same (ap (λ p. some p) (ap (λ i. (i, w)) e ∙ ap (λ v. (k, v)) found))
  | inr other ↦ elim (Bool-cases (j == k)) [
    | inl at ↦
        let found : w ≡ u = some_inj (rw at at h) in
        let same = (eq_iff w.user_id u.user_id).1 (ap (λ (v : StaticUser). v.user_id) found) in cc
    | inr away ↦ rw other (find_unique k u users (rw away at h) (λ i v m e. only i v (there m) e))
  ]
]

-- Where a user is stored under a key and every entry with the user's id has that key, an update of
-- the password's hash makes the hash text itself the password: it is what `verify` then accepts for
-- the key, and nothing else is. Every other login is verified as before.
pub verify-update_password_hash :
    (k hash : String) (at : ℕ) (u : StaticUser) (users : Users) (login password : String)
    → lookup k users ≡ some u
    → ((j : String) (w : StaticUser) → In (j, w) users → w.user_id ≡ u.user_id → j ≡ k)
    → (verify login password (update_password_hash u.user_id hash at users).1).0 ≡ (
        if k == login_key login
        then if hash == password then ok (authenticated u) else refused
        else (verify login password users).0)
unfolding verify update_password_hash authenticated
verify-update_password_hash k hash at u users login password h only =
    rw (find_unique k u users h only) (
      rw (lookup-insert k (login_key login) (record u { password = hash }) users)
        (elim (Bool-cases (k == login_key login)) [ inl e ↦ rw e refl | inr n ↦ rw n refl ]))
