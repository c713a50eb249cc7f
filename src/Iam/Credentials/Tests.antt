-- ===== src/Iam/Credentials/Tests.antt =====
-- A user of the table, before and after an update of the password's hash.
use cobo_iam_services.Base.{◌≡◌, refl, none, [], ◌∷◌}
use cobo_iam_services.Base.Results.{ok}
use cobo_iam_services.Dict.{Dict}
use cobo_iam_services.Iam.Credentials.{
  StaticUser, authenticated, refused, verify, update_password_hash,
}

abbrev user : StaticUser
user = record {
  user_id = "u_1";
  login_id = "An@X.vn";
  email = "";
  password = "secret";
  full_name = "An";
  status = "active";
  subscription_tier = " ";
  email_verified_at = none;
}

abbrev users : Dict StaticUser
users = ("an@x.vn", user) ∷ []

accepts : (verify " AN@x.vn " "secret" users).0 ≡ ok (authenticated user)
unfolding verify cobo_iam_services.Dict.lookup cobo_iam_services.GoText.to_lower
    cobo_iam_services.GoText.trim_space cobo_iam_services.GoText.is_space
accepts = refl

refuses_new : (verify "an@x.vn" "new" (update_password_hash "u_1" "$2a$new" 5 users).1).0 ≡ refused
unfolding verify cobo_iam_services.Dict.lookup update_password_hash cobo_iam_services.Dict.insert
    cobo_iam_services.GoText.to_lower cobo_iam_services.GoText.trim_space
    cobo_iam_services.GoText.is_space
refuses_new = refl

accepts_hash :
    (verify "an@x.vn" "$2a$new" (update_password_hash "u_1" "$2a$new" 5 users).1).0
    ≡ ok (authenticated user)
unfolding verify cobo_iam_services.Dict.lookup update_password_hash cobo_iam_services.Dict.insert
    cobo_iam_services.GoText.to_lower cobo_iam_services.GoText.trim_space
    cobo_iam_services.GoText.is_space authenticated
accepts_hash = refl
