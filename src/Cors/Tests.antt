-- ===== src/Cors/Tests.antt =====
-- A configured list of two origins, a development set-up, and a preflight.
use cobo_iam_services.Base.{String, ◌≡◌, ◌≢◌, ◌↔◌, refl, true, false, Option, none, some, []}
use cobo_iam_services.Cors.{
  Config, Url, is_allowed, build_allowed_origins, normalize_origin, cors_middleware,
}
use cobo_iam_services.Cors.Allowed.{IsConfigured, is_allowed-IsConfigured_iff}

abbrev local : String → Option Url
local s = some (record { scheme = "http"; hostname = "localhost" })

abbrev config : Config
config = record {
  env = "production";
  cors_allowed_origins = "https://a.vn/, ,https://b.vn";
  public_web_base_url = "";
}

abbrev development : Config
development = record config { env = "Development"; cors_allowed_origins = "" }

allows_first : is_allowed local (build_allowed_origins config) "https://a.vn" ≡ true
unfolding is_allowed normalize_origin cobo_iam_services.GoText.trim_space
    cobo_iam_services.GoText.is_space build_allowed_origins cobo_iam_services.GoText.split
allows_first = refl

refuses_other : is_allowed local (build_allowed_origins config) "https://c.vn" ≡ false
unfolding is_allowed normalize_origin cobo_iam_services.GoText.trim_space
    cobo_iam_services.GoText.is_space build_allowed_origins cobo_iam_services.GoText.split
refuses_other = refl

allows_loopback :
    is_allowed local (build_allowed_origins development) "http://localhost:3000" ≡ true
unfolding is_allowed normalize_origin cobo_iam_services.GoText.trim_space
    cobo_iam_services.GoText.is_space build_allowed_origins cobo_iam_services.GoText.equal_fold
allows_loopback = refl

refuses_in_production :
    is_allowed local
      (build_allowed_origins (record development { env = "production" }))
      "http://localhost:3000"
    ≡ false
unfolding is_allowed normalize_origin cobo_iam_services.GoText.trim_space
    cobo_iam_services.GoText.is_space build_allowed_origins cobo_iam_services.GoText.equal_fold
refuses_in_production = refl

preflight :
    (cors_middleware local config
      (λ r w. record w { status = some 500 })
      (record { method = "OPTIONS"; origin = "https://b.vn" })
      (record { header = []; status = none })).status
    ≡ some 204
unfolding cors_middleware cobo_iam_services.GoText.trim_space cobo_iam_services.GoText.is_space
    cobo_iam_services.GoText.split
preflight = refl

filled : cobo_iam_services.GoText.is_blank config.cors_allowed_origins ≡ false
unfolding cobo_iam_services.GoText.trim_space cobo_iam_services.GoText.is_space
filled = refl

is_allowed-IsConfigured_iff_example :
    (is_allowed local (build_allowed_origins config) "https://b.vn" ≡ true)
    ↔ ((normalize_origin "https://b.vn" ≢ "") × IsConfigured config "https://b.vn")
is_allowed-IsConfigured_iff_example = is_allowed-IsConfigured_iff local config "https://b.vn" filled
