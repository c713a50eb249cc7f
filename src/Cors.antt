-- ===== src/Cors.antt =====
-- internal/httpserver/cors.go: which origins may call the service from a browser, and the middleware
-- that says so. `url.Parse` and the handler behind the middleware are arguments.
pub mod Allowed
mod Tests
use Prim.Native.Char.{code}
use cobo_iam_services.Base.{
  ℕ, String, ◌≡◌, ◌≢◌, ◌↔◌, refl, ap, sym, ◌∙◌, subst, Bool, true, false, not, ◌&&◌, ◌||◌, Option,
  none, some, List, [], ◌∷◌, ◌==◌, ◌<>◌, eqb, if◌then◌else◌, In, here, there, arith, eq_iff,
  Bool-cases, inl, inr, ◌⊎◌,
}
use cobo_iam_services.GoText.{is_blank, trim_space, split, equal_fold}
use cobo_iam_services.Dict.{Dict, insert}

-- the fields of config.Config that are read here
pub record Config : Type 0 where
  pub env : String
  pub cors_allowed_origins : String
  pub public_web_base_url : String

pub record Url : Type 0 where
  pub scheme : String
  pub hostname : String

pub record Request : Type 0 where
  pub method : String
  pub origin : String

-- A response whose handler writes no status has 200; it is `none` here.
pub record Response : Type 0 where
  pub header : Dict String
  pub status : Option ℕ

pub record OriginAllowlist : Type 0 where
  pub mode : String
  pub explicit : List String
  pub public_base : String

-- `strings.TrimSuffix(s, "/")`
unfoldable pub trim_slash : String → String
trim_slash String.[] = ""
trim_slash (String.◌∷◌ c String.[]) = if eqb (code c) 0x2F then "" else String.◌∷◌ c ""
trim_slash (String.◌∷◌ c (String.◌∷◌ d s)) = String.◌∷◌ c (trim_slash (String.◌∷◌ d s))

unfoldable pub normalize_origin : String → String
unfolding trim_slash
normalize_origin s = trim_slash (trim_space s)

unfoldable pub is_one_of : String → List String → Bool
is_one_of s [] = false
is_one_of s (t ∷ ts) = t == s || is_one_of s ts

-- The set of the loop over the parts, as a list.
unfoldable pub explicit_origins : List String → List String
unfolding normalize_origin
explicit_origins [] = []
explicit_origins (p ∷ parts) =
    let rest = explicit_origins parts in
    if is_blank p then rest else normalize_origin (trim_space p) ∷ rest

unfoldable pub build_allowed_origins : Config → OriginAllowlist
unfolding explicit_origins
build_allowed_origins cfg =
    if not (is_blank cfg.cors_allowed_origins)
    then record {
      mode = "explicit";
      explicit = explicit_origins (split 0x2C (trim_space cfg.cors_allowed_origins));
      public_base = "";
    }
    else if not (equal_fold cfg.env "development")
    then record { mode = "deny"; explicit = []; public_base = "" }
    else record {
      mode = "dev";
      explicit = [];
      public_base = normalize_origin cfg.public_web_base_url;
    }

module _ (parse_url : String → Option Url) where
  abbrev is_loopback_url : Option Url → Bool
  is_loopback_url none = false
  is_loopback_url (some u) =
      if not (u.scheme == "http") && not (u.scheme == "https")
      then false
      else u.hostname == "localhost" || u.hostname == "127.0.0.1" || u.hostname == "::1"

  unfoldable pub is_loopback_origin : String → Bool
  is_loopback_origin origin = is_loopback_url (parse_url origin)

  unfoldable pub is_allowed : OriginAllowlist → String → Bool
  unfolding is_one_of is_loopback_origin
  is_allowed a origin =
      let n = normalize_origin origin in
      if n == ""
      then false
      else if a.mode == "deny"
      then false
      else if a.mode == "explicit"
      then is_one_of n a.explicit
      else if a.mode == "dev"
      then (not (a.public_base == "") && n == a.public_base) || is_loopback_origin n
      else false

  abbrev allow_header : String
  allow_header =
      "Authorization, Content-Type, " <> "X-Request-Id" <> ", Idempotency-Key, X-Idempotency-Key"

  unfoldable pub cors_headers : String → Dict String → Dict String
  cors_headers origin header =
      insert "Access-Control-Allow-Methods" "GET, POST, PUT, PATCH, DELETE, OPTIONS" (
        insert "Access-Control-Allow-Headers" allow_header
          (insert "Vary" "Origin" (insert "Access-Control-Allow-Origin" origin header)))

  unfoldable pub cors_middleware :
      Config → (Request → Response → Response) → Request → Response → Response
  unfolding is_allowed cors_headers build_allowed_origins
  cors_middleware cfg next r w =
      let allowed = not (r.origin == "") && is_allowed (build_allowed_origins cfg) r.origin in
      let w₁ = if allowed then record w { header = cors_headers r.origin w.header } else w in
      if r.method == "OPTIONS" && allowed then record w₁ { status = some 204 } else next r w₁
