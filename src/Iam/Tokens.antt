-- ===== src/Iam/Tokens.antt =====
-- internal/iam/infra/inmemory/tokens.go: opaque tokens and the maps that they are looked up in. The
-- generator of identifiers is a stream, and `next_id` counts what it has given out.
mod Tests
use text.Mathlib.TextLemmas.{append_cancel_left}
use cobo_iam_services.Base.{
  ℕ, ◌+◌, ◌<◌, ◌≤◌, String, ◌<>◌, ◌≡◌, ◌≢◌, refl, subst, sym, ◌∙◌, ap, none, some, Option, List, [],
  ◌∷◌, arith,
}
use cobo_iam_services.Base.Results.{Error, new_http_error, session_expired, Result, ok, err, Exec}
use cobo_iam_services.Dict.{Dict, lookup, insert, lookup-insert_same, lookup-insert_other}
use cobo_iam_services.Iam.{AccessTokenClaims, TokenIssuer}

pub record PreCompanyTokenClaims : Type 0 where
  pub sub : String
  pub session_id : String

pub record TokenManager : Type 0 where
  pub access_tokens : Dict AccessTokenClaims
  pub pre_company_tokens : Dict PreCompanyTokenClaims
  pub next_id : ℕ

abbrev known {ℓ} : {A : Type ℓ} → String → Option A → Result A
known message none = err (new_http_error 401 session_expired message)
known message (some a) = ok a

unfoldable pub inspect_access_token : String → Exec TokenManager AccessTokenClaims
inspect_access_token token m = (known "invalid access token" (lookup token m.access_tokens), m)

unfoldable pub inspect_pre_company_token : String → Exec TokenManager PreCompanyTokenClaims
inspect_pre_company_token token m =
    (known "invalid pre-company token" (lookup token m.pre_company_tokens), m)

ok_inj : {x y : String × ℕ} → ok x ≡ ok y → x ≡ y
ok_inj h = cc

module _ (new_uuid : ℕ → String) where
  unfoldable pub issue_access_token : AccessTokenClaims → Exec TokenManager (String × ℕ)
  issue_access_token claims m =
      let token = "atk_" <> new_uuid m.next_id in
      (
        ok (token, 900),
        record m { access_tokens = insert token claims m.access_tokens; next_id = m.next_id + 1 },
      )

  unfoldable pub issue_pre_company_token : String → String → Exec TokenManager (String × ℕ)
  issue_pre_company_token user_id session_id m =
      let token = "ptk_" <> new_uuid m.next_id in
      (
        ok (token, 900),
        record m {
          pre_company_tokens =
              insert token (record { sub = user_id; session_id = session_id }) m.pre_company_tokens;
          next_id = m.next_id + 1;
        },
      )

  unfoldable pub issue_refresh_token : String → String → Exec TokenManager String
  issue_refresh_token session_id user_id m =
      (ok ("rtk_" <> new_uuid m.next_id), record m { next_id = m.next_id + 1 })

  abbrev pub new_token_manager : TokenIssuer TokenManager
  new_token_manager = record {
    issue_access_token = issue_access_token;
    issue_pre_company_token = issue_pre_company_token;
    issue_refresh_token = issue_refresh_token;
  }

  pub data Issue : Type 0 where
    access : AccessTokenClaims → Issue
    pre_company renewal : String → String → Issue

  abbrev pub after : Issue → TokenManager → TokenManager
  after (access claims) m = (issue_access_token claims m).1
  after (pre_company user_id session_id) m = (issue_pre_company_token user_id session_id m).1
  after (renewal session_id user_id) m = (issue_refresh_token session_id user_id m).1

  unfoldable pub issue_all : List Issue → TokenManager → TokenManager
  issue_all [] m = m
  issue_all (i ∷ issues) m = issue_all issues (after i m)

  -- the token of the `n`-th identifier stands for the claims, and the identifier is given out
  abbrev Stands : ℕ → AccessTokenClaims → TokenManager → Type 0
  Stands n claims m =
      (n < m.next_id) × (lookup ("atk_" <> new_uuid n) m.access_tokens ≡ some claims)

  after-Stands :
      (i : Issue) (n : ℕ) (claims : AccessTokenClaims) (m : TokenManager)
      → ((k l : ℕ) → new_uuid k ≡ new_uuid l → k ≡ l)
      → Stands n claims m
      → Stands n claims (after i m)
  unfolding issue_access_token issue_pre_company_token issue_refresh_token
  after-Stands (access other) n claims m fresh (lt, found) = (
    omega (arith, lt),
    lookup-insert_other ("atk_" <> new_uuid m.next_id) ("atk_" <> new_uuid n) other m.access_tokens
          (λ e.
            let same = fresh m.next_id n (append_cancel_left "atk_" _ _ e) in
            omega (arith, lt, same))
        ∙ found,
  )
  after-Stands (pre_company u s) n claims m fresh (lt, found) = (omega (arith, lt), found)
  after-Stands (renewal s u) n claims m fresh (lt, found) = (omega (arith, lt), found)

  issue_all-Stands :
      (issues : List Issue) (n : ℕ) (claims : AccessTokenClaims) (m : TokenManager)
      → ((k l : ℕ) → new_uuid k ≡ new_uuid l → k ≡ l)
      → Stands n claims m
      → Stands n claims (issue_all issues m)
  unfolding issue_all
  issue_all-Stands [] n claims m fresh stands = stands
  issue_all-Stands (i ∷ issues) n claims m fresh stands =
      issue_all-Stands issues n claims (after i m) fresh (after-Stands i n claims m fresh stands)

  first-Stands :
      (claims : AccessTokenClaims) (m : TokenManager)
      → Stands m.next_id claims (issue_access_token claims m).1
  unfolding issue_access_token
  first-Stands claims m =
      (omega arith, lookup-insert_same ("atk_" <> new_uuid m.next_id) claims m.access_tokens)

  token-issue :
      (claims : AccessTokenClaims) (m m' : TokenManager) (token : String) (ttl : ℕ)
      → issue_access_token claims m ≡ (ok (token, ttl), m')
      → "atk_" <> new_uuid m.next_id ≡ token
  unfolding issue_access_token
  token-issue claims m m' token ttl h = ap (λ x. x.0) (ok_inj (ap (λ x. x.0) h))

  -- An access token is inspected as the claims that it was issued for, whatever tokens are issued
  -- after it, if the generator gives no identifier twice.
  pub inspect-issue :
      (issues : List Issue) (claims : AccessTokenClaims) (token : String) (ttl : ℕ)
      (m m' : TokenManager)
      → ((k l : ℕ) → new_uuid k ≡ new_uuid l → k ≡ l)
      → issue_access_token claims m ≡ (ok (token, ttl), m')
      → (inspect_access_token token (issue_all issues m')).0 ≡ ok claims
  unfolding inspect_access_token
  inspect-issue issues claims token ttl m m' fresh h =
      let stands : Stands m.next_id claims m' =
        subst (λ x. Stands m.next_id claims x) (ap (λ x. x.1) h) (first-Stands claims m) in
      let (lt, found) = issue_all-Stands issues m.next_id claims m' fresh stands in
      ap (λ o. known "invalid access token" o)
        (ap (λ t. lookup t (issue_all issues m').access_tokens)
            (sym (token-issue claims m m' token ttl h))
          ∙ found)
