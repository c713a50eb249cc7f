-- ===== src/Iam/Sessions.antt =====
-- internal/iam/infra/inmemory/sessions.go. Two maps point to shared session cells, so that a write
-- through one is seen through the other: a cell is a number, `cells` the heap.
pub mod Linked
pub mod Rotation
pub mod Revocation
pub mod Finality
pub mod Everywhere
use cobo_iam_services.Base.{
  ℕ, ◌+◌, String, Bool, true, false, not, ◌||◌, Option, none, some, List, [], ◌∷◌, ◌==◌, eqb,
  if◌then◌else◌,
}
use cobo_iam_services.Base.Results.{
  Error, new_http_error, session_expired, membership_not_found, Result, ok, err, Exec,
}
use cobo_iam_services.Dict.{Dict, lookup, insert, erase}
use cobo_iam_services.Iam.{SessionState, CreateSessionParams, SessionRepository}

pub record Store : Type 0 where
  pub cells : ℕ → SessionState
  pub used : ℕ
  pub by_refresh_token : Dict ℕ
  pub by_session_id : Dict ℕ

-- `*p = v`
abbrev pub assign : ℕ → SessionState → (ℕ → SessionState) → ℕ → SessionState
assign p v cells q = if eqb p q then v else cells q

abbrev pub expired : Error
expired = new_http_error 401 session_expired "session expired"

-- `f(p)` for the pointer that a map has under a key
abbrev at {ℓ} : {A : Type ℓ} → Error → Option ℕ → (ℕ → Exec Store A) → Exec Store A
at e none f s = (err e, s)
at e (some p) f s = f p s

abbrev pub revoked_cell : SessionState → SessionState
revoked_cell c = record c { revoked = true }

abbrev write : ℕ → SessionState → Exec Store (Unit {0})
write p c s = (ok tt, record s { cells = assign p c s.cells })

abbrev pub new_session : CreateSessionParams → SessionState
new_session p = record {
  session_id = p.session_id;
  user_id = p.user_id;
  membership_id = p.membership_id;
  company_id = p.company_id;
  refresh_token = p.refresh_token;
  revoked = false;
  ip = p.ip;
  user_agent = p.user_agent;
}

unfoldable pub create : CreateSessionParams → Exec Store (Unit {0})
create p s = (
  ok tt,
  record {
    cells = assign s.used (new_session p) s.cells;
    used = s.used + 1;
    by_refresh_token = insert p.refresh_token s.used s.by_refresh_token;
    by_session_id = insert p.session_id s.used s.by_session_id;
  },
)

unfoldable pub find_by_refresh_token : String → Exec Store SessionState
find_by_refresh_token token s =
    at expired (lookup token s.by_refresh_token) (λ p s'. (ok (s'.cells p), s')) s

unfoldable pub revoke_by_refresh_token : String → Exec Store (Unit {0})
revoke_by_refresh_token token s =
    at expired (lookup token s.by_refresh_token) (λ p s'. write p (revoked_cell (s'.cells p)) s') s

unfoldable pub update_context : String → String → String → Exec Store (Unit {0})
update_context session_id membership_id company_id s =
    at expired (lookup session_id s.by_session_id)
      (λ p s'.
        write p (record (s'.cells p) { membership_id = membership_id; company_id = company_id }) s')
      s

-- the old token is taken out of the map, and the new one put in
abbrev pub rotated : String → ℕ → Store → Store
rotated token p s = record s {
  cells = assign p (record (s.cells p) { refresh_token = token }) s.cells;
  by_refresh_token = insert token p (erase (s.cells p).refresh_token s.by_refresh_token);
}

unfoldable pub rotate_refresh_token : String → String → Exec Store (Unit {0})
rotate_refresh_token session_id token s =
    at expired (lookup session_id s.by_session_id) (λ p s'. (ok tt, rotated token p s')) s

abbrev keep_if : Bool → SessionState → List SessionState → List SessionState
keep_if true c cs = c ∷ cs
keep_if false c cs = cs

unfoldable pub list_loop : String → Dict ℕ → (ℕ → SessionState) → List SessionState
list_loop user_id [] cells = []
list_loop user_id ((id, p) ∷ m) cells =
    keep_if ((cells p).user_id == user_id) (cells p) (list_loop user_id m cells)

unfoldable pub list_by_user : String → Exec Store (List SessionState)
unfolding list_loop
list_by_user user_id s = (ok (list_loop user_id s.by_session_id s.cells), s)

abbrev not_found : Error
not_found = new_http_error 404 membership_not_found "session not found"

unfoldable pub revoke_by_session_id : String → String → Exec Store (Unit {0})
revoke_by_session_id user_id session_id s =
    at not_found (lookup session_id s.by_session_id)
      (λ p s'.
        if (s'.cells p).user_id == user_id
        then write p (revoked_cell (s'.cells p)) s'
        else (err not_found, s'))
      s

abbrev pub revoke_of : String → ℕ → (ℕ → SessionState) → ℕ → SessionState
revoke_of user_id p cells =
    if (cells p).user_id == user_id then assign p (revoked_cell (cells p)) cells else cells

unfoldable pub revoke_loop : String → Dict ℕ → (ℕ → SessionState) → ℕ → SessionState
revoke_loop user_id [] cells = cells
revoke_loop user_id ((id, p) ∷ m) cells = revoke_loop user_id m (revoke_of user_id p cells)

-- The reason is not stored.
unfoldable pub revoke_all_by_user : String → String → Exec Store (Unit {0})
unfolding revoke_loop
revoke_all_by_user user_id reason s =
    (ok tt, record s { cells = revoke_loop user_id s.by_session_id s.cells })

abbrev pub new_session_repository : SessionRepository Store
new_session_repository = record {
  create = create;
  find_by_refresh_token = find_by_refresh_token;
  revoke_by_refresh_token = revoke_by_refresh_token;
  update_context = update_context;
  rotate_refresh_token = rotate_refresh_token;
  list_by_user = list_by_user;
  revoke_by_session_id = revoke_by_session_id;
  revoke_all_by_user = revoke_all_by_user;
}
