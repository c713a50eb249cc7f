-- ===== src/Iam/Sessions/Linked.antt =====
-- The invariant of the two maps: the cell under a token has that token, the cell under an id has
-- that id, and a session that a token leads to is the one under its id.
use cobo_iam_services.Base.{
  ℕ, ◌<◌, String, ◌≡◌, ◌≢◌, refl, sym, subst, ◌∙◌, none, some, arith, inl, inr,
}
use cobo_iam_services.Dict.{
  lookup, erase, lookup-insert_cases, lookup-insert_same, lookup-insert_other, lookup-erase_cases,
}
use cobo_iam_services.Iam.{SessionState, CreateSessionParams}
use cobo_iam_services.Iam.Sessions.{Store, create, assign, new_session, rotated}

pub record IsLinked (s : Store) : Type 0 where
  pub token_cell :
      (t : String) (p : ℕ)
      → lookup t s.by_refresh_token ≡ some p
      → (p < s.used)
        × ((s.cells p).refresh_token ≡ t)
        × (lookup (s.cells p).session_id s.by_session_id ≡ some p)
  pub session_cell :
      (id : String) (p : ℕ)
      → lookup id s.by_session_id ≡ some p
      → (p < s.used) × ((s.cells p).session_id ≡ id)

pub assign-same : (p : ℕ) (c : SessionState) (cells : ℕ → SessionState) → assign p c cells p ≡ c
assign-same p c cells = ground arith

pub assign-other :
    (p q : ℕ) (c : SessionState) (cells : ℕ → SessionState) → p ≢ q → assign p c cells q ≡ cells q
assign-other p q c cells differ = ground (arith, differ)

same-session :
    (p q : ℕ) (token : String) (cells : ℕ → SessionState)
    → (assign p (record (cells p) { refresh_token = token }) cells q).session_id
      ≡ (cells q).session_id
same-session p q token cells = ground arith

-- A new session is linked, if its id and its token are new.
pub create-IsLinked :
    (p : CreateSessionParams) (s : Store)
    → IsLinked s
    → lookup p.session_id s.by_session_id ≡ none
    → IsLinked (create p s).1
unfolding create
create-IsLinked p s linked new_id = record {
  token_cell = λ t q h. elim (lookup-insert_cases p.refresh_token t s.used q s.by_refresh_token h) [
    | inl (at, is) ↦
        rw (sym is, sym at, assign-same s.used (new_session p) s.cells)
          (omega arith, refl, lookup-insert_same p.session_id s.used s.by_session_id)
    | inr before ↦
        let (lt, token, id) = linked.token_cell t q before in
        rw (assign-other s.used q (new_session p) s.cells (λ e. omega (arith, e, lt))) (
          omega (arith, lt),
          token,
          lookup-insert_other p.session_id _ s.used s.by_session_id (λ e. cc) ∙ id,
        )
  ];
  session_cell = λ id q h. elim (lookup-insert_cases p.session_id id s.used q s.by_session_id h) [
    | inl (at, is) ↦ rw (sym is, assign-same s.used (new_session p) s.cells) (omega arith, at)
    | inr before ↦
        let (lt, same) = linked.session_cell id q before in
        rw (assign-other s.used q (new_session p) s.cells (λ e. omega (arith, e, lt)))
          (omega (arith, lt), same)
  ];
}

-- Rotation keeps the links.
pub rotated-IsLinked :
    (id token : String) (p : ℕ) (s : Store)
    → IsLinked s
    → lookup id s.by_session_id ≡ some p
    → IsLinked (rotated token p s)
rotated-IsLinked id token p s linked found =
    let (lt, same) = linked.session_cell id p found in
    let own : lookup (s.cells p).session_id s.by_session_id ≡ some p =
      subst (λ i. lookup i s.by_session_id ≡ some p) (sym same) found in
    record {
      token_cell = λ t q h.
          elim (lookup-insert_cases token t p q (erase (s.cells p).refresh_token s.by_refresh_token)
            h) [
              | inl (at, is) ↦
                  rw (sym is, assign-same p (record (s.cells p) { refresh_token = token }) s.cells)
                    (lt, at, own)
              | inr before ↦
                  let (old, before') = lookup-erase_cases _ t q s.by_refresh_token before in
                  let (lt', token', id') = linked.token_cell t q before' in
                  rw
                    (assign-other p q (record (s.cells p) { refresh_token = token }) s.cells
                      (λ e. old (subst (λ x. (s.cells x).refresh_token ≡ t) (sym e) token')))
                    (lt', token', id')
            ];
      session_cell = λ id' q h.
          let (lt', same') = linked.session_cell id' q h in
          (lt', same-session p q token s.cells ∙ same');
    }
