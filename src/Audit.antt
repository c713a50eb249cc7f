-- ===== src/Audit.antt =====
-- internal/audit: the log of infra/inmemory/repository.go and appimpl/service.go, which appends to it.
-- The parsing of RFC 3339 times is an argument, and an instant is a number.
pub mod Listed
mod Tests
use cobo_iam_services.Base.{
  ℕ, String, Bool, true, false, not, ◌&&◌, ◌||◌, Option, none, some, List, [], ◌∷◌, ◌++◌, ◌==◌, ltb,
  leb, eqb, if◌then◌else◌, length,
}
use cobo_iam_services.Base.Results.{Result, ok, err, Exec, wrapping}
use cobo_iam_services.GoText.{is_blank, trim_space, equal_fold}
use cobo_iam_services.Disclosure.Types.{Fields}

-- A nil map of metadata is `none`.
pub record Entry : Type 0 where
  pub event_id : String
  pub occurred_at : String
  pub actor_user_id : String
  pub actor_membership_id : String
  pub company_id : String
  pub action : String
  pub resource_type : String
  pub resource_id : String
  pub decision : String
  pub request_id : String
  pub ip : String
  pub user_agent : String
  pub effective_permissions_snapshot : Fields
  pub effective_scope_snapshot : Fields
  pub metadata : Option Fields

-- the arguments of `ListByCompany`
pub record Query : Type 0 where
  pub company_id : String
  pub action : String
  pub resource_type : String
  pub resource_id : String
  pub from_occurred_at : String
  pub to_occurred_at : String
  pub cursor : String
  pub limit : ℕ

-- The entries, the oldest first.
abbrev pub Repository : Type 0
Repository = List Entry

unfoldable pub append : Entry → Exec Repository (Unit {0})
append entry entries = (ok tt, entries ++ entry ∷ [])

unfoldable pub snapshot : Exec Repository (List Entry)
snapshot entries = (ok entries, entries)

-- `for i := len(r.entries) - 1; i >= 0; i--`
unfoldable pub newest_first : Repository → List Entry
newest_first [] = []
newest_first (entry ∷ entries) = newest_first entries ++ entry ∷ []

abbrev pub or_fifty : ℕ → ℕ
or_fifty limit = if eqb limit 0 then 50 else limit

-- `strings.TrimSpace(wanted) != "" && !strings.EqualFold(…)`
abbrev pub differs : String → String → Bool
differs wanted actual =
    not (is_blank wanted) && not (equal_fold (trim_space actual) (trim_space wanted))

module _ (parse_time : String → Option ℕ) where
  unfoldable pub parse_rfc3339 : String → Option ℕ
  parse_rfc3339 value = if is_blank value then none else parse_time (trim_space value)

  -- `has && hasOccurred && test`
  abbrev pub both : Option ℕ → Option ℕ → (ℕ → ℕ → Bool) → Bool
  both none occurred test = false
  both (some t) none test = false
  both (some t) (some occurred) test = test t occurred

  -- The tests that `continue`.
  unfoldable pub is_skipped : Query → Entry → Bool
  unfolding parse_rfc3339
  is_skipped q item =
      let occurred = parse_rfc3339 item.occurred_at in
      both (parse_rfc3339 q.from_occurred_at) occurred (λ t at. ltb at t)
      || both (parse_rfc3339 q.to_occurred_at) occurred (λ t at. ltb t at)
      || both (parse_rfc3339 q.cursor) occurred (λ t at. not (ltb at t))
      || differs q.company_id item.company_id
      || differs q.action item.action
      || differs q.resource_type item.resource_type
      || differs q.resource_id item.resource_id

  unfoldable pub scan : Query → List Entry → List Entry → List Entry
  unfolding is_skipped
  scan q [] out = out
  scan q (item ∷ items) out =
      let skip = scan q items out in
      let rest = scan q items (out ++ item ∷ []) in
      if is_skipped q item
      then skip
      else if leb (or_fifty q.limit) (length (out ++ item ∷ []))
      then out ++ item ∷ []
      else rest

  unfoldable pub list_by_company : Query → Exec Repository (List Entry)
  unfolding newest_first scan
  list_by_company q entries = (ok (scan q (newest_first entries) []), entries)

abbrev or_else : String → String → String
or_else a b = if a == "" then b else a

abbrev or_empty : Option Fields → Option Fields
or_empty none = some Fields.empty
or_empty (some fields) = some fields

-- `new_uuid` and `now` are the identifier and the formatted time of this call.
unfoldable pub append_audit_log : String → String → Entry → Exec Repository (Unit {0})
unfolding append
append_audit_log new_uuid now req = wrapping "append audit log" (
    append (record req {
      event_id = or_else req.event_id new_uuid;
      occurred_at = or_else req.occurred_at now;
      metadata = or_empty req.metadata;
    }))
