-- ===== src/Audit/Tests.antt =====
-- Three entries of two companies, and the lists of one of them.
use Prim.Native.String.{len}
use cobo_iam_services.Base.{ℕ, String, ◌≡◌, refl, Option, none, some, [], ◌∷◌, take}
use cobo_iam_services.Base.Results.{ok}
use cobo_iam_services.Disclosure.Types.{Fields}
use cobo_iam_services.Audit.{
  Entry, Query, Repository, or_fifty, newest_first, list_by_company, append_audit_log,
}
use cobo_iam_services.Audit.Listed.{selected, list_by_company-take}

-- Times written as strokes.
abbrev stroke_time : String → Option ℕ
stroke_time s = some (len s)

abbrev entry : String → String → String → Entry
entry id at company_id = record {
  event_id = id;
  occurred_at = at;
  actor_user_id = "u_1";
  actor_membership_id = "m_1";
  company_id = company_id;
  action = "login";
  resource_type = "session";
  resource_id = "s_1";
  decision = "ALLOW";
  request_id = "";
  ip = "";
  user_agent = "";
  effective_permissions_snapshot = Fields.empty;
  effective_scope_snapshot = Fields.empty;
  metadata = some Fields.empty;
}

abbrev log : Repository
log = entry "e1" "|" "c_1" ∷ entry "e2" "||" "c_2" ∷ entry "e3" "|||" "C_1" ∷ []

abbrev query : String → ℕ → Query
query cursor limit = record {
  company_id = "c_1";
  action = "";
  resource_type = " ";
  resource_id = "";
  from_occurred_at = "";
  to_occurred_at = "";
  cursor = cursor;
  limit = limit;
}

newest :
    list_by_company stroke_time (query "" 0) log
    ≡ (ok (entry "e3" "|||" "C_1" ∷ entry "e1" "|" "c_1" ∷ []), log)
unfolding list_by_company cobo_iam_services.GoText.trim_space cobo_iam_services.GoText.is_space
    cobo_iam_services.GoText.equal_fold
newest = refl

next_page : list_by_company stroke_time (query "|||" 1) log ≡ (ok (entry "e1" "|" "c_1" ∷ []), log)
unfolding list_by_company cobo_iam_services.GoText.trim_space cobo_iam_services.GoText.is_space
    cobo_iam_services.GoText.equal_fold
next_page = refl

appended :
    append_audit_log "e1" "|" (record (entry "" "" "c_1") { metadata = none }) []
    ≡ (ok tt, entry "e1" "|" "c_1" ∷ [])
unfolding append_audit_log
appended = refl

list_by_company-take_example :
    list_by_company stroke_time (query "" 1) log
    ≡ (ok (take (or_fifty 1) (selected stroke_time (query "" 1) (newest_first log))), log)
list_by_company-take_example = list_by_company-take stroke_time (query "" 1) log
