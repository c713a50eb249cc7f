-- ===== src/Disclosure/Catalog/Tests.antt =====
-- Templates and their versions, on a small catalog.
use cobo_iam_services.Base.{
  String, ◌≡◌, ◌≢◌, refl, true, false, none, List, [], ◌∷◌, ◌++◌, length, map,
}
use cobo_iam_services.Base.Results.{ok, err}
use cobo_iam_services.Base.Unary.{uuid}
use cobo_iam_services.Dict.{lookup, get_or}
use cobo_iam_services.Authz.{
  AuthService, AuthorizeDecision, deny, SubjectRef, EffectiveAccessSummary,
}
use cobo_iam_services.Disclosure.Sanitize.{sanitize_string_list}
use cobo_iam_services.Disclosure.Types.{
  Template, TemplateBlockDto, UpsertTypeVersionRequest, ActivateTypeVersionRequest,
  DisclosureTypeVersionDto, empty,
}
use cobo_iam_services.Disclosure.Blocks.{Library}
use cobo_iam_services.Disclosure.FlatSync.{
  rebuild, mandatory_template_block_keys, extra_blocks, has_duplicate_block_keys,
}
use cobo_iam_services.Disclosure.FlatSync.Mirror.{apply_template_flat_block_sync}
use cobo_iam_services.Disclosure.FlatSync.Order.{Others, keys_of, orders, range, rebuild-Order}
use cobo_iam_services.Disclosure.Matrix.{normalized}
use cobo_iam_services.Disclosure.Matrix.Rules.{
  validate_template_matrix, validate_template_blocks, trimmed_blocks,
}
use cobo_iam_services.Disclosure.Matrix.Allowed.{IsAllowed, validate_template_matrix_iff}
use cobo_iam_services.Disclosure.Catalog.{State, get_type_detail, type_not_found, at_version}
use cobo_iam_services.Disclosure.Catalog.Versions.{
  upsert_type_version, next_type, activate_type_version, next_version,
}
use cobo_iam_services.Disclosure.Catalog.Active.{IsConsistent}
use cobo_iam_services.Disclosure.Catalog.Active.Runs.{
  upserts, activates, run, run-IsConsistent, written, upsert-get_type_detail,
}

abbrev milestones : List String
milestones = " a " ∷ "b" ∷ "" ∷ "a" ∷ []

sanitize_runs : sanitize_string_list milestones ≡ "a" ∷ "b" ∷ []
unfolding sanitize_string_list cobo_iam_services.Disclosure.Sanitize.distinct_from
    cobo_iam_services.GoText.trim_space cobo_iam_services.GoText.is_space
sanitize_runs = refl

abbrev library : Library
library = record { parse_float = λ s. none; quote = λ s. s; exceeds_out_of_range = λ n m. false }

abbrev template : Template
template = record {
  group_id = "group-001";
  name = "Quarterly report";
  category = "Định kỳ";
  template_category = "Dinh Ky";
  deadline_strategy = "fixed_cycle_days";
  description = "";
  legal_basis = "";
  applicability = "";
  implementation_content = "";
  implementation_notes = "";
  special_cases = "";
  report_content = "";
  required_docs = "";
  deadline_rule = "20 days";
  periodicity = "quarterly";
  channels_text = "";
  beneficiaries = "";
  receiving_authorities = "";
  format = "PDF";
  legal_risks_text = "";
  general_info = "";
  reminder_milestones = [];
  legal_bases = [];
  checklist = [];
  tags = [];
  blocks = [];
}

abbrev accepted : Template
accepted = record template { template_category = "periodic" }

accepts : validate_template_matrix library template ≡ ok accepted
unfolding validate_template_matrix cobo_iam_services.GoText.to_lower
    cobo_iam_services.GoText.trim_space cobo_iam_services.GoText.is_space validate_template_blocks
accepts = refl

validate_template_matrix_iff_example :
    (template.deadline_rule ≢ "")
    × IsAllowed
        (normalized template).template_category
        (normalized template).periodicity
        (normalized template).deadline_strategy
    × (validate_template_blocks library (trimmed_blocks []) ≡ [])
    × (accepted ≡ record (normalized template) { blocks = trimmed_blocks [] })
validate_template_matrix_iff_example =
    (validate_template_matrix_iff library template accepted).0 accepts

abbrev block : String → TemplateBlockDto
block k = record {
  block_id = "";
  block_key = k;
  block_type = "text";
  title = "title";
  description = "";
  config = empty;
  validation = empty;
  display_order = 9;
  enabled = true;
}

abbrev with_blocks : Template
with_blocks = record template { blocks = block "notes" ∷ block " Deadline" ∷ [] }

single : has_duplicate_block_keys with_blocks.blocks ≡ false
unfolding has_duplicate_block_keys cobo_iam_services.GoText.to_lower
    cobo_iam_services.GoText.trim_space cobo_iam_services.GoText.is_space
single = refl

rebuild-Order_example :
    (others : List TemplateBlockDto) × Others with_blocks.blocks others
    × (keys_of (rebuild uuid with_blocks 0).0.blocks
        ≡ mandatory_template_block_keys ++ keys_of others)
    × (orders (rebuild uuid with_blocks 0).0.blocks ≡ range 1 6 ++ range 7 (length others))
rebuild-Order_example = rebuild-Order uuid with_blocks 0 single

-- Saved again, the format is added to the channels a second time.
format_twice :
    (apply_template_flat_block_sync uuid
      (apply_template_flat_block_sync uuid template 0).0
      6).0.channels_text
    ≡ "Format: PDF\nFormat: PDF"
unfolding apply_template_flat_block_sync cobo_iam_services.GoText.trim_space
    cobo_iam_services.GoText.is_space
    cobo_iam_services.Disclosure.FlatSync.Mirror.mirror_descriptions
    cobo_iam_services.GoText.to_lower cobo_iam_services.Dict.insert
    cobo_iam_services.Disclosure.FlatSync.described cobo_iam_services.GoText.join
format_twice = refl

abbrev access : EffectiveAccessSummary
access = record {
  company_id = "c_1";
  membership_id = "m_1";
  permissions = "rbac.manage" ∷ [];
  data_scope = record {
    scope_type = "company";
    departments = [];
    record_assignments = [];
    has_company_wide_access = true;
    org_unit_ids = [];
    org_subtree_unit_ids = [];
    position_codes = [];
  };
  responsibilities = [];
}

abbrev refusal : AuthorizeDecision
refusal = record {
  decision = deny;
  matched_permissions = [];
  scope_reasons = [];
  responsibility_reasons = [];
  deny_reason_code = none;
}

abbrev auth : AuthService
auth = record { authorize = λ req. ok refusal; get_effective_access = λ m c. ok access }

abbrev subject : SubjectRef
subject = record { user_id = "u_1"; membership_id = "m_1"; company_id = "c_1" }

abbrev no_types : State
no_types = record {
  groups = [];
  catalog = [];
  catalog_by_ver = [];
  versions = [];
  catalog_scope = [];
  next_id = 0;
}

no_types-IsConsistent : IsConsistent no_types
unfolding lookup at_version
no_types-IsConsistent = record { shown = λ t item h. cc; snapshots = λ t n item h. cc }

abbrev saving : UpsertTypeVersionRequest
saving = record { subject = subject; type_id = "t_1"; template = template; change_note = "" }

abbrev older : ActivateTypeVersionRequest
older = record { subject = subject; type_id = "t_1"; version_no = 1; reason = "" }

run-IsConsistent_example :
    IsConsistent (
      run auth uuid library (upserts 1 saving ∷ upserts 2 saving ∷ activates 3 older ∷ []) no_types)
run-IsConsistent_example =
    run-IsConsistent auth uuid library
      (upserts 1 saving ∷ upserts 2 saving ∷ activates 3 older ∷ []) no_types no_types-IsConsistent

upsert-get_type_detail_example :
    (get_type_detail "c_1" "t_1" (upsert_type_version 1 saving no_types).1 ≡ (
      ok (written saving (lookup "t_1" no_types.catalog)),
      (upsert_type_version 1 saving no_types).1,
    ))
    × (◌≢◌ {A = String} "c_1" "global"
        → ◌≢◌ {A = String} "c_1" "c_2"
        → get_type_detail "c_2" "t_1" (upsert_type_version 1 saving no_types).1
          ≡ (err type_not_found, (upsert_type_version 1 saving no_types).1))
upsert-get_type_detail_example = upsert-get_type_detail 1 saving "c_2" no_types

abbrev three_calls : State
three_calls =
    (activate_type_version 3 older
      (upsert_type_version 2 saving (upsert_type_version 1 saving no_types).1).1).1

abbrev four_calls : State
four_calls = (upsert_type_version 4 saving three_calls).1

-- After an older version is made active, the next one takes a number that is taken.
numbers_repeat :
    map (λ (v : DisclosureTypeVersionDto). v.version_no) (get_or [] "t_1" four_calls.versions)
    ≡ 1 ∷ 2 ∷ 2 ∷ []
unfolding lookup upsert_type_version cobo_iam_services.Dict.insert activate_type_version
    cobo_iam_services.Disclosure.Catalog.Versions.next_entry next_type at_version
    cobo_iam_services.Disclosure.Catalog.put_version
numbers_repeat = refl
