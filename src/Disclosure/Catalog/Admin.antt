-- ===== src/Disclosure/Catalog/Admin.antt =====
-- internal/disclosure/app/service.go: the handlers that read the types, and those with which an
-- administrator adds a version and activates one.
use cobo_iam_services.Base.{ℕ, String, Bool, not, List, [], ◌∷◌, ◌==◌, eqb}
use cobo_iam_services.Base.Results.{ok, Exec, lift, unless, ◌>>=◌, ◌>>◌}
use cobo_iam_services.GoText.{is_blank, trim_space}
use cobo_iam_services.Dict.{Dict}
use cobo_iam_services.Authz.{AuthService, SubjectRef}
use cobo_iam_services.Disclosure.Types.{
  Template, DisclosureTypeDto, UpsertTypeVersionRequest, DisclosureGroupDto,
  DisclosureTypeSummaryDto, DisclosureTypeVersionDto, VersionResponse, ActivateTypeVersionRequest,
}
use cobo_iam_services.Disclosure.Access.{has_permission, access_denied, require_catalog_read}
use cobo_iam_services.Disclosure.Records.{bad_request}
use cobo_iam_services.Disclosure.Sanitize.{
  sanitize_string_list, sanitize_legal_bases, sanitize_checklist,
}
use cobo_iam_services.Disclosure.Blocks.{Library}
use cobo_iam_services.Disclosure.FlatSync.Mirror.{apply_template_flat_block_sync}
use cobo_iam_services.Disclosure.Matrix.Rules.{validate_template_matrix}
use cobo_iam_services.Disclosure.Catalog.{
  State, list_type_groups, list_types, get_type_detail, get_type_version_detail,
}
use cobo_iam_services.Disclosure.Catalog.Versions.{
  upsert_type_version, list_type_versions, activate_type_version,
}

pub record TemplateReferenceDataDto : Type 0 where
  pub template_categories : List String
  pub periodicities : List String
  pub deadline_strategies : List String
  pub matrix_rules : Dict (List String)

abbrev reference_data : TemplateReferenceDataDto
reference_data = record {
  template_categories = "periodic" ∷ "irregular" ∷ "custom" ∷ [];
  periodicities = "monthly" ∷ "quarterly" ∷ "yearly" ∷ "event_based" ∷ "ad_hoc" ∷ [];
  deadline_strategies = "fixed_cycle_days" ∷ "event_relative_hours" ∷ "configurable" ∷ [];
  matrix_rules =
      (
        "periodic",
        "periodicity in [monthly, quarterly, yearly]" ∷ "deadline_strategy must be fixed_cycle_days"
            ∷ [],
      )
      ∷ (
        "irregular",
        "periodicity must be event_based" ∷ "deadline_strategy must be event_relative_hours" ∷ [],
      )
      ∷ (
        "custom",
        "periodicity in [monthly, quarterly, yearly, ad_hoc]"
            ∷ "deadline_strategy must be configurable" ∷ [],
      )
      ∷ [];
}

-- The request's texts and lists as the handler cleans them.
unfoldable pub cleaned : Template → Template
cleaned t = record t {
  group_id = trim_space t.group_id;
  name = trim_space t.name;
  category = trim_space t.category;
  template_category = trim_space t.template_category;
  deadline_strategy = trim_space t.deadline_strategy;
  deadline_rule = trim_space t.deadline_rule;
  periodicity = trim_space t.periodicity;
  reminder_milestones = sanitize_string_list t.reminder_milestones;
  legal_bases = sanitize_legal_bases t.legal_bases;
  checklist = sanitize_checklist t.checklist;
}

module _ (auth : AuthService) (new_uuid : ℕ → String) (library : Library) where
  -- The handlers that read need the permission to create records.
  unfoldable pub list_groups : SubjectRef → Exec State (List DisclosureGroupDto)
  list_groups subject =
      lift (require_catalog_read auth subject) >> list_type_groups subject.company_id

  unfoldable pub search_types :
      SubjectRef → String → String → Exec State (List DisclosureTypeSummaryDto)
  search_types subject group_id query =
      lift (require_catalog_read auth subject) >> list_types subject.company_id group_id query

  unfoldable pub type_detail : SubjectRef → String → Exec State DisclosureTypeDto
  type_detail subject type_id =
      unless (is_blank type_id) (bad_request "type_id is required")
        (lift (require_catalog_read auth subject) >> get_type_detail subject.company_id type_id)

  -- The others are the administrator's.
  abbrev pub is_no_admin : SubjectRef → Bool
  is_no_admin subject = not (has_permission auth subject "rbac.manage")

  unfoldable pub type_version_detail : SubjectRef → String → ℕ → Exec State DisclosureTypeDto
  type_version_detail subject type_id version_no = unless (is_no_admin subject) access_denied (
      unless (is_blank type_id) (bad_request "type_id is required") (
        unless (eqb version_no 0) (bad_request "version_no must be > 0")
          (get_type_version_detail subject.company_id (trim_space type_id) version_no)))

  unfoldable pub get_template_reference_data : SubjectRef → Exec State TemplateReferenceDataDto
  get_template_reference_data subject =
      unless (is_no_admin subject) access_denied (lift (ok reference_data))

  -- the flat fields and the blocks of the request, after the identifiers that it takes
  abbrev pub synchronise : Template → Exec State Template
  synchronise t s =
      let (synced, n) = apply_template_flat_block_sync new_uuid t s.next_id in
      (ok synced, record s { next_id = n })

  unfoldable pub upsert_version : ℕ → UpsertTypeVersionRequest → Exec State VersionResponse
  unfolding cleaned
  upsert_version now req =
      let t = cleaned req.template in
      unless (is_no_admin req.subject) access_denied (
        unless (is_blank req.type_id) (bad_request "type_id is required") (
          unless (t.group_id == "") (bad_request "group_id is required") (
            unless (t.name == "") (bad_request "name is required") do
              synced ← synchronise t
              valid ← lift (validate_template_matrix library synced)
              upsert_type_version now
                  (record req { type_id = trim_space req.type_id; template = valid }))))

  unfoldable pub list_versions : SubjectRef → String → Exec State (List DisclosureTypeVersionDto)
  list_versions subject type_id = unless (is_no_admin subject) access_denied (
      unless (is_blank type_id) (bad_request "type_id is required")
        (list_type_versions subject.company_id (trim_space type_id)))

  unfoldable pub activate_version : ℕ → ActivateTypeVersionRequest → Exec State VersionResponse
  activate_version now req = unless (is_no_admin req.subject) access_denied (
      unless (is_blank req.type_id) (bad_request "type_id is required") (
        unless (eqb req.version_no 0) (bad_request "version_no must be > 0") (
          activate_type_version now
            (record req { type_id = trim_space req.type_id; reason = trim_space req.reason }))))
