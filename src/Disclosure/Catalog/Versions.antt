-- ===== src/Disclosure/Catalog/Versions.antt =====
-- internal/disclosure/infra/inmemory/repository.go: a version is added to a type, and one of its
-- versions is made the active one.
use cobo_iam_services.Base.{
  ℕ, zero, suc, String, true, false, Option, none, some, List, [], ◌∷◌, ◌++◌, eqb, ltb,
  if◌then◌else◌,
}
use cobo_iam_services.Base.Results.{ok, err, Exec}
use cobo_iam_services.GoText.{trim_space}
use cobo_iam_services.Dict.{lookup, insert, get_or}
use cobo_iam_services.Disclosure.Types.{
  DisclosureTypeDto, UpsertTypeVersionRequest, DisclosureTypeVersionDto, VersionResponse,
  ActivateTypeVersionRequest,
}
use cobo_iam_services.Disclosure.Catalog.{
  State, type_not_found, version_not_found, at_version, put_version, is_foreign,
}

-- the loop that switches versions off
unfoldable pub deactivated : List DisclosureTypeVersionDto → List DisclosureTypeVersionDto
deactivated [] = []
deactivated (v ∷ vs) = record v { is_active = false } ∷ deactivated vs

abbrev pub next_version : Option DisclosureTypeDto → ℕ
next_version none = 1
next_version (some current) = suc current.version_no

unfoldable pub next_type : UpsertTypeVersionRequest → ℕ → DisclosureTypeDto
next_type req version_no = record {
  version_no = version_no;
  type_id = req.type_id;
  template = record {
    group_id = req.template.group_id;
    name = req.template.name;
    category = req.template.category;
    template_category = req.template.template_category;
    deadline_strategy = req.template.deadline_strategy;
    description = req.template.description;
    legal_basis = req.template.legal_basis;
    applicability = req.template.applicability;
    implementation_content = req.template.implementation_content;
    implementation_notes = req.template.implementation_notes;
    special_cases = req.template.special_cases;
    report_content = req.template.report_content;
    required_docs = req.template.required_docs;
    deadline_rule = req.template.deadline_rule;
    periodicity = req.template.periodicity;
    channels_text = req.template.channels_text;
    beneficiaries = req.template.beneficiaries;
    receiving_authorities = req.template.receiving_authorities;
    format = req.template.format;
    legal_risks_text = req.template.legal_risks_text;
    general_info = req.template.general_info;
    reminder_milestones = req.template.reminder_milestones;
    legal_bases = req.template.legal_bases;
    checklist = req.template.checklist;
    tags = req.template.tags;
    blocks = req.template.blocks;
  };
}

unfoldable pub next_entry : ℕ → UpsertTypeVersionRequest → ℕ → DisclosureTypeVersionDto
next_entry now req version_no = record {
  type_id = req.type_id;
  version_no = version_no;
  is_active = true;
  change_note = trim_space req.change_note;
  updated_by = req.subject.user_id;
  activated_at = now;
}

unfoldable pub upsert_type_version : ℕ → UpsertTypeVersionRequest → Exec State VersionResponse
upsert_type_version now req s =
    let version_no = next_version (lookup req.type_id s.catalog) in
    (
      ok (record {
        type_id = req.type_id;
        version_no = version_no;
        is_active = true;
        updated_by = req.subject.user_id;
        activated_at = now;
      }),
      record s {
        catalog = insert req.type_id (next_type req version_no) s.catalog;
        catalog_by_ver =
            insert req.type_id
              (put_version version_no (next_type req version_no)
                (get_or [] req.type_id s.catalog_by_ver))
              s.catalog_by_ver;
        catalog_scope = insert req.type_id req.subject.company_id s.catalog_scope;
        versions =
            insert req.type_id
              (deactivated (get_or [] req.type_id s.versions) ++ next_entry now req version_no ∷ [])
              s.versions;
      },
    )

-- `slices.SortFunc` by falling version number; Go leaves the order of equal ones open.
unfoldable pub insert_version :
    DisclosureTypeVersionDto → List DisclosureTypeVersionDto → List DisclosureTypeVersionDto
insert_version v [] = v ∷ []
insert_version v (w ∷ vs) =
    let rest = insert_version v vs in if ltb v.version_no w.version_no then w ∷ rest else v ∷ w ∷ vs

unfoldable pub newest_first : List DisclosureTypeVersionDto → List DisclosureTypeVersionDto
unfolding insert_version
newest_first [] = []
newest_first (v ∷ vs) = insert_version v (newest_first vs)

unfoldable pub list_type_versions : String → String → Exec State (List DisclosureTypeVersionDto)
unfolding is_foreign newest_first
list_type_versions company_id type_id s = elim (lookup type_id s.catalog) [
  | none ↦ (err type_not_found, s)
  | some item ↦
      if is_foreign company_id type_id s
      then (err type_not_found, s)
      else (ok (newest_first (get_or [] type_id s.versions)), s)
]

-- the index of the last version with a number
unfoldable pub last_index : ℕ → ℕ → List DisclosureTypeVersionDto → Option ℕ
last_index n i [] = none
last_index n i (v ∷ vs) =
    let here = if eqb v.version_no n then some i else none in
    elim (last_index n (suc i) vs) [ some later ↦ some later | none ↦ here ]

abbrev pub activated :
    ActivateTypeVersionRequest → ℕ → DisclosureTypeVersionDto → DisclosureTypeVersionDto
activated req now v = record v {
  is_active = true;
  updated_by = req.subject.user_id;
  activated_at = now;
}

-- the version at an index, made active
unfoldable pub activate_at :
    ActivateTypeVersionRequest
    → ℕ
    → ℕ
    → List DisclosureTypeVersionDto
    → List DisclosureTypeVersionDto
activate_at req now i [] = []
activate_at req now i (v ∷ vs) = elim i [
  | zero ↦ activated req now v ∷ vs
  | suc j ↦ v ∷ activate_at req now j vs
]

abbrev pub snapshot_or : DisclosureTypeDto → Option DisclosureTypeDto → DisclosureTypeDto
snapshot_or current none = current
snapshot_or current (some snapshot) = snapshot

-- once the type is found and is not another company's; the slice of the versions is shared with
-- the map, so they are switched off even if none has the number asked for; a type without versions
-- reads the same as one with none
unfoldable pub activate_found :
    ℕ → ActivateTypeVersionRequest → DisclosureTypeDto → Exec State VersionResponse
unfolding deactivated last_index activate_at at_version
activate_found now req current s =
    let vs = get_or [] req.type_id s.versions in
    let off = deactivated vs in
    let current' = record current { version_no = req.version_no } in
    let snapshot = at_version req.version_no (get_or [] req.type_id s.catalog_by_ver) in
    elim (last_index req.version_no 0 vs) [
      | none ↦ (err version_not_found, record s { versions = insert req.type_id off s.versions })
      | some target ↦ (
        ok (record {
          type_id = req.type_id;
          version_no = req.version_no;
          is_active = true;
          updated_by = req.subject.user_id;
          activated_at = now;
        }),
        record s {
          versions = insert req.type_id (activate_at req now target off) s.versions;
          catalog = insert req.type_id (snapshot_or current' snapshot) s.catalog;
        },
      )
    ]

unfoldable pub activate_type_version : ℕ → ActivateTypeVersionRequest → Exec State VersionResponse
unfolding activate_found is_foreign
activate_type_version now req s = elim (lookup req.type_id s.catalog) [
  | none ↦ (err type_not_found, s)
  | some current ↦
      if is_foreign req.subject.company_id req.type_id s
      then (err type_not_found, s)
      else activate_found now req current s
]
