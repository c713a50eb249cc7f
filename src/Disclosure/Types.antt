-- ===== src/Disclosure/Types.antt =====
-- internal/disclosure/app/contracts.go: the types of disclosures, with their template blocks. A
-- `map[string]any` holds what a JSON document decodes to.
use cobo_iam_services.Base.{ℕ, String, Bool, true, false, Option, none, some, List, ◌==◌}
use cobo_iam_services.Authz.{SubjectRef}
use cobo_iam_services.Disclosure.{LegalBasisDto, ChecklistItemDto}

-- What the code asks of a `float64`: its sign, its whole part, and whether it has a fraction.
pub data Number : Type 0 where
  finite : (is_negative : Bool) (whole : ℕ) (has_fraction : Bool) → Number
  infinite : (is_negative : Bool) → Number
  not_a_number : Number

mutual
  pub data Value : Type 0 where
    null : Value
    boolean : Bool → Value
    number : Number → Value
    text : String → Value
    array : Values → Value
    object : Fields → Value

  pub data Values : Type 0 where
    nil : Values
    cons : Value → Values → Values

  pub data Fields : Type 0 where
    empty : Fields
    field : String → Value → Fields → Fields

-- `v, ok := m[k]`; a nil map has no keys.
unfoldable pub get_field : String → Fields → Option Value
get_field k empty = none
get_field k (field j v rest) = elim (j == k) [ true ↦ some v | false ↦ get_field k rest ]

pub record TemplateBlockDto : Type 0 where
  pub block_id : String
  pub block_key : String
  pub block_type : String
  pub title : String
  pub description : String
  pub config : Fields
  pub validation : Fields
  pub display_order : ℕ
  pub enabled : Bool

-- The fields that `DisclosureTypeDTO` and `UpsertTypeVersionRequest` have in common.
pub record Template : Type 0 where
  pub group_id : String
  pub name : String
  pub category : String
  pub template_category : String
  pub deadline_strategy : String
  pub description : String
  pub legal_basis : String
  pub applicability : String
  pub implementation_content : String
  pub implementation_notes : String
  pub special_cases : String
  pub report_content : String
  pub required_docs : String
  pub deadline_rule : String
  pub periodicity : String
  pub channels_text : String
  pub beneficiaries : String
  pub receiving_authorities : String
  pub format : String
  pub legal_risks_text : String
  pub general_info : String
  pub reminder_milestones : List String
  pub legal_bases : List LegalBasisDto
  pub checklist : List ChecklistItemDto
  pub tags : List String
  pub blocks : List TemplateBlockDto

pub record DisclosureTypeDto : Type 0 where
  pub version_no : ℕ
  pub type_id : String
  pub template : Template

pub record UpsertTypeVersionRequest : Type 0 where
  pub subject : SubjectRef
  pub type_id : String
  pub template : Template
  pub change_note : String

pub record DisclosureGroupDto : Type 0 where
  pub group_id : String
  pub name : String
  pub description : String
  pub icon : String
  pub display_order : ℕ

pub record DisclosureTypeSummaryDto : Type 0 where
  pub type_id : String
  pub group_id : String
  pub name : String
  pub category : String
  pub template_category : String
  pub description : String
  pub deadline_rule : String
  pub tags : List String

pub record DisclosureTypeVersionDto : Type 0 where
  pub type_id : String
  pub version_no : ℕ
  pub is_active : Bool
  pub change_note : String
  pub updated_by : String
  pub activated_at : ℕ

-- `UpsertTypeVersionResponse` and `ActivateTypeVersionResponse` have the same fields.
pub record VersionResponse : Type 0 where
  pub type_id : String
  pub version_no : ℕ
  pub is_active : Bool
  pub updated_by : String
  pub activated_at : ℕ

pub record ActivateTypeVersionRequest : Type 0 where
  pub subject : SubjectRef
  pub type_id : String
  pub version_no : ℕ
  pub reason : String
