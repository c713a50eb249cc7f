-- ===== src/Disclosure.antt =====
-- internal/disclosure/app/contracts.go: the records that a company discloses, and the types with
-- their versions that the records are written for. Fields for times that no code here writes are
-- left out.
pub mod Sanitize
pub mod Dates
pub mod Access
pub mod Records
pub mod Lifecycle
pub mod History
pub mod Tenancy
pub mod Types
pub mod Blocks
pub mod FlatSync
pub mod Matrix
pub mod Catalog
mod Tests
use cobo_iam_services.Base.{ℕ, String, Bool, List}
use cobo_iam_services.Dict.{Dict}

pub record AttachmentDto : Type 0 where
  pub id : String
  pub name : String
  pub type : String
  pub uploaded_at : String

pub record RecordPayload : Type 0 where
  pub type_id : String
  pub department_id : String
  pub title : String
  pub summary : String
  pub content : String
  pub planned_date : String
  pub attachments : List AttachmentDto
  pub evidence_link : String

pub record RecordDto : Type 0 where
  pub record_id : String
  pub company_id : String
  pub type_id : String
  pub department_id : String
  pub title : String
  pub summary : String
  pub content : String
  pub planned_date : String
  pub published_date : String
  pub status : String
  pub attachments : List AttachmentDto
  pub evidence_link : String
  pub created_by : String
  pub updated_by : String

pub record LegalBasisDto : Type 0 where
  pub id : String
  pub title : String
  pub code : String
  pub authority : String
  pub issue_date : String
  pub summary : String
  pub link : String

pub record ChecklistItemDto : Type 0 where
  pub id : String
  pub title : String
  pub owner : String
  pub due_date : String
  pub status : String
