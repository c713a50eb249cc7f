-- ===== src/Disclosure/Sanitize.antt =====
-- internal/disclosure/app/service.go: the clean-up of lists that a request carries.
pub mod Distinct
use cobo_iam_services.Base.{
  String, Bool, true, false, ◌&&◌, ◌||◌, List, [], ◌∷◌, ◌==◌, if◌then◌else◌,
}
use cobo_iam_services.GoText.{trim_space}
use cobo_iam_services.Disclosure.{AttachmentDto, LegalBasisDto, ChecklistItemDto}

unfoldable pub sanitize_attachments : List AttachmentDto → List AttachmentDto
sanitize_attachments [] = []
sanitize_attachments (it ∷ items) =
    let rest = sanitize_attachments items in
    let name = trim_space it.name in
    if name == ""
    then rest
    else record {
      id = trim_space it.id;
      name = name;
      type = trim_space it.type;
      uploaded_at = trim_space it.uploaded_at;
    }
      ∷ rest

-- `_, ok := seen[s]`, for a set of texts
unfoldable pub has_seen : String → List String → Bool
has_seen s [] = false
has_seen s (t ∷ seen) = t == s || has_seen s seen

-- the loop of `sanitizeStringList`
unfoldable pub distinct_from : List String → List String → List String
unfolding has_seen
distinct_from seen [] = []
distinct_from seen (item ∷ items) =
    let trimmed = trim_space item in
    let skipped = distinct_from seen items in
    let kept = distinct_from (trimmed ∷ seen) items in
    if trimmed == "" then skipped else if has_seen trimmed seen then skipped else trimmed ∷ kept

unfoldable pub sanitize_string_list : List String → List String
sanitize_string_list items = distinct_from [] items

unfoldable pub sanitize_legal_bases : List LegalBasisDto → List LegalBasisDto
sanitize_legal_bases [] = []
sanitize_legal_bases (item ∷ items) =
    let rest = sanitize_legal_bases items in
    let title = trim_space item.title in
    let summary = trim_space item.summary in
    if title == "" && summary == ""
    then rest
    else record {
      id = trim_space item.id;
      title = title;
      code = trim_space item.code;
      authority = trim_space item.authority;
      issue_date = trim_space item.issue_date;
      summary = summary;
      link = trim_space item.link;
    }
      ∷ rest

unfoldable pub sanitize_checklist : List ChecklistItemDto → List ChecklistItemDto
sanitize_checklist [] = []
sanitize_checklist (item ∷ items) =
    let rest = sanitize_checklist items in
    let title = trim_space item.title in
    let status = trim_space item.status in
    if title == ""
    then rest
    else record {
      id = trim_space item.id;
      title = title;
      owner = trim_space item.owner;
      due_date = trim_space item.due_date;
      status = if status == "" then "Pending" else status;
    }
      ∷ rest
