-- ===== src/Disclosure/Catalog.antt =====
-- internal/disclosure/infra/inmemory/repository.go: the types of disclosures, their versions, and the
-- company that each belongs to.
pub mod Versions
pub mod Admin
pub mod Active
mod Tests
use cobo_iam_services.Base.{
  ℕ, suc, ◌+◌, ◌<◌, String, ◌<>◌, Bool, true, false, not, ◌&&◌, ◌||◌, Option, none, some, List, [],
  ◌∷◌, ◌++◌, ◌==◌, eqb, ltb, if◌then◌else◌,
}
use cobo_iam_services.Base.Results.{
  Error, new_http_error, invalid_request, Result, ok, err, Exec, unless,
}
use cobo_iam_services.GoText.{trim_space, to_lower, contains}
use cobo_iam_services.Dict.{Dict, lookup, insert, get_or}
use cobo_iam_services.Disclosure.Types.{
  Template, DisclosureTypeDto, UpsertTypeVersionRequest, DisclosureGroupDto,
  DisclosureTypeSummaryDto, DisclosureTypeVersionDto, VersionResponse, ActivateTypeVersionRequest,
}

-- The maps of the repository, and how many identifiers the generator has given out.
pub record State : Type 0 where
  pub groups : List DisclosureGroupDto
  pub catalog : Dict DisclosureTypeDto
  pub catalog_by_ver : Dict (List (ℕ × DisclosureTypeDto))
  pub versions : Dict (List DisclosureTypeVersionDto)
  pub catalog_scope : Dict String
  pub next_id : ℕ

abbrev pub type_not_found : Error
type_not_found = new_http_error 404 invalid_request "disclosure type not found"

abbrev pub version_not_found : Error
version_not_found = new_http_error 404 invalid_request "disclosure type version not found"

-- maps with numbers as keys
module _ {ℓ} {V : Type ℓ} where
  unfoldable pub at_version : ℕ → List (ℕ × V) → Option V
  at_version n [] = none
  at_version n ((k, v) ∷ m) = let rest = at_version n m in if eqb k n then some v else rest

  unfoldable pub put_version : ℕ → V → List (ℕ × V) → List (ℕ × V)
  put_version n v [] = (n, v) ∷ []
  put_version n v ((k, w) ∷ m) =
      let rest = put_version n v m in if eqb k n then (n, v) ∷ m else (k, w) ∷ rest

-- `NewRepository`: the seed's types are global, each in its first version.
unfoldable pub seed_types : ℕ → List DisclosureTypeDto → State → State
seed_types now [] s = s
seed_types now (item ∷ items) s =
    let first = record item { version_no = 1 } in
    seed_types now items (record s {
      catalog = insert item.type_id first s.catalog;
      catalog_by_ver = insert item.type_id ((1, first) ∷ []) s.catalog_by_ver;
      catalog_scope = insert item.type_id "global" s.catalog_scope;
      versions =
          insert item.type_id
            (record {
              type_id = item.type_id;
              version_no = 1;
              is_active = true;
              change_note = "seed";
              updated_by = "system";
              activated_at = now;
            }
              ∷ [])
            s.versions;
    })

unfoldable pub new_repository : ℕ → List DisclosureGroupDto → List DisclosureTypeDto → State
unfolding seed_types
new_repository now groups items = seed_types now items (record {
  groups = groups;
  catalog = [];
  catalog_by_ver = [];
  versions = [];
  catalog_scope = [];
  next_id = 0;
})

-- `scope != "global" && scope != companyID`
unfoldable pub is_foreign : String → String → State → Bool
is_foreign company_id type_id s =
    let scope = get_or "" type_id s.catalog_scope in
    not (scope == "global") && not (scope == company_id)

unfoldable pub list_type_groups : String → Exec State (List DisclosureGroupDto)
list_type_groups company_id s = (ok s.groups, s)

abbrev summary : DisclosureTypeDto → DisclosureTypeSummaryDto
summary item = record {
  type_id = item.type_id;
  group_id = item.template.group_id;
  name = item.template.name;
  category = item.template.category;
  template_category = item.template.template_category;
  description = item.template.description;
  deadline_rule = item.template.deadline_rule;
  tags = item.template.tags;
}

-- the tests of the loop of `ListTypes` that pass an item over
abbrev is_passed_over : String → String → String → DisclosureTypeDto → State → Bool
is_passed_over company_id group_id query item s =
    is_foreign company_id item.type_id s
    || (not (group_id == "") && not (item.template.group_id == group_id))
    || (not (query == "")
        && not (contains (to_lower (item.template.name <> " " <> item.template.description)) query))

unfoldable pub summaries :
    String → String → String → Dict DisclosureTypeDto → State → List DisclosureTypeSummaryDto
unfolding is_foreign
summaries company_id group_id query [] s = []
summaries company_id group_id query ((k, item) ∷ items) s =
    let rest = summaries company_id group_id query items s in
    if is_passed_over company_id group_id query item s then rest else summary item ∷ rest

unfoldable pub list_types : String → String → String → Exec State (List DisclosureTypeSummaryDto)
unfolding summaries
list_types company_id group_id query s =
    (ok (summaries company_id (trim_space group_id) (to_lower (trim_space query)) s.catalog s), s)

unfoldable pub get_type_detail : String → String → Exec State DisclosureTypeDto
get_type_detail company_id type_id s = elim (lookup type_id s.catalog) [
  | none ↦ (err type_not_found, s)
  | some item ↦ if is_foreign company_id type_id s then (err type_not_found, s) else (ok item, s)
]

abbrev pub found_version : Option DisclosureTypeDto → Result DisclosureTypeDto
found_version none = err version_not_found
found_version (some item) = ok item

unfoldable pub get_type_version_detail : String → String → ℕ → Exec State DisclosureTypeDto
unfolding is_foreign at_version
get_type_version_detail company_id type_id version_no s =
    if is_foreign company_id type_id s
    then (err version_not_found, s)
    else (found_version (at_version version_no (get_or [] type_id s.catalog_by_ver)), s)
