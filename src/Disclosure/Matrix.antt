-- ===== src/Disclosure/Matrix.antt =====
-- internal/disclosure/app/template_validation.go: the normalised names of a template's category,
-- periodicity and strategy, which combinations of them are allowed, and the checks of its blocks.
pub mod Rules
pub mod Allowed
use cobo_iam_services.Base.{
  ℕ, suc, String, ◌<>◌, Bool, true, false, not, ◌&&◌, ◌||◌, Option, none, some, List, [], ◌∷◌, ◌==◌,
  eqb, if◌then◌else◌, is_empty,
}
use cobo_iam_services.Base.Results.{HttpError, Error, http, invalid_request, Result, ok, err}
use cobo_iam_services.GoText.{is_blank, trim_space, to_lower, itoa}
use cobo_iam_services.Dict.{Dict, lookup, insert, get_or}
use cobo_iam_services.Disclosure.Types.{Template, TemplateBlockDto}
use cobo_iam_services.Disclosure.Blocks.{FieldErrors, Library}
use cobo_iam_services.Disclosure.Blocks.Schema.{validate_block_type_schema}
use cobo_iam_services.Disclosure.FlatSync.{mandatory_template_block_keys}

abbrev pub template_category_aliases : Dict String
template_category_aliases =
    ("periodic", "periodic")
    ∷ ("định kỳ", "periodic")
    ∷ ("dinh ky", "periodic")
    ∷ ("irregular", "irregular")
    ∷ ("bất thường", "irregular")
    ∷ ("bat thuong", "irregular")
    ∷ ("custom", "custom")
    ∷ ("tùy chỉnh", "custom")
    ∷ ("tuy chinh", "custom")
    ∷ []

abbrev pub periodicity_aliases : Dict String
periodicity_aliases =
    ("monthly", "monthly")
    ∷ ("hàng tháng", "monthly")
    ∷ ("hang thang", "monthly")
    ∷ ("quarterly", "quarterly")
    ∷ ("hàng quý", "quarterly")
    ∷ ("hang quy", "quarterly")
    ∷ ("yearly", "yearly")
    ∷ ("hàng năm", "yearly")
    ∷ ("hang nam", "yearly")
    ∷ ("event_based", "event_based")
    ∷ ("bất thường", "event_based")
    ∷ ("bat thuong", "event_based")
    ∷ ("ad_hoc", "ad_hoc")
    ∷ ("theo yêu cầu", "ad_hoc")
    ∷ ("theo yeu cau", "ad_hoc")
    ∷ []

abbrev pub deadline_strategy_aliases : Dict String
deadline_strategy_aliases =
    ("fixed_cycle_days", "fixed_cycle_days")
    ∷ ("event_relative_hours", "event_relative_hours")
    ∷ ("configurable", "configurable")
    ∷ []

unfoldable pub normalize_alias : String → Dict String → String
unfolding lookup
normalize_alias raw aliases =
    let k = to_lower (trim_space raw) in if k == "" then "" else get_or k k aliases

unfoldable pub new_validation_error : FieldErrors → Error
new_validation_error field_errors = http (record {
  code = invalid_request;
  message = "template validation failed";
  http_status = 400;
  details = field_errors;
})

-- the fields with their normalised names
unfoldable pub normalized : Template → Template
unfolding normalize_alias
normalized t = record t {
  template_category = normalize_alias t.template_category template_category_aliases;
  periodicity = normalize_alias t.periodicity periodicity_aliases;
  deadline_strategy = normalize_alias t.deadline_strategy deadline_strategy_aliases;
}

abbrev pub when : Bool → String → String → FieldErrors → FieldErrors
when test at message errors = if test then insert at message errors else errors

unfoldable pub required_fields : Template → FieldErrors → FieldErrors
required_fields t errors =
    when (t.deadline_strategy == "") "deadline_strategy" "deadline_strategy is required" (
      when (t.deadline_rule == "") "deadline_rule" "deadline_rule is required" (
        when (t.template_category == "") "template_category" "template_category is required"
          errors))

unfoldable pub matrix_fields : Template → FieldErrors → FieldErrors
matrix_fields t errors =
    if t.template_category == "periodic"
    then when (not (t.deadline_strategy == "fixed_cycle_days")) "deadline_strategy"
        "periodic templates require deadline_strategy=fixed_cycle_days"
        (when
          (not (t.periodicity == "monthly")
            && not (t.periodicity == "quarterly")
            && not (t.periodicity == "yearly"))
          "periodicity" "periodic templates require periodicity in [monthly, quarterly, yearly]"
          errors)
    else if t.template_category == "irregular"
    then when (not (t.deadline_strategy == "event_relative_hours")) "deadline_strategy"
        "irregular templates require deadline_strategy=event_relative_hours"
        (when (not (t.periodicity == "event_based")) "periodicity"
          "irregular templates require periodicity=event_based" errors)
    else if t.template_category == "custom"
    then when (not (t.deadline_strategy == "configurable")) "deadline_strategy"
        "custom templates require deadline_strategy=configurable"
        (when
          (not (t.periodicity == "monthly")
            && not (t.periodicity == "quarterly")
            && not (t.periodicity == "yearly")
            && not (t.periodicity == "ad_hoc"))
          "periodicity"
          "custom templates require periodicity in [monthly, quarterly, yearly, ad_hoc]" errors)
    else when (not (t.template_category == "")) "template_category"
        "template_category must be one of [periodic, irregular, custom]" errors

-- a block with its texts trimmed, as the loop over the blocks leaves it
unfoldable pub trimmed_block : TemplateBlockDto → TemplateBlockDto
trimmed_block b = record b {
  block_id = trim_space b.block_id;
  block_key = to_lower (trim_space b.block_key);
  block_type = to_lower (trim_space b.block_type);
  title = trim_space b.title;
  description = trim_space b.description;
}
