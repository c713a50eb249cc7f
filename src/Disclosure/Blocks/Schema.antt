-- ===== src/Disclosure/Blocks/Schema.antt =====
-- internal/disclosure/app/template_block_schema.go: the checks of the block types that have lists,
-- numbers and dates, and the choice of the check by the block's type.
use cobo_iam_services.Base.{String, ◌<>◌, Option, none, some, List, [], ◌∷◌, ◌==◌, if◌then◌else◌}
use cobo_iam_services.GoText.{is_blank}
use cobo_iam_services.Dict.{insert}
use cobo_iam_services.Disclosure.Types.{Number, Value, Fields, get_field}
use cobo_iam_services.Disclosure.Blocks.{
  FieldErrors, Library, canonical_block_type, present, number_from_any, exceeds,
  non_negative_integer_from_any, positive_integer_from_any, validate_text_block_schema,
  validate_rich_text_block_schema, require, validate_items, items_of, table_column_item_valid,
  checklist_option_item_has_label,
}

module _ (library : Library) where
  -- the number that a field holds, if it is there and passes
  abbrev read_field : (Value → Option Number) → Option Value → Option Number
  read_field read none = none
  read_field read (some v) = read v

  abbrev compare_rows : String → Option Number → Option Number → FieldErrors → FieldErrors
  compare_rows prefix (some low) (some high) errors =
      if exceeds library low high
      then insert (prefix <> ".config.min_rows") "min_rows must be <= max_rows" errors
      else errors
  compare_rows prefix _ _ errors = errors

  -- once the columns are there
  abbrev validate_rows : String → Fields → FieldErrors → FieldErrors
  validate_rows prefix config errors =
      let low = present (get_field "min_rows" config) in
      let high = present (get_field "max_rows" config) in
      compare_rows prefix (read_field (non_negative_integer_from_any library) low)
        (read_field (positive_integer_from_any library) high)
        (require library (positive_integer_from_any library) (prefix <> ".config.max_rows")
          "max_rows must be a positive integer" high
          (require library (non_negative_integer_from_any library) (prefix <> ".config.min_rows")
            "min_rows must be a non-negative integer" low errors))

  unfoldable pub validate_table_block_schema : String → Fields → FieldErrors → FieldErrors
  unfolding get_field exceeds validate_items table_column_item_valid
  validate_table_block_schema prefix config errors =
      elim (items_of library (get_field "columns" config)) [
        | none ↦
            insert (prefix <> ".config.columns")
              "table blocks require config.columns as a non-empty array" errors
        | some columns ↦ validate_rows prefix config (
            validate_items library (table_column_item_valid library) (prefix <> ".config.columns")
              "each column needs a non-empty key, id, or field" 0 columns errors)
      ]

  unfoldable pub validate_checklist_block_schema : String → Fields → FieldErrors → FieldErrors
  unfolding get_field validate_items checklist_option_item_has_label
  validate_checklist_block_schema prefix config errors =
      elim (items_of library (get_field "options" config)) [
        | none ↦
            insert (prefix <> ".config.options")
              "checklist blocks require config.options as a non-empty array" errors
        | some options ↦
            validate_items library (checklist_option_item_has_label library)
              (prefix <> ".config.options")
              "each checklist option needs a label, id, or non-empty text" 0 options errors
      ]

  unfoldable pub validate_numbers : String → Fields → List String → FieldErrors → FieldErrors
  unfolding get_field number_from_any
  validate_numbers prefix validation [] errors = errors
  validate_numbers prefix validation (k ∷ keys) errors = validate_numbers prefix validation keys (
      require library (number_from_any library) (prefix <> ".validation." <> k)
        (k <> " must be numeric") (present (get_field k validation)) errors)

  unfoldable pub validate_number_block_schema : String → Fields → FieldErrors → FieldErrors
  unfolding validate_numbers
  validate_number_block_schema prefix validation errors =
      validate_numbers prefix validation ("min" ∷ "max" ∷ "step" ∷ []) errors

  unfoldable pub validate_date_block_schema : String → Fields → FieldErrors → FieldErrors
  unfolding get_field
  validate_date_block_schema prefix validation errors =
      require library (positive_integer_from_any library) (prefix <> ".validation.max_future_days")
        "max_future_days must be a positive integer"
        (present (get_field "max_future_days" validation)) errors

  unfoldable pub validate_attachment_block_schema : String → Fields → FieldErrors → FieldErrors
  unfolding get_field
  validate_attachment_block_schema prefix config errors =
      require library (positive_integer_from_any library) (prefix <> ".config.max_files")
        "max_files must be a positive integer" (present (get_field "max_files" config)) errors

  abbrev allowed_hint : String
  allowed_hint =
      "attachment, checklist, date, number, rich_text, section, table, text; aliases: textarea|long_text -> text"

  -- `templateBlockTypesAllowed` and the switch on the canonical type are one chain of tests.
  unfoldable pub validate_block_type_schema :
      String → String → Fields → Fields → FieldErrors → FieldErrors
  unfolding canonical_block_type
  validate_block_type_schema prefix block_type config validation errors =
      let canonical = canonical_block_type block_type in
      if is_blank block_type
      then errors
      else if canonical == "text"
      then validate_text_block_schema library prefix config errors
      else if canonical == "rich_text"
      then validate_rich_text_block_schema library prefix config errors
      else if canonical == "table"
      then validate_table_block_schema prefix config errors
      else if canonical == "checklist"
      then validate_checklist_block_schema prefix config errors
      else if canonical == "number"
      then validate_number_block_schema prefix validation errors
      else if canonical == "date"
      then validate_date_block_schema prefix validation errors
      else if canonical == "attachment"
      then validate_attachment_block_schema prefix config errors
      else if canonical == "section"
      then errors
      else insert (prefix <> ".block_type")
          ("unsupported block_type " <> library.quote block_type <> "; allowed: " <> allowed_hint)
          errors
