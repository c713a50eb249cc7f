-- ===== src/Disclosure/Blocks.antt =====
-- internal/disclosure/app/template_block_schema.go: what the configuration of a block must hold, for
-- each type of block. Errors are collected by field.
pub mod Schema
use cobo_iam_services.Base.{
  ℕ, zero, suc, String, ◌<>◌, Bool, true, false, not, ◌&&◌, ◌||◌, Option, none, some, List, [], ◌∷◌,
  ◌==◌, ltb, eqb, if◌then◌else◌, ◌^◌,
}
use cobo_iam_services.GoText.{is_blank, trim_space, to_lower, itoa}
use cobo_iam_services.Dict.{Dict, insert}
use cobo_iam_services.Disclosure.Types.{
  Number, finite, infinite, not_a_number, Value, null, boolean, number, text, array, object, Values,
  nil, cons, Fields, empty, field, get_field,
}

abbrev pub FieldErrors : Type 0
FieldErrors = Dict String

-- What the code takes from Go's libraries and platform: `strconv.ParseFloat`, the verb `%q`, and
-- how the conversions to `int64` of two numbers compare if one is out of range.
pub record Library : Type 0 where
  pub parse_float : String → Option Number
  pub quote : String → String
  pub exceeds_out_of_range : Number → Number → Bool

unfoldable pub canonical_block_type : String → String
canonical_block_type block_type =
    let bt = to_lower (trim_space block_type) in
    if bt == "textarea" || bt == "long_text" then "text" else bt

-- a value that is there and not nil
abbrev pub present : Option Value → Option Value
present none = none
present (some null) = none
present (some v) = some v

module _ (library : Library) where
  unfoldable pub number_from_any : Value → Option Number
  number_from_any (number n) = some n
  number_from_any (text s) = library.parse_float (trim_space s)
  number_from_any null = none
  number_from_any (boolean b) = none
  number_from_any (array vs) = none
  number_from_any (object fs) = none

  -- `math.Trunc(n) == n`
  unfoldable pub is_whole : Number → Bool
  is_whole (finite is_negative whole has_fraction) = not has_fraction
  is_whole (infinite is_negative) = true
  is_whole not_a_number = false

  -- `n <= 0`
  unfoldable pub at_most_zero : Number → Bool
  at_most_zero (finite is_negative whole has_fraction) =
      is_negative || (eqb whole 0 && not has_fraction)
  at_most_zero (infinite is_negative) = is_negative
  at_most_zero not_a_number = false

  -- `n < 0`
  unfoldable pub below_zero : Number → Bool
  below_zero (finite is_negative whole has_fraction) = is_negative && (ltb 0 whole || has_fraction)
  below_zero (infinite is_negative) = is_negative
  below_zero not_a_number = false

  abbrev if_non_negative : Option Number → Option Number
  if_non_negative none = none
  if_non_negative (some n) = if not (is_whole n) || below_zero n then none else some n

  abbrev if_positive : Option Number → Option Number
  if_positive none = none
  if_positive (some n) = if at_most_zero n || not (is_whole n) then none else some n

  unfoldable pub non_negative_integer_from_any : Value → Option Number
  unfolding number_from_any is_whole below_zero
  non_negative_integer_from_any v = if_non_negative (number_from_any v)

  unfoldable pub positive_integer_from_any : Value → Option Number
  unfolding number_from_any is_whole at_most_zero
  positive_integer_from_any v = if_positive (number_from_any v)

  in_range : Number → Option ℕ
  in_range (finite is_negative whole has_fraction) = if ltb whole (2 ^ 63) then some whole else none
  in_range (infinite is_negative) = none
  in_range not_a_number = none

  abbrev exceeds_by : Number → Number → Option ℕ → Option ℕ → Bool
  exceeds_by a b (some n) (some m) = ltb m n
  exceeds_by a b none _ = library.exceeds_out_of_range a b
  exceeds_by a b (some n) none = library.exceeds_out_of_range a b

  -- `int64(a) > int64(b)`, for whole numbers that are not negative
  unfoldable pub exceeds : Number → Number → Bool
  unfolding in_range
  exceeds a b = exceeds_by a b (in_range a) (in_range b)

  -- an error at a field unless its value is absent or passes the test
  abbrev pub require {ℓ} :
      {A : Type ℓ} → (Value → Option A) → String → String → Option Value → FieldErrors → FieldErrors
  require read at message none errors = errors
  require read at message (some v) errors = elim (read v) [
    | none ↦ insert at message errors
    | some n ↦ errors
  ]

  unfoldable pub validate_text_block_schema : String → Fields → FieldErrors → FieldErrors
  unfolding get_field positive_integer_from_any
  validate_text_block_schema prefix config errors =
      require positive_integer_from_any (prefix <> ".config.max_length")
        "max_length must be a positive integer" (present (get_field "max_length" config)) errors

  abbrev pub as_boolean : Value → Option Bool
  as_boolean (boolean b) = some b
  as_boolean _ = none

  unfoldable pub validate_rich_text_block_schema : String → Fields → FieldErrors → FieldErrors
  unfolding get_field validate_text_block_schema
  validate_rich_text_block_schema prefix config errors =
      require as_boolean (prefix <> ".config.allow_html") "allow_html must be boolean"
        (present (get_field "allow_html" config)) (validate_text_block_schema prefix config errors)

  -- `s, ok := m[k].(string); ok && strings.TrimSpace(s) != ""`
  abbrev pub is_filled : Option Value → Bool
  is_filled (some (text s)) = not (is_blank s)
  is_filled _ = false

  unfoldable pub table_column_item_valid : Value → Bool
  unfolding get_field
  table_column_item_valid (object tm) =
      is_filled (get_field "key" tm)
      || is_filled (get_field "id" tm)
      || is_filled (get_field "field" tm)
  table_column_item_valid _ = false

  unfoldable pub checklist_option_item_has_label : Value → Bool
  unfolding get_field
  checklist_option_item_has_label (text s) = not (is_blank s)
  checklist_option_item_has_label (object v) =
      is_filled (get_field "label" v)
      || is_filled (get_field "title" v)
      || is_filled (get_field "id" v)
  checklist_option_item_has_label _ = false

  -- the loop over the items of a list: an error for each that does not pass
  unfoldable pub validate_items :
      (Value → Bool) → String → String → ℕ → Values → FieldErrors → FieldErrors
  validate_items test at message i nil errors = errors
  validate_items test at message i (cons v vs) errors =
      validate_items test at message (suc i) vs
        (if test v then errors else insert (at <> "[" <> itoa i <> "]") message errors)

  -- a field that must be there, as a list that is not empty; nothing else is checked if it is not
  abbrev pub items_of : Option Value → Option Values
  items_of (some (array (cons v vs))) = some (cons v vs)
  items_of _ = none
