-- ===== src/Disclosure/Matrix/Rules.antt =====
-- internal/disclosure/app/template_validation.go: the loop over the blocks of a template, the
-- mandatory keys, and the whole validation.
use cobo_iam_services.Base.{
  ℕ, suc, String, ◌<>◌, not, Option, none, some, List, [], ◌∷◌, ◌==◌, eqb, if◌then◌else◌, is_empty,
}
use cobo_iam_services.Base.Results.{Result, ok, err}
use cobo_iam_services.GoText.{itoa}
use cobo_iam_services.Dict.{Dict, lookup, insert, has_key}
use cobo_iam_services.Disclosure.Types.{Template, TemplateBlockDto}
use cobo_iam_services.Disclosure.Blocks.{FieldErrors, Library}
use cobo_iam_services.Disclosure.Blocks.Schema.{validate_block_type_schema}
use cobo_iam_services.Disclosure.FlatSync.{mandatory_template_block_keys}
use cobo_iam_services.Disclosure.Matrix.{
  when, normalized, required_fields, matrix_fields, trimmed_block, new_validation_error,
}

-- `prev, ok := seenOrders[n]`
unfoldable pub order_of : ℕ → List (ℕ × ℕ) → Option ℕ
order_of n [] = none
order_of n ((k, i) ∷ seen) = if eqb k n then some i else order_of n seen

-- What the loop has collected: the index of each key and of each display order, and the errors.
pub record Collected : Type 0 where
  pub seen_keys : Dict ℕ
  pub seen_orders : List (ℕ × ℕ)
  pub errors : FieldErrors

abbrev pub block_prefix : ℕ → String
block_prefix i = "blocks." <> itoa i

abbrev twice : String → ℕ → ℕ → String → FieldErrors → FieldErrors
twice at i prev message errors =
    insert (block_prefix prev <> at) message (insert (block_prefix i <> at) message errors)

unfoldable pub check_key : ℕ → TemplateBlockDto → Collected → Collected
check_key i b c =
    if b.block_key == ""
    then record c {
      errors = insert (block_prefix i <> ".block_key") "block_key is required" c.errors;
    }
    else elim (lookup b.block_key c.seen_keys) [
      | some prev ↦ record c {
        errors = twice ".block_key" i prev "block_key must be unique" c.errors;
      }
      | none ↦ record c { seen_keys = insert b.block_key i c.seen_keys }
    ]

unfoldable pub check_texts : ℕ → TemplateBlockDto → Collected → Collected
check_texts i b c = record c {
  errors = when (b.title == "") (block_prefix i <> ".title") "title is required" (
      when (b.block_type == "") (block_prefix i <> ".block_type") "block_type is required"
        c.errors);
}

-- A display order of zero or less is 0 here.
unfoldable pub check_order : ℕ → TemplateBlockDto → Collected → Collected
unfolding order_of
check_order i b c =
    if eqb b.display_order 0
    then record c {
      errors = insert (block_prefix i <> ".display_order") "display_order must be > 0" c.errors;
    }
    else elim (order_of b.display_order c.seen_orders) [
      | some prev ↦ record c {
        errors = twice ".display_order" i prev "display_order must be unique" c.errors;
      }
      | none ↦ record c { seen_orders = (b.display_order, i) ∷ c.seen_orders }
    ]

-- `validateMandatoryTemplateBlockKeys`
unfoldable pub validate_mandatory_keys : Dict ℕ → List String → FieldErrors → FieldErrors
validate_mandatory_keys seen_keys [] errors = errors
validate_mandatory_keys seen_keys (mk ∷ keys) errors = validate_mandatory_keys seen_keys keys (
    when (not (has_key mk seen_keys)) ("blocks.missing_" <> mk)
      "required mandatory block_key; additional non-mandatory blocks are allowed" errors)

unfoldable pub trimmed_blocks : List TemplateBlockDto → List TemplateBlockDto
unfolding trimmed_block
trimmed_blocks [] = []
trimmed_blocks (b ∷ blocks) = trimmed_block b ∷ trimmed_blocks blocks

abbrev unless_errors : FieldErrors → Template → Result Template
unless_errors errors t = if is_empty errors then ok t else err (new_validation_error errors)

module _ (library : Library) where
  abbrev check_schema : ℕ → TemplateBlockDto → Collected → Collected
  check_schema i b c = record c {
    errors =
        validate_block_type_schema library (block_prefix i) b.block_type b.config b.validation
          c.errors;
  }

  unfoldable pub check_block : ℕ → TemplateBlockDto → Collected → Collected
  unfolding check_key check_texts check_order
  check_block i b c = check_schema i b (check_order i b (check_texts i b (check_key i b c)))

  -- the loop, over the trimmed blocks
  unfoldable pub check_blocks : ℕ → List TemplateBlockDto → Collected → Collected
  unfolding check_block
  check_blocks i [] c = c
  check_blocks i (b ∷ blocks) c = check_blocks (suc i) blocks (check_block i b c)

  unfoldable pub validate_template_blocks : List TemplateBlockDto → FieldErrors
  unfolding check_blocks validate_mandatory_keys
  validate_template_blocks [] = []
  validate_template_blocks (b ∷ blocks) =
      let c =
        check_blocks 0 (b ∷ blocks) (record { seen_keys = []; seen_orders = []; errors = [] }) in
      validate_mandatory_keys c.seen_keys mandatory_template_block_keys c.errors

  -- The template with its names normalised and its blocks trimmed, or the errors of its fields; the
  -- blocks are checked once the other fields are right.
  unfoldable pub validate_template_matrix : Template → Result Template
  unfolding normalized required_fields matrix_fields trimmed_blocks
  validate_template_matrix t =
      let named = normalized t in
      let fields = matrix_fields named (required_fields named []) in
      let trimmed = trimmed_blocks t.blocks in
      let checked =
        unless_errors (validate_template_blocks trimmed) (record named { blocks = trimmed }) in
      if is_empty fields then checked else err (new_validation_error fields)
