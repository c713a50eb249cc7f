-- ===== src/Disclosure/FlatSync.antt =====
-- internal/disclosure/app/template_mandatory_blocks.go and template_flat_block_sync.go: a template
-- has six mandatory blocks, whose descriptions and the template's flat fields are kept the same.
pub mod Order
pub mod Mirror
use cobo_iam_services.Base.{
  ℕ, suc, ◌+◌, String, ◌<>◌, Bool, true, false, not, ◌&&◌, ◌||◌, Option, none, some, List, [], ◌∷◌,
  ◌++◌, ◌==◌, if◌then◌else◌, is_empty, length,
}
use cobo_iam_services.GoText.{is_blank, trim_space, to_lower, join}
use cobo_iam_services.Dict.{Dict, lookup, insert}
use cobo_iam_services.Disclosure.Sanitize.{has_seen}
use cobo_iam_services.Disclosure.Types.{
  Template, TemplateBlockDto, Fields, empty, field, Value, number, boolean, Number, finite,
}

abbrev pub mandatory_template_block_keys : List String
mandatory_template_block_keys =
    "legal_basis" ∷ "disclosure_content" ∷ "deadline" ∷ "channels_and_format" ∷ "legal_risks"
    ∷ "enterprise_workflow" ∷ []

-- the key of a block as the code compares it
abbrev pub block_key_of : TemplateBlockDto → String
block_key_of b = to_lower (trim_space b.block_key)

unfoldable pub any_mandatory_flat_field_set : Template → Bool
any_mandatory_flat_field_set t =
    not (is_blank t.legal_basis)
    || not (is_blank t.report_content)
    || not (is_blank t.deadline_rule)
    || not (is_blank t.channels_text)
    || not (is_blank t.format)
    || not (is_blank t.legal_risks_text)
    || not (is_blank t.implementation_content)

abbrev channels_part : String → List String
channels_part s = if is_blank s then [] else trim_space s ∷ []

abbrev format_part : String → List String
format_part s = if is_blank s then [] else ("Format: " <> trim_space s) ∷ []

unfoldable pub channels_and_format_flat : Template → String
channels_and_format_flat t = join "\n" (channels_part t.channels_text ++ format_part t.format)

unfoldable pub flat_string_for_mandatory_key : String → Template → String
unfolding channels_and_format_flat
flat_string_for_mandatory_key mk t =
    if mk == "legal_basis"
    then t.legal_basis
    else if mk == "disclosure_content"
    then t.report_content
    else if mk == "deadline"
    then t.deadline_rule
    else if mk == "channels_and_format"
    then channels_and_format_flat t
    else if mk == "legal_risks"
    then t.legal_risks_text
    else if mk == "enterprise_workflow"
    then t.implementation_content
    else ""

abbrev max_length : ℕ → Bool → Fields
max_length n allow_html =
    field "max_length" (number (finite false n false))
      (field "allow_html" (boolean allow_html) empty)

-- `mandatoryBlockShape`: a title, a type and a configuration
unfoldable pub mandatory_block_shape : String → String × String × Fields
mandatory_block_shape mk =
    if mk == "legal_basis"
    then ("Cơ sở pháp lý", "rich_text", max_length 8000 false)
    else if mk == "disclosure_content"
    then ("Nội dung công bố/báo cáo", "rich_text", max_length 50000 true)
    else if mk == "deadline"
    then (
      "Kỳ hạn công bố/báo cáo",
      "text",
      field "max_length" (number (finite false 4000 false)) empty,
    )
    else if mk == "channels_and_format"
    then ("Kênh và hình thức công bố/báo cáo", "rich_text", max_length 12000 false)
    else if mk == "legal_risks"
    then ("Rủi ro pháp lý nếu không thực hiện đúng", "rich_text", max_length 8000 false)
    else if mk == "enterprise_workflow"
    then ("Workflow của doanh nghiệp", "rich_text", max_length 12000 true)
    else (mk, "text", empty)

unfoldable pub has_duplicate_from : List String → List TemplateBlockDto → Bool
unfolding has_seen
has_duplicate_from seen [] = false
has_duplicate_from seen (b ∷ blocks) =
    let k = block_key_of b in
    let skipped = has_duplicate_from seen blocks in
    let noted = has_duplicate_from (k ∷ seen) blocks in
    if k == "" then skipped else if has_seen k seen then true else noted

unfoldable pub has_duplicate_block_keys : List TemplateBlockDto → Bool
unfolding has_duplicate_from
has_duplicate_block_keys blocks = has_duplicate_from [] blocks

unfoldable pub is_mandatory_block_key : String → Bool
unfolding has_seen
is_mandatory_block_key k = has_seen (to_lower (trim_space k)) mandatory_template_block_keys

-- The first loop of the rebuild: the blocks with mandatory keys by key, the others in order.
unfoldable pub mandatory_blocks :
    List TemplateBlockDto → Dict TemplateBlockDto → Dict TemplateBlockDto
unfolding is_mandatory_block_key
mandatory_blocks [] found = found
mandatory_blocks (b ∷ blocks) found =
    mandatory_blocks blocks
      (if is_mandatory_block_key (block_key_of b) then insert (block_key_of b) b found else found)

unfoldable pub extra_blocks : List TemplateBlockDto → List TemplateBlockDto
unfolding is_mandatory_block_key
extra_blocks [] = []
extra_blocks (b ∷ blocks) =
    let rest = extra_blocks blocks in
    if block_key_of b == "" || is_mandatory_block_key (block_key_of b) then rest else b ∷ rest

abbrev or_keep : String → String → String
or_keep old s = if is_blank s then old else s

-- `applyFlatStringToMandatoryDescription`: the flat field, unless it is blank
unfoldable pub described : String → Template → TemplateBlockDto → TemplateBlockDto
unfolding flat_string_for_mandatory_key
described mk t b = record b {
  description = or_keep b.description (flat_string_for_mandatory_key mk t);
}

module _ (new_uuid : ℕ → String) where
  unfoldable pub new_mandatory_block : String → Template → ℕ → ℕ → TemplateBlockDto
  unfolding mandatory_block_shape flat_string_for_mandatory_key
  new_mandatory_block mk t order n =
      let (title, block_type, config) = mandatory_block_shape mk in
      record {
        block_id = new_uuid n;
        block_key = mk;
        block_type = block_type;
        title = title;
        description = trim_space (flat_string_for_mandatory_key mk t);
        config = config;
        validation = empty;
        display_order = order;
        enabled = true;
      }

  -- a block at a place, with an identifier if it had none; and the next number of the generator
  abbrev pub placed : ℕ → ℕ → TemplateBlockDto → TemplateBlockDto × ℕ
  placed order n b =
      if is_blank b.block_id
      then (record b { block_id = new_uuid n; display_order = order }, suc n)
      else (record b { display_order = order }, n)

  abbrev pub mandatory_at :
      String → Template → ℕ → ℕ → Option TemplateBlockDto → TemplateBlockDto × ℕ
  mandatory_at mk t order n none = (new_mandatory_block mk t order n, suc n)
  mandatory_at mk t order n (some b) = placed order n (described mk t b)

  unfoldable pub place_mandatory :
      Template → Dict TemplateBlockDto → List String → ℕ → ℕ → List TemplateBlockDto × ℕ
  unfolding new_mandatory_block flat_string_for_mandatory_key lookup
  place_mandatory t found [] order n = ([], n)
  place_mandatory t found (mk ∷ keys) order n =
      let (b, m) = mandatory_at mk t order n (lookup mk found) in
      let (rest, last) = place_mandatory t found keys (suc order) m in (b ∷ rest, last)

  unfoldable pub place_extras : List TemplateBlockDto → ℕ → ℕ → List TemplateBlockDto × ℕ
  place_extras [] order n = ([], n)
  place_extras (b ∷ blocks) order n =
      let (c, m) = placed order n b in
      let (rest, last) = place_extras blocks (suc order) m in (c ∷ rest, last)

  unfoldable pub rebuild : Template → ℕ → Template × ℕ
  unfolding has_duplicate_block_keys mandatory_blocks extra_blocks place_mandatory place_extras
  rebuild t n =
      if has_duplicate_block_keys t.blocks
      then (t, n)
      else (let (first, m) =
            place_mandatory t (mandatory_blocks t.blocks []) mandatory_template_block_keys 1 n in
          let (others, last) =
            place_extras (extra_blocks t.blocks) (suc (length mandatory_template_block_keys)) m in
          (record t { blocks = first ++ others }, last))

  unfoldable pub fresh_mandatory : Template → List String → ℕ → ℕ → List TemplateBlockDto × ℕ
  unfolding new_mandatory_block
  fresh_mandatory t [] order n = ([], n)
  fresh_mandatory t (mk ∷ keys) order n =
      let (rest, last) = fresh_mandatory t keys (suc order) (suc n) in
      (new_mandatory_block mk t order n ∷ rest, last)

  unfoldable pub ensure_mandatory_blocks : Template → ℕ → Template × ℕ
  unfolding any_mandatory_flat_field_set fresh_mandatory
  ensure_mandatory_blocks t n =
      if not (is_empty t.blocks) || not (any_mandatory_flat_field_set t)
      then (t, n)
      else (let (blocks, m) = fresh_mandatory t mandatory_template_block_keys 1 n in
          (record t { blocks = blocks }, m))
