-- ===== src/Disclosure/FlatSync/Mirror.antt =====
-- internal/disclosure/app/template_flat_block_sync.go: the descriptions of the mandatory blocks are
-- copied back to the flat fields, and the whole synchronisation.
use cobo_iam_services.Base.{
  ℕ, String, Option, none, some, List, [], ◌∷◌, ◌==◌, if◌then◌else◌, is_empty,
}
use cobo_iam_services.GoText.{trim_space}
use cobo_iam_services.Dict.{Dict, lookup, insert}
use cobo_iam_services.Disclosure.Types.{Template, TemplateBlockDto}
use cobo_iam_services.Disclosure.FlatSync.{
  mandatory_template_block_keys, block_key_of, ensure_mandatory_blocks, rebuild,
}

-- the last block of each key
unfoldable pub by_key : List TemplateBlockDto → Dict TemplateBlockDto → Dict TemplateBlockDto
by_key [] found = found
by_key (b ∷ blocks) found =
    by_key blocks (if block_key_of b == "" then found else insert (block_key_of b) b found)

unfoldable pub set_flat_field : String → String → Template → Template
set_flat_field mk d t =
    if mk == "legal_basis"
    then record t { legal_basis = d }
    else if mk == "disclosure_content"
    then record t { report_content = d }
    else if mk == "deadline"
    then record t { deadline_rule = d }
    else if mk == "channels_and_format"
    then record t { channels_text = d }
    else if mk == "legal_risks"
    then record t { legal_risks_text = d }
    else if mk == "enterprise_workflow"
    then record t { implementation_content = d }
    else t

abbrev mirror_one : String → Option TemplateBlockDto → Template → Template
mirror_one mk none t = t
mirror_one mk (some b) t = set_flat_field mk (trim_space b.description) t

unfoldable pub mirror_keys : Dict TemplateBlockDto → List String → Template → Template
unfolding set_flat_field
mirror_keys found [] t = t
mirror_keys found (mk ∷ keys) t = mirror_keys found keys (mirror_one mk (lookup mk found) t)

unfoldable pub mirror_descriptions : Template → Template
unfolding by_key mirror_keys
mirror_descriptions t = mirror_keys (by_key t.blocks []) mandatory_template_block_keys t

abbrev mirrored : Template × ℕ → Template × ℕ
mirrored (t, n) = (mirror_descriptions t, n)

-- `ApplyTemplateFlatBlockSync`, with how many identifiers the generator has given out
unfoldable pub apply_template_flat_block_sync : (ℕ → String) → Template → ℕ → Template × ℕ
unfolding ensure_mandatory_blocks rebuild
apply_template_flat_block_sync new_uuid t n =
    let (filled, m) = ensure_mandatory_blocks new_uuid t n in
    let synced = mirrored (rebuild new_uuid filled m) in
    if is_empty filled.blocks then (filled, m) else synced
