-- ===== src/Disclosure/FlatSync/Order.antt =====
-- The blocks of a template after the rebuild: the mandatory ones first, then the others, numbered.
use mathlib.Core.List.{map-append}
use cobo_iam_services.Base.{
  ℕ, zero, suc, String, ◌≡◌, refl, ap, sym, ◌∙◌, false, Option, none, some, List, [], ◌∷◌, ◌++◌,
  map, length, All, Bool-cases, inl, inr, ◌⊎◌, ◌≢◌, In, here, there, eq_iff, ◌==◌, subst, true,
  arith, ne_of_eq-false,
}
use cobo_iam_services.GoText.{
  to_lower, trim_space, is_blank, lower_rune, of_code, trim_left, trim_right, is_space,
}
use cobo_iam_services.Dict.{Dict, lookup, insert, lookup-insert_cases}
use cobo_iam_services.Disclosure.Sanitize.{has_seen}
use cobo_iam_services.Disclosure.Types.{Template, TemplateBlockDto}
use cobo_iam_services.Disclosure.FlatSync.{
  mandatory_template_block_keys, block_key_of, has_duplicate_block_keys, is_mandatory_block_key,
  mandatory_blocks, extra_blocks, new_mandatory_block, place_mandatory, place_extras, rebuild,
  placed, mandatory_at, described,
}

abbrev pub orders : List TemplateBlockDto → List ℕ
orders = map (λ (b : TemplateBlockDto). b.display_order)

abbrev pub keys_of : List TemplateBlockDto → List String
keys_of = map block_key_of

-- `n` numbers from `first` on
unfoldable pub range : ℕ → ℕ → List ℕ
range first zero = []
range first (suc n) = first ∷ range (suc first) n

-- Every block is found under its own key.
abbrev IsFiled : Dict TemplateBlockDto → Type 0
IsFiled found = (k : String) (b : TemplateBlockDto) → lookup k found ≡ some b → block_key_of b ≡ k

mandatory_blocks-IsFiled :
    (blocks : List TemplateBlockDto) (found : Dict TemplateBlockDto)
    → IsFiled found
    → IsFiled (mandatory_blocks blocks found)
unfolding mandatory_blocks
mandatory_blocks-IsFiled [] found filed = filed
mandatory_blocks-IsFiled (b ∷ blocks) found filed =
    elim (Bool-cases (is_mandatory_block_key (block_key_of b))) [
      | inl is ↦ rw is (
          mandatory_blocks-IsFiled blocks (insert (block_key_of b) b found) λ k c h.
            elim (lookup-insert_cases (block_key_of b) k b c found h) [
              | inl (key, same) ↦ ap block_key_of (sym same) ∙ key
              | inr before ↦ filed k c before
            ])
      | inr isnt ↦ rw isnt (mandatory_blocks-IsFiled blocks found filed)
    ]

abbrev IsCanonical : String → Type 0
IsCanonical k = to_lower (trim_space k) ≡ k

cons_eq {ℓ} : {A : Type ℓ} {x y : A} {xs ys : List A} → x ≡ y → xs ≡ ys → x ∷ xs ≡ y ∷ ys
cons_eq {y = y} {xs = xs} p q = ap (λ z. z ∷ xs) p ∙ ap (λ l. y ∷ l) q

none-IsFiled : IsFiled []
unfolding lookup
none-IsFiled k b h = cc

mandatory-IsCanonical : All IsCanonical mandatory_template_block_keys
unfolding to_lower trim_space trim_left trim_right lower_rune of_code is_space
mandatory-IsCanonical = (refl, (refl, (refl, (refl, (refl, (refl, tt))))))

append_eq {ℓ} : {A : Type ℓ} {xs ys us vs : List A} → xs ≡ ys → us ≡ vs → xs ++ us ≡ ys ++ vs
append_eq {ys = ys} {us = us} p q = ap (λ l. l ++ us) p ∙ ap (λ l. ys ++ l) q

abbrev pub IsMandatory : TemplateBlockDto → Type 0
IsMandatory b = In (to_lower (trim_space (block_key_of b))) mandatory_template_block_keys

-- The blocks of a list whose key is neither blank nor a mandatory one, in their order.
pub data Others : List TemplateBlockDto → List TemplateBlockDto → Type 0 where
  none_left : Others [] []
  drops :
      {b : TemplateBlockDto} {blocks others : List TemplateBlockDto}
      → (block_key_of b ≡ "") ⊎ IsMandatory b
      → Others blocks others
      → Others (b ∷ blocks) others
  keeps :
      {b : TemplateBlockDto} {blocks others : List TemplateBlockDto}
      → block_key_of b ≢ ""
      → ¬ IsMandatory b
      → Others blocks others
      → Others (b ∷ blocks) (b ∷ others)

seen_sound : (k : String) (ks : List String) → has_seen k ks ≡ true → In k ks
unfolding has_seen
seen_sound k [] h = cc
seen_sound k (j ∷ ks) h = elim (Bool-cases (j == k)) [
  | inl e ↦ subst (λ i. In k (i ∷ ks)) (sym ((eq_iff j k).0 e)) here
  | inr n ↦ there (seen_sound k ks (rw n at h))
]

seen_complete : (k : String) (ks : List String) → In k ks → has_seen k ks ≡ true
unfolding has_seen
seen_complete k _ (here {xs = ks}) = rw ((eq_iff k k).1 refl) refl
seen_complete k _ (there {y = j} {xs = ks} m) =
    let rest = seen_complete k ks m in ground (arith, rest)

extra_blocks-Others : (blocks : List TemplateBlockDto) → Others blocks (extra_blocks blocks)
unfolding extra_blocks is_mandatory_block_key
extra_blocks-Others [] = none_left
extra_blocks-Others (b ∷ blocks) =
    let rest = extra_blocks-Others blocks in
    let k = to_lower (trim_space (block_key_of b)) in
    elim (Bool-cases (block_key_of b == "")) [
      | inl blank ↦ rw blank (drops (inl ((eq_iff (block_key_of b) "").0 blank)) rest)
      | inr filled ↦ elim (Bool-cases (has_seen k mandatory_template_block_keys)) [
        | inl is ↦ rw (filled, is) (drops (inr (seen_sound k _ is)) rest)
        | inr isnt ↦
            rw (filled, isnt)
              (keeps (ne_of_eq-false filled)
                (λ m. cc (isnt, seen_complete k mandatory_template_block_keys m)) rest)
      ]
    ]

module _ (new_uuid : ℕ → String) where
  placed-Order :
      (order n : ℕ) (b : TemplateBlockDto)
      → (block_key_of (placed new_uuid order n b).0 ≡ block_key_of b)
        × ((placed new_uuid order n b).0.display_order ≡ order)
  placed-Order order n b = elim (Bool-cases (is_blank b.block_id)) [
    | inl blank ↦ rw blank (refl, refl)
    | inr given ↦ rw given (refl, refl)
  ]

  mandatory_at-Order :
      (k : String) (t : Template) (order n : ℕ) (o : Option TemplateBlockDto)
      → ((b : TemplateBlockDto) → o ≡ some b → block_key_of b ≡ k)
      → IsCanonical k
      → (block_key_of (mandatory_at new_uuid k t order n o).0 ≡ k)
        × ((mandatory_at new_uuid k t order n o).0.display_order ≡ order)
  unfolding new_mandatory_block described
  mandatory_at-Order k t order n none filed canonical = (canonical, refl)
  mandatory_at-Order k t order n (some b) filed canonical =
      let (key, at) = placed-Order order n (described k t b) in (key ∙ filed b refl, at)

  place_mandatory-Order :
      (t : Template) (found : Dict TemplateBlockDto) (ks : List String) (order n : ℕ)
      → IsFiled found
      → All IsCanonical ks
      → (keys_of (place_mandatory new_uuid t found ks order n).0 ≡ ks)
        × (orders (place_mandatory new_uuid t found ks order n).0 ≡ range order (length ks))
  unfolding place_mandatory range
  place_mandatory-Order t found [] order n filed canonical = (refl, refl)
  place_mandatory-Order t found (k ∷ ks) order n filed (is, rest) =
      let here = mandatory_at new_uuid k t order n (lookup k found) in
      let (key, at) = mandatory_at-Order k t order n (lookup k found) (filed k) is in
      let (below, numbers) = place_mandatory-Order t found ks (suc order) here.1 filed rest in
      (cons_eq key below, cons_eq at numbers)

  place_extras-Order :
      (blocks : List TemplateBlockDto) (order n : ℕ)
      → (keys_of (place_extras new_uuid blocks order n).0 ≡ keys_of blocks)
        × (orders (place_extras new_uuid blocks order n).0 ≡ range order (length blocks))
  unfolding place_extras range
  place_extras-Order [] order n = (refl, refl)
  place_extras-Order (b ∷ blocks) order n =
      let (key, at) = placed-Order order n b in
      let (below, numbers) = place_extras-Order blocks (suc order) (placed new_uuid order n b).1 in
      (cons_eq key below, cons_eq at numbers)

  -- After the rebuild of a template without duplicate keys, the six mandatory keys stand first, in
  -- their fixed order, then those of the other blocks with a filled key in the order they had, while
  -- a block whose key is blank is dropped; and the display orders of the blocks are 1 to 6, then 7, 8
  -- and so on.
  pub rebuild-Order :
      (t : Template) (n : ℕ)
      → has_duplicate_block_keys t.blocks ≡ false
      → (others : List TemplateBlockDto) × Others t.blocks others
        × (keys_of (rebuild new_uuid t n).0.blocks
            ≡ mandatory_template_block_keys ++ keys_of others)
        × (orders (rebuild new_uuid t n).0.blocks ≡ range 1 6 ++ range 7 (length others))
  unfolding rebuild
  rebuild-Order t n single =
      let found = mandatory_blocks t.blocks [] in
      let first = place_mandatory new_uuid t found mandatory_template_block_keys 1 n in
      let rest = place_extras new_uuid (extra_blocks t.blocks) 7 first.1 in
      let (keys, numbers) =
        place_mandatory-Order t found mandatory_template_block_keys 1 n
          (mandatory_blocks-IsFiled t.blocks [] none-IsFiled) mandatory-IsCanonical in
      let (others, more) = place_extras-Order (extra_blocks t.blocks) 7 first.1 in
      rw single (
        extra_blocks t.blocks,
        extra_blocks-Others t.blocks,
        map-append block_key_of first.0 rest.0 ∙ append_eq keys others,
        map-append (λ (b : TemplateBlockDto). b.display_order) first.0 rest.0
            ∙ append_eq numbers more,
      )
