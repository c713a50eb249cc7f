-- ===== src/Audit/Listed.antt =====
-- A list of the log against the filter that it stands for.
use cobo_iam_services.Base.{
  ℕ, zero, suc, ◌+◌, String, ◌≡◌, refl, ap, ◌∙◌, Bool, true, false, not, ◌&&◌, ◌||◌, Option, none,
  some, List, [], ◌∷◌, ◌++◌, arith, Bool-cases, inl, inr, length, length-append, take,
  if◌then◌else◌, leb, ltb, eqb,
}
use cobo_iam_services.Base.Results.{ok}
use cobo_iam_services.GoText.{is_blank, trim_space, equal_fold}
use cobo_iam_services.Audit.{
  Entry, Query, Repository, newest_first, or_fifty, differs, parse_rfc3339, both, is_skipped, scan,
  list_by_company,
}

-- A filter that is blank admits every text, any other only its own, in some case.
abbrev pub admits : String → String → Bool
admits wanted actual = is_blank wanted || equal_fold (trim_space actual) (trim_space wanted)

abbrev pub is_limited : Option ℕ → Option ℕ → (ℕ → ℕ → Bool) → Bool
is_limited none occurred test = true
is_limited (some t) none test = true
is_limited (some t) (some at) test = test t at

append_assoc : (xs ys zs : List Entry) → (xs ++ ys) ++ zs ≡ xs ++ (ys ++ zs)
append_assoc [] ys zs = refl
append_assoc (x ∷ xs) ys zs = ap (λ l. x ∷ l) (append_assoc xs ys zs)

append_nil : (xs : List Entry) → xs ≡ xs ++ []
append_nil [] = refl
append_nil (x ∷ xs) = ap (λ l. x ∷ l) (append_nil xs)

module _ (parse_time : String → Option ℕ) where
  -- An entry not before `from`, not after `to` and before the cursor, where both times are there,
  -- whose texts the four filters admit.
  unfoldable pub is_selected : Query → Entry → Bool
  is_selected q item =
      let occurred = parse_rfc3339 parse_time item.occurred_at in
      is_limited (parse_rfc3339 parse_time q.from_occurred_at) occurred (λ t at. leb t at)
      && is_limited (parse_rfc3339 parse_time q.to_occurred_at) occurred (λ t at. leb at t)
      && is_limited (parse_rfc3339 parse_time q.cursor) occurred (λ t at. ltb at t)
      && admits q.company_id item.company_id
      && admits q.action item.action
      && admits q.resource_type item.resource_type
      && admits q.resource_id item.resource_id

  unfoldable pub selected : Query → List Entry → List Entry
  unfolding is_selected
  selected q [] = []
  selected q (item ∷ items) =
      let rest = selected q items in if is_selected q item then item ∷ rest else rest

  limited_lem :
      (wanted occurred : Option ℕ) (skip keep : ℕ → ℕ → Bool)
      → ((t at : ℕ) → skip t at ≡ not (keep t at))
      → both parse_time wanted occurred skip ≡ not (is_limited wanted occurred keep)
  limited_lem none occurred skip keep h = refl
  limited_lem (some t) none skip keep h = refl
  limited_lem (some t) (some at) skip keep h = h t at

  admits_lem : (wanted actual : String) → differs wanted actual ≡ not (admits wanted actual)
  admits_lem wanted actual = ground arith

  not-ltb : (t at : ℕ) → ltb at t ≡ not (leb t at)
  not-ltb t at = ground arith

  any-not :
      (a b c d e f g : Bool)
      → (not a || not b || not c || not d || not e || not f || not g)
        ≡ not (a && b && c && d && e && f && g)
  any-not a b c d e f g = ground arith

  is_skipped_lem :
      (q : Query) (item : Entry) → is_skipped parse_time q item ≡ not (is_selected q item)
  unfolding is_skipped is_selected
  is_skipped_lem q item =
      let occurred = parse_rfc3339 parse_time item.occurred_at in
      rw
        (
          limited_lem (parse_rfc3339 parse_time q.from_occurred_at) occurred (λ t at. ltb at t)
              (λ t at. leb t at) (λ t at. not-ltb t at),
          limited_lem (parse_rfc3339 parse_time q.to_occurred_at) occurred (λ t at. ltb t at)
              (λ t at. leb at t) (λ t at. not-ltb at t),
          limited_lem (parse_rfc3339 parse_time q.cursor) occurred (λ t at. not (ltb at t))
              (λ t at. ltb at t) (λ t at. refl),
          admits_lem q.company_id item.company_id,
          admits_lem q.action item.action,
          admits_lem q.resource_type item.resource_type,
          admits_lem q.resource_id item.resource_id,
        )
        (any-not _ _ _ _ _ _ _)

  ne_of : (n : ℕ) → eqb (suc n) 0 ≡ false
  ne_of n = ground arith

  is_full :
      (limit n : ℕ) (out : List Entry) (item : Entry)
      → length out + suc n ≡ limit
      → leb limit (length (out ++ item ∷ [])) ≡ eqb n 0
  is_full limit n out item h = ground (arith, h, length-append out (item ∷ []))

  fill :
      (q : Query) (item : Entry) (items out : List Entry) (n : ℕ)
      → length out + suc n ≡ or_fifty q.limit
      → ((m : ℕ)
          → length (out ++ item ∷ []) + suc m ≡ or_fifty q.limit
          → scan parse_time q items (out ++ item ∷ [])
            ≡ (out ++ item ∷ []) ++ take (suc m) (selected q items))
      → (if eqb n 0 then out ++ item ∷ [] else scan parse_time q items (out ++ item ∷ []))
        ≡ out ++ item ∷ take n (selected q items)
  fill q item items out zero h rest = refl
  fill q item items out (suc m) h rest = rw (ne_of m) (
      rest m (omega (arith, h, length-append out (item ∷ [])))
      ∙ append_assoc out (item ∷ []) (take (suc m) (selected q items)))

  scan-take :
      (q : Query) (n : ℕ) (items out : List Entry)
      → length out + suc n ≡ or_fifty q.limit
      → scan parse_time q items out ≡ out ++ take (suc n) (selected q items)
  unfolding scan selected
  scan-take q n [] out h = append_nil out
  scan-take q n (item ∷ items) out h = elim (Bool-cases (is_selected q item)) [
    | inl is ↦
        let kept : is_skipped parse_time q item ≡ false = is_skipped_lem q item ∙ ap not is in
        rw (kept, is, is_full (or_fifty q.limit) n out item h)
          (fill q item items out n h (λ m e. scan-take q m items (out ++ item ∷ []) e))
    | inr isnt ↦
        let skipped : is_skipped parse_time q item ≡ true = is_skipped_lem q item ∙ ap not isnt in
        rw (skipped, isnt) (scan-take q n items out h)
  ]

  positive : (limit : ℕ) → (n : ℕ) × (suc n ≡ or_fifty limit)
  positive zero = (49, refl)
  positive (suc n) = (n, rw (ne_of n) refl)

  -- A list of the log is the newest entries that the query selects, as many as its limit (50 by
  -- default) at most, the newest first; the log stays as it is.
  pub list_by_company-take :
      (q : Query) (entries : Repository)
      → list_by_company parse_time q entries
        ≡ (ok (take (or_fifty q.limit) (selected q (newest_first entries))), entries)
  unfolding list_by_company
  list_by_company-take q entries =
      let (n, e) = positive q.limit in
      rw (scan-take q n (newest_first entries) [] (omega (arith, e)), e) refl
