-- ===== src/Disclosure/Catalog/Active/Runs.antt =====
-- Sequences of the administrator's calls, and what a new version reads as.
use cobo_iam_services.Base.{
  ℕ, ◌+◌, ap, Option, none, String, ◌≡◌, ◌≢◌, refl, ◌∙◌, Bool, true, false, some, List, [], ◌∷◌,
  ◌==◌, arith, eq_iff, eqb, not, ◌&&◌, if◌then◌else◌,
}
use cobo_iam_services.Base.Results.{ok, err}
use cobo_iam_services.Base.Preserves.{Preserves, unless-Preserves, chain-Preserves, lift-Preserves}
use cobo_iam_services.Dict.{lookup, get_or, lookup-insert_same}
use cobo_iam_services.Authz.{AuthService}
use cobo_iam_services.Disclosure.Types.{
  Template, DisclosureTypeDto, UpsertTypeVersionRequest, ActivateTypeVersionRequest,
}
use cobo_iam_services.Disclosure.Blocks.{Library}
use cobo_iam_services.GoText.{is_blank, trim_space}
use cobo_iam_services.Disclosure.Access.{access_denied}
use cobo_iam_services.Disclosure.Records.{bad_request}
use cobo_iam_services.Disclosure.Matrix.Rules.{validate_template_matrix}
use cobo_iam_services.Disclosure.Catalog.{State, is_foreign, get_type_detail, type_not_found}
use cobo_iam_services.Disclosure.Catalog.Versions.{upsert_type_version, next_type, next_version}
use cobo_iam_services.Disclosure.Catalog.Admin.{
  upsert_version, activate_version, synchronise, is_no_admin, cleaned,
}
use cobo_iam_services.Disclosure.Catalog.Active.{IsConsistent}
use cobo_iam_services.Disclosure.Catalog.Active.Calls.{upsert-IsConsistent, activate-IsConsistent}

-- A call of an administrator, with the time of the clock.
pub data Call : Type 0 where
  upserts : ℕ → UpsertTypeVersionRequest → Call
  activates : ℕ → ActivateTypeVersionRequest → Call

module _ (auth : AuthService) (new_uuid : ℕ → String) (library : Library) where
  synchronise-IsConsistent :
      (t : Template) → Preserves IsConsistent (synchronise auth new_uuid library t)
  unfolding Preserves
  synchronise-IsConsistent t s consistent = record {
    shown = consistent.shown;
    snapshots = consistent.snapshots;
  }

  upsert_version-IsConsistent :
      (now : ℕ) (req : UpsertTypeVersionRequest)
      → Preserves IsConsistent (upsert_version auth new_uuid library now req)
  unfolding upsert_version cleaned
  upsert_version-IsConsistent now req =
      let t = cleaned req.template in
      unless-Preserves IsConsistent (is_no_admin auth new_uuid library req.subject) access_denied _
        (unless-Preserves IsConsistent (is_blank req.type_id) (bad_request "type_id is required") _
          (unless-Preserves IsConsistent (t.group_id == "") (bad_request "group_id is required") _ (
            unless-Preserves IsConsistent (t.name == "") (bad_request "name is required") _ (
              chain-Preserves IsConsistent (synchronise auth new_uuid library t) _
                (synchronise-IsConsistent t)
                λ synced.
                  lift-Preserves IsConsistent (validate_template_matrix library synced) _ λ valid.
                    upsert-IsConsistent now
                      (record req { type_id = trim_space req.type_id; template = valid })))))

  activate_version-IsConsistent :
      (now : ℕ) (req : ActivateTypeVersionRequest)
      → Preserves IsConsistent (activate_version auth new_uuid library now req)
  unfolding activate_version
  activate_version-IsConsistent now req =
      unless-Preserves IsConsistent (is_no_admin auth new_uuid library req.subject) access_denied _
        (unless-Preserves IsConsistent (is_blank req.type_id) (bad_request "type_id is required") _
          (unless-Preserves IsConsistent (eqb req.version_no 0)
            (bad_request "version_no must be > 0") _
            (activate-IsConsistent now
              (record req { type_id = trim_space req.type_id; reason = trim_space req.reason }))))

  abbrev pub after : Call → State → State
  after (upserts now req) s = (upsert_version auth new_uuid library now req s).1
  after (activates now req) s = (activate_version auth new_uuid library now req s).1

  unfoldable pub run : List Call → State → State
  run [] s = s
  run (c ∷ calls) s = run calls (after c s)

  -- Every sequence of calls of administrators, successful or not, keeps each type with one active
  -- version at most, which has the number of the version that the catalog shows, and each version's
  -- snapshot with its number.
  pub run-IsConsistent :
      (calls : List Call) (s : State) → IsConsistent s → IsConsistent (run calls s)
  unfolding run Preserves
  run-IsConsistent [] s consistent = consistent
  run-IsConsistent (upserts now req ∷ calls) s consistent =
      run-IsConsistent calls _ (upsert_version-IsConsistent now req s consistent)
  run-IsConsistent (activates now req ∷ calls) s consistent =
      run-IsConsistent calls _ (activate_version-IsConsistent now req s consistent)

detail-found :
    (company_id type_id : String) (s : State) (item : DisclosureTypeDto) (foreign : Bool)
    → lookup type_id s.catalog ≡ some item
    → is_foreign company_id type_id s ≡ foreign
    → get_type_detail company_id type_id s
      ≡ (if foreign then (err type_not_found, s) else (ok item, s))
unfolding get_type_detail
detail-found company_id type_id s item foreign found test = rw (get_type_detail, found, test) refl

foreign-test :
    (company_id type_id : String) (s : State) (scope : String)
    → lookup type_id s.catalog_scope ≡ some scope
    → is_foreign company_id type_id s ≡ (not (scope == "global") && not (scope == company_id))
unfolding is_foreign
foreign-test company_id type_id s scope found = rw (is_foreign, get_or, found) refl

own_scope : (c : String) → (not (c == "global") && not (c == c)) ≡ false
own_scope c = ground (arith, eq_iff c c)

other_scope : (c d : String) → c ≢ "global" → c ≢ d → (not (c == "global") && not (c == d)) ≡ true
other_scope c d named differ = ground (arith, eq_iff c d, eq_iff c "global", named, differ)

-- What was asked for, as the version after the one stored before.
abbrev pub written : UpsertTypeVersionRequest → Option DisclosureTypeDto → DisclosureTypeDto
written req none = record { version_no = 1; type_id = req.type_id; template = req.template }
written req (some current) = record {
  version_no = current.version_no + 1;
  type_id = req.type_id;
  template = req.template;
}

next_type-written :
    (req : UpsertTypeVersionRequest) (before : Option DisclosureTypeDto)
    → next_type req (next_version before) ≡ written req before
unfolding next_type
next_type-written req none = refl
next_type-written req (some current) =
    ap (λ n. record { version_no = n; type_id = req.type_id; template = req.template })
      (omega arith)

-- The type that a company has written reads back for that company with each field of the template
-- as it was written and with the next version number, one more than that of the type stored before; any other company, unless it is named `global`, finds no such type.
pub upsert-get_type_detail :
    (now : ℕ) (req : UpsertTypeVersionRequest) (company_id : String) (s : State)
    → (get_type_detail req.subject.company_id req.type_id (upsert_type_version now req s).1
        ≡ (ok (written req (lookup req.type_id s.catalog)), (upsert_type_version now req s).1))
      × (req.subject.company_id ≢ "global"
          → req.subject.company_id ≢ company_id
          → get_type_detail company_id req.type_id (upsert_type_version now req s).1
            ≡ (err type_not_found, (upsert_type_version now req s).1))
unfolding upsert_type_version next_type
upsert-get_type_detail now req company_id s =
    let t = req.type_id in
    let item = written req (lookup t s.catalog) in
    let next = (upsert_type_version now req s).1 in
    let stored = next_type req (next_version (lookup t s.catalog)) in
    let here : lookup t next.catalog ≡ some item =
      lookup-insert_same t stored s.catalog
      ∙ ap (λ i. some i) (next_type-written req (lookup t s.catalog)) in
    let owner = lookup-insert_same t req.subject.company_id s.catalog_scope in
    (
      detail-found req.subject.company_id t next item false here (
          foreign-test req.subject.company_id t next req.subject.company_id owner
          ∙ own_scope req.subject.company_id),
      λ named differ. detail-found company_id t next item true here (
          foreign-test company_id t next req.subject.company_id owner
          ∙ other_scope req.subject.company_id company_id named differ),
    )
