-- ===== src/Workflow/Settled.antt =====
-- A task that has left the status pending is never written again.
use cobo_iam_services.Base.{
  ℕ, ◌+◌, ◌≤◌, String, ◌≡◌, ◌≢◌, refl, sym, ◌∙◌, subst, some, List, [], ◌∷◌, arith, inl, inr, All,
  true,
}
use cobo_iam_services.Dict.{lookup, lookup-insert_cases, lookup-insert_other}
use cobo_iam_services.Authz.{AuthService}
use cobo_iam_services.Workflow.{State, Task, ikey}
use cobo_iam_services.Workflow.Keys.{ikey_inj, is_plain}
use cobo_iam_services.Workflow.Calls.{
  Stands, Call, IsPlainCall, after, run, IsValid, IsFresh, Change, same, moves, makes, after-Change,
}

module _ (auth : AuthService) (new_uuid : ℕ → String) where
  Stands-mono :
      (n m : ℕ) (k : String) (t : Task)
      → n ≤ m
      → Stands auth new_uuid n k t
      → Stands auth new_uuid m k t
  unfolding Stands
  Stands-mono n m k t le (key, plain, i, lt, id) = (key, plain, i, omega (arith, le, lt), id)

  Stands-at :
      (n : ℕ) {k j : String} {t u : Task}
      → k ≡ j
      → t ≡ u
      → Stands auth new_uuid n k t
      → Stands auth new_uuid n j u
  Stands-at n {j = j} {t = t} p q h =
      subst (λ v. Stands auth new_uuid n j v) q (subst (λ i. Stands auth new_uuid n i t) p h)

  -- A new task's key is not among the old ones.
  new-differs :
      (s : State) (k : String) (t u : Task)
      → is_plain u.company_id ≡ true
      → u.task_id ≡ new_uuid (s.next_id + 1)
      → IsFresh new_uuid
      → Stands auth new_uuid s.next_id k t
      → ikey u.company_id u.task_id ≢ k
  unfolding Stands IsFresh
  new-differs s k t u plain id fresh (key, plain', i, lt, id') e =
      let (_, ids) =
        ikey_inj u.company_id t.company_id u.task_id t.task_id plain plain' (e ∙ key) in
      let at = fresh (s.next_id + 1) i (sym id ∙ (ids ∙ id')) in omega (arith, at, lt)

  Change-IsValid :
      (s s' : State)
      → Change auth new_uuid s s'
      → IsValid auth new_uuid s
      → IsValid auth new_uuid s'
  unfolding IsValid
  Change-IsValid s _ same valid = valid
  Change-IsValid s _ (moves k next_status task s' found pending ids tasks) valid = λ j t h.
      elim (lookup-insert_cases k j _ t _ (subst (λ m. lookup j m ≡ some t) tasks h)) [
        | inr before ↦ subst (λ n. Stands auth new_uuid n j t) (sym ids) (valid j t before)
        | inl (at, is) ↦ Stands-at s'.next_id at is (rw ids (valid k task found))
      ]
  Change-IsValid s _ (makes u s' plain id ids tasks) valid = λ j t h.
      elim (lookup-insert_cases (ikey u.company_id u.task_id) j u t _
        (subst (λ m. lookup j m ≡ some t) tasks h)) [
          | inr before ↦
              Stands-mono s.next_id s'.next_id j t (omega (arith, ids)) (valid j t before)
          | inl (at, is) ↦
              Stands-at s'.next_id at is (refl, plain, s.next_id + 1, omega (arith, ids), id)
        ]

  Change-keeps :
      (s s' : State) (k : String) (t : Task)
      → Change auth new_uuid s s'
      → IsFresh new_uuid
      → IsValid auth new_uuid s
      → t.status ≢ "pending"
      → lookup k s.tasks ≡ some t
      → lookup k s'.tasks ≡ some t
  unfolding IsValid IsFresh
  Change-keeps s _ k t same fresh valid settled found = found
  Change-keeps s _ k t (moves j next_status task s' old pending ids tasks) fresh valid settled
        found =
      rw tasks (lookup-insert_other j k _ _ (λ same_key. settled cc) ∙ found)
  Change-keeps s _ k t (makes u s' plain id ids tasks) fresh valid settled found = rw tasks (
      lookup-insert_other (ikey u.company_id u.task_id) k _ _
        (λ e. new-differs s k t u plain id fresh (valid k t found) e)
      ∙ found)

  -- A task that is no longer pending is the same after any further calls, whatever they are. The
  -- state is valid, the generator gives no identifier twice, and callers' companies have no colon
  -- in their id.
  pub run-keeps_settled :
      (calls : List Call) (s : State) (k : String) (t : Task)
      → IsFresh new_uuid
      → IsValid auth new_uuid s
      → All IsPlainCall calls
      → t.status ≢ "pending"
      → lookup k s.tasks ≡ some t
      → lookup k (run auth new_uuid calls s).tasks ≡ some t
  unfolding run
  run-keeps_settled [] s k t fresh valid plain settled found = found
  run-keeps_settled (c ∷ calls) s k t fresh valid (plain, rest) settled found =
      let change = after-Change auth new_uuid c s plain valid in
      run-keeps_settled calls (after auth new_uuid c s) k t fresh (Change-IsValid s _ change valid)
        rest settled (Change-keeps s _ k t change fresh valid settled found)

  -- Every sequence of calls keeps the tasks valid: each is under its own key, for a company without
  -- a colon in its id, with an identifier that was given out. Callers' companies have no colon.
  pub run-IsValid :
      (calls : List Call) (s : State)
      → IsValid auth new_uuid s
      → All IsPlainCall calls
      → IsValid auth new_uuid (run auth new_uuid calls s)
  unfolding run
  run-IsValid [] s valid plain = valid
  run-IsValid (c ∷ calls) s valid (plain, rest) =
      run-IsValid calls (after auth new_uuid c s)
        (Change-IsValid s _ (after-Change auth new_uuid c s plain valid) valid) rest
