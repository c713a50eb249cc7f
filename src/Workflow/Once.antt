-- ===== src/Workflow/Once.antt =====
-- A task leaves the status pending at most once, by its assignee, with the authorization service's
-- consent. The identifiers are those the generator gave, and companies have no colon in their id.
use cobo_iam_services.Base.{
  ℕ, String, ◌≡◌, ◌↔◌, refl, ap, sym, ◌∙◌, subst, false, some, [], ◌∷◌, ◌==◌, eq_iff, ◌⊎◌, inl, inr,
  Bool-cases, Option-cases,
}
use cobo_iam_services.Base.Results.{
  Error, new_http_error, invalid_request, responsibility_required, state_conflict, ok, err,
}
use cobo_iam_services.Base.Fallible.{Result-cases}
use cobo_iam_services.GoText.{is_blank}
use cobo_iam_services.Dict.{lookup, insert}
use cobo_iam_services.Authz.{AuthService, ResourceRef, text}
use cobo_iam_services.Workflow.{
  not_found, State, Task, TaskActionRequest, ikey, transition_task, settle, authorize, update_task,
  find_task, create_task,
}

-- what the check of the permission is asked
abbrev about : String → Task → ResourceRef
about task_id t = record {
  type = "workflow_task";
  id = task_id;
  attributes =
      ("assignee_membership_id", text t.assignee_membership_id)
      ∷ ("workflow_state", text t.status)
      ∷ [];
}

-- Each task is stored under its own key.
unfoldable pub IsKeyed : State → Type 0
IsKeyed s = (k : String) (t : Task) → lookup k s.tasks ≡ some t → k ≡ ikey t.company_id t.task_id

update-stored :
    (t old : Task) (s : State)
    → lookup (ikey t.company_id t.task_id) s.tasks ≡ some old
    → update_task t s ≡ (ok t, record s { tasks = insert (ikey t.company_id t.task_id) t s.tasks })
unfolding update_task create_task
update-stored t old s found = rw (found, update_task)

update-own :
    (s : State) (k next_status : String) (t : Task)
    → IsKeyed s
    → lookup k s.tasks ≡ some t
    → update_task (record t { status = next_status }) s ≡ (
      ok (record t { status = next_status }),
      record s { tasks = insert k (record t { status = next_status }) s.tasks },
    )
unfolding IsKeyed
update-own s k next_status t keyed found =
    let own = keyed k t found in
    let t' : Task = record t { status = next_status } in
    subst (λ j. update_task t' s ≡ (ok t', record s { tasks = insert j t' s.tasks })) (sym own)
      (update-stored t' t s (subst (λ j. lookup j s.tasks ≡ some t) own found))

module _ (auth : AuthService) (new_uuid : ℕ → String) where
  -- `task` is the request's, it is pending, and it is for its assignee, who may act on it.
  unfoldable pub MayAct : TaskActionRequest → String → State → Task → Type 0
  MayAct req action s task =
      (is_blank req.task_id ≡ false)
      × (lookup (ikey req.subject.company_id req.task_id) s.tasks ≡ some task)
      × (authorize auth new_uuid req.subject action (about req.task_id task) ≡ ok tt)
      × (task.assignee_membership_id ≡ req.subject.membership_id)
      × (task.status ≡ "pending")

  -- `t` is that task with its next status, and the only change.
  unfoldable pub Moves : TaskActionRequest → String → String → State → Task → State → Type 0
  unfolding MayAct
  Moves req action next_status s t s' =
      (task : Task) × MayAct req action s task
      × (t ≡ record task { status = next_status })
      × (s' ≡ record s { tasks = insert (ikey req.subject.company_id req.task_id) t s.tasks })

  settle-cases :
      (req : TaskActionRequest) (action next_status : String) (s : State) (task : Task)
      → IsKeyed s
      → is_blank req.task_id ≡ false
      → lookup (ikey req.subject.company_id req.task_id) s.tasks ≡ some task
      → ((e : Error) × (settle auth new_uuid req action next_status task s ≡ (err e, s)))
        ⊎ (MayAct req action s task
            × (settle auth new_uuid req action next_status task s ≡ (
              ok (record task { status = next_status }),
              record s {
                tasks =
                    insert
                      (ikey req.subject.company_id req.task_id)
                      (record task { status = next_status })
                      s.tasks;
              },
            )))
  unfolding MayAct
  settle-cases req action next_status s task keyed b found =
      let own =
        update-own s (ikey req.subject.company_id req.task_id) next_status task keyed found in
      elim (Result-cases (authorize auth new_uuid req.subject action (about req.task_id task))) [
        | inr (e, refused) ↦ inl (e, rw refused)
        | inl (u, granted) ↦
            elim (Bool-cases (task.assignee_membership_id == req.subject.membership_id)) [
              | inr other ↦ inl (
                new_http_error 403 responsibility_required "task assignee mismatch",
                rw (granted, other),
              )
              | inl same ↦ elim (Bool-cases (task.status == "pending")) [
                | inr moved ↦ inl (
                  new_http_error 409 state_conflict "task is not pending",
                  rw (granted, same, moved),
                )
                | inl pending ↦ inr (
                  (b, found, granted, (eq_iff _ _).0 same, (eq_iff _ _).0 pending),
                  rw (granted, same, pending) own,
                )
              ]
            ]
      ]

  abbrev pub moved : String → Task → TaskActionRequest → State → State
  moved next_status task req s = record s {
    tasks =
        insert (ikey req.subject.company_id req.task_id) (record task { status = next_status })
          s.tasks;
  }

  -- A transition either moves a pending task of the caller's, or fails and leaves the state alone.
  pub transition-cases :
      (req : TaskActionRequest) (action next_status : String) (s : State)
      → IsKeyed s
      → ((e : Error) × (transition_task auth new_uuid req action next_status s ≡ (err e, s)))
        ⊎ ((t : Task) × (s' : State) × Moves req action next_status s t s'
            × (transition_task auth new_uuid req action next_status s ≡ (ok t, s')))
  unfolding Moves transition_task find_task
  transition-cases req action next_status s keyed = elim (Bool-cases (is_blank req.task_id)) [
    | inl b ↦ inl (new_http_error 400 invalid_request "task_id is required", rw b)
    | inr b ↦ elim (Option-cases (lookup (ikey req.subject.company_id req.task_id) s.tasks)) [
      | inl missing ↦ inl (not_found "task", rw (b, missing))
      | inr (task, found) ↦ elim (settle-cases req action next_status s task keyed b found) [
        | inl (e, h) ↦ inl (e, rw (b, found) h)
        | inr (may, h) ↦ inr (_, _, (task, may, refl, refl), rw (b, found) h)
      ]
    ]
  ]

  transition-may :
      (req : TaskActionRequest) (action next_status : String) (s : State) (task : Task)
      → IsKeyed s
      → MayAct req action s task
      → transition_task auth new_uuid req action next_status s
        ≡ (ok (record task { status = next_status }), moved next_status task req s)
  unfolding MayAct transition_task find_task
  transition-may req action next_status s task keyed (b, found, granted, same, pending) =
      let mine = (eq_iff _ _).1 same in
      let waiting = (eq_iff _ _).1 pending in
      rw (b, found, granted, mine, waiting)
        (update-own s (ikey req.subject.company_id req.task_id) next_status task keyed found)

  ok_inj : {t u : Task} → ok t ≡ ok u → t ≡ u
  ok_inj h = cc

  -- A transition succeeds exactly when the task that the request names is stored, pending and for
  -- the caller, and the caller is authorized for the action on it; it then writes that task with the
  -- next status under its key, and nothing else. Each task is stored under its own key.
  pub transition-Moves_iff :
      (req : TaskActionRequest) (action next_status : String) (s : State) (t : Task) (s' : State)
      → IsKeyed s
      → (transition_task auth new_uuid req action next_status s ≡ (ok t, s'))
        ↔ Moves req action next_status s t s'
  unfolding Moves
  transition-Moves_iff req action next_status s t s' keyed = (
    λ h. elim (transition-cases req action next_status s keyed) [
      | inl (e, fails) ↦ cc
      | inr (t₁, s₁, m, moves) ↦
          let both = sym moves ∙ h in
          subst (λ u. Moves req action next_status s u s') (ok_inj (ap (λ x. x.0) both))
            (subst (λ x. Moves req action next_status s t₁ x) (ap (λ x. x.1) both) m)
    ],
    λ (task, may, p, q). rw (q, p) (transition-may req action next_status s task keyed may),
  )
