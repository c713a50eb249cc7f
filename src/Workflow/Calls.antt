-- ===== src/Workflow/Calls.antt =====
-- Sequences of the service's calls, and what they leave alone.
use cobo_iam_services.Base.{
  ℕ, ◌+◌, ◌<◌, String, ◌≡◌, refl, ap, sym, subst, true, some, List, [], ◌∷◌, arith, ◌⊎◌, inl, inr,
  Bool-cases,
}
use cobo_iam_services.Base.Results.{Error, new_http_error, invalid_request, ok, err}
use cobo_iam_services.Base.Fallible.{Result-cases}
use cobo_iam_services.GoText.{is_blank}
use cobo_iam_services.Dict.{lookup, insert}
use cobo_iam_services.Authz.{AuthService, text}
use cobo_iam_services.Workflow.{
  State, Task, Instance, TaskActionRequest, CreateRequest, ikey, transition_task, authorize,
  create_workflow_instance, approve_task, review_task, confirm_task, create_instance, create_task,
}
use cobo_iam_services.Workflow.Keys.{is_plain}
use cobo_iam_services.Workflow.Once.{IsKeyed, Moves, transition-cases}

pub data Call : Type 0 where
  create : CreateRequest → Call
  approve review confirm : TaskActionRequest → Call

-- The company that the caller's subject names has no colon in its id.
abbrev pub IsPlainCall : Call → Type 0
IsPlainCall (create req) = is_plain req.subject.company_id ≡ true
IsPlainCall (approve req) = is_plain req.subject.company_id ≡ true
IsPlainCall (review req) = is_plain req.subject.company_id ≡ true
IsPlainCall (confirm req) = is_plain req.subject.company_id ≡ true

-- The generator gives no identifier twice.
unfoldable pub IsFresh : (ℕ → String) → Type 0
IsFresh new_uuid = (n m : ℕ) → new_uuid n ≡ new_uuid m → n ≡ m

module _ (auth : AuthService) (new_uuid : ℕ → String) where
  abbrev pub after : Call → State → State
  after (create req) s = (create_workflow_instance auth new_uuid req s).1
  after (approve req) s = (approve_task auth new_uuid req s).1
  after (review req) s = (review_task auth new_uuid req s).1
  after (confirm req) s = (confirm_task auth new_uuid req s).1

  unfoldable pub run : List Call → State → State
  run [] s = s
  run (c ∷ calls) s = run calls (after c s)

  -- A task is under its own key, for a plain company, with one of the first `n` identifiers.
  unfoldable pub Stands : ℕ → String → Task → Type 0
  Stands n k t =
      (k ≡ ikey t.company_id t.task_id)
      × (is_plain t.company_id ≡ true)
      × (m : ℕ) × (m < n)
      × (t.task_id ≡ new_uuid m)

  unfoldable pub IsValid : State → Type 0
  unfolding Stands
  IsValid s = (k : String) (t : Task) → lookup k s.tasks ≡ some t → Stands s.next_id k t

  new_task : CreateRequest → State → Task
  new_task req s = record {
    task_id = new_uuid (s.next_id + 1);
    company_id = req.subject.company_id;
    workflow_instance_id = new_uuid s.next_id;
    step_code = "review";
    assignee_membership_id = req.subject.membership_id;
    status = "pending";
  }

  new_instance : CreateRequest → State → Instance
  new_instance req s = record {
    workflow_instance_id = new_uuid s.next_id;
    company_id = req.subject.company_id;
    record_id = req.record_id;
    status = "in_progress";
    current_step_code = "review";
    created_by = req.subject.user_id;
  }

  created : CreateRequest → State → State
  unfolding new_task new_instance
  created req s = record {
    instances =
        insert (ikey req.subject.company_id (new_uuid s.next_id)) (new_instance req s) s.instances;
    tasks =
        insert (ikey req.subject.company_id (new_uuid (s.next_id + 1))) (new_task req s) s.tasks;
    next_id = s.next_id + 1 + 1;
  }

  create-cases :
      (req : CreateRequest) (s : State)
      → ((e : Error) × (create_workflow_instance auth new_uuid req s ≡ (err e, s)))
        ⊎ (create_workflow_instance auth new_uuid req s ≡ (ok (new_instance req s), created req s))
  unfolding create_workflow_instance create_instance create_task created
  create-cases req s = elim (Bool-cases (is_blank req.record_id)) [
    | inl b ↦ inl (new_http_error 400 invalid_request "record_id is required", rw b)
    | inr b ↦
        elim (Result-cases (
          authorize auth new_uuid req.subject "workflow.create" (record {
            type = "workflow_instance";
            id = req.record_id;
            attributes = ("workflow_state", text "draft") ∷ [];
          }))) [
            | inr (e, refused) ↦ inl (e, rw (b, refused))
            | inl (u, granted) ↦ inr (rw (b, granted) refl)
          ]
  ]

  -- What a call does to the tasks: nothing, a pending task's move, or a new task.
  pub data Change (s : State) : State → Type 0 where
    same : Change s s
    moves :
        (k next_status : String) (task : Task) (s' : State)
        → lookup k s.tasks ≡ some task
        → task.status ≡ "pending"
        → s'.next_id ≡ s.next_id
        → s'.tasks ≡ insert k (record task { status = next_status }) s.tasks
        → Change s s'
    makes :
        (t : Task) (s' : State)
        → is_plain t.company_id ≡ true
        → t.task_id ≡ new_uuid (s.next_id + 1)
        → s'.next_id ≡ s.next_id + 2
        → s'.tasks ≡ insert (ikey t.company_id t.task_id) t s.tasks
        → Change s s'

  pub IsValid-IsKeyed : (s : State) → IsValid s → IsKeyed s
  unfolding IsKeyed IsValid
  IsValid-IsKeyed s valid k t found = (valid k t found).0

  transition-Change :
      (req : TaskActionRequest) (action next_status : String) (s : State)
      → IsKeyed s
      → Change s (transition_task auth new_uuid req action next_status s).1
  unfolding Moves
  transition-Change req action next_status s keyed =
      elim (transition-cases auth new_uuid req action next_status s keyed) [
        | inl (e, h) ↦ subst (λ r. Change s r.1) (sym h) same
        | inr (t, s', (task, (b, found, granted, mine, pending), p, q), h) ↦
            subst (λ r. Change s r.1) (sym h)
              (moves (ikey req.subject.company_id req.task_id) next_status task s' found pending
                (ap (λ x. x.next_id) q) (rw (q, p) refl))
      ]

  pub after-Change : (c : Call) (s : State) → IsPlainCall c → IsValid s → Change s (after c s)
  unfolding created
  after-Change (create req) s plain valid = elim (create-cases req s) [
    | inl (e, h) ↦ subst (λ r. Change s r.1) (sym h) same
    | inr h ↦
        subst (λ r. Change s r.1) (sym h)
          (makes (new_task req s) (created req s) plain refl (omega arith) refl)
  ]
  after-Change (approve req) s plain valid = transition-Change req _ _ s (IsValid-IsKeyed s valid)
  after-Change (review req) s plain valid = transition-Change req _ _ s (IsValid-IsKeyed s valid)
  after-Change (confirm req) s plain valid = transition-Change req _ _ s (IsValid-IsKeyed s valid)
