-- ===== src/Workflow/Isolation.antt =====
-- A transition concerns the task that the request names, of the caller's company, and no other.
use cobo_iam_services.Base.{ℕ, String, ◌≡◌, ◌≢◌, ap, sym, ◌∙◌, true}
use cobo_iam_services.Base.Results.{ok}
use cobo_iam_services.Dict.{lookup, lookup-insert_other}
use cobo_iam_services.Authz.{AuthService}
use cobo_iam_services.Workflow.{State, Task, TaskActionRequest, ikey, transition_task}
use cobo_iam_services.Workflow.Keys.{ikey_inj, is_plain}
use cobo_iam_services.Workflow.Once.{Moves, transition-Moves_iff}
use cobo_iam_services.Workflow.Calls.{IsValid, Stands, IsValid-IsKeyed}

-- A transition that succeeds returns the task that the request names, which is one of the caller's
-- company, and leaves every other task alone. The state is valid, and companies have no colon in
-- their id.
pub transition-company :
    (auth : AuthService) (new_uuid : ℕ → String) (req : TaskActionRequest)
    (action next_status : String) (s : State) (t : Task) (s' : State)
    → IsValid auth new_uuid s
    → is_plain req.subject.company_id ≡ true
    → transition_task auth new_uuid req action next_status s ≡ (ok t, s')
    → (t.company_id ≡ req.subject.company_id)
      × (t.task_id ≡ req.task_id)
      × ((k : String)
          → ikey req.subject.company_id req.task_id ≢ k
          → lookup k s'.tasks ≡ lookup k s.tasks)
unfolding Moves IsValid Stands
transition-company auth new_uuid req action next_status s t s' valid plain h =
    let (task, (b, found, granted, mine, pending), p, q) =
      (transition-Moves_iff auth new_uuid req action next_status s t s'
          (IsValid-IsKeyed auth new_uuid s valid)).0
        h in
    let (key, plain', n, lt, id') = valid _ task found in
    let (company, id) = ikey_inj _ _ _ _ plain plain' key in
    (
      ap (λ x. x.company_id) p ∙ sym company,
      ap (λ x. x.task_id) p ∙ sym id,
      λ k other.
          ap (λ x. lookup k x.tasks) q
          ∙ lookup-insert_other (ikey req.subject.company_id req.task_id) k t s.tasks other,
    )
