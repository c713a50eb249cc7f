-- ===== src/Workflow.antt =====
-- internal/workflow: contracts.go, the in-memory repository and the service. A task is created
-- pending, and leaves that status once, by its assignee.
pub mod Once
pub mod Isolation
pub mod Settled
pub mod Calls
pub mod Keys
mod Tests
use cobo_iam_services.Base.{
  ℕ, ◌+◌, String, ◌<>◌, Bool, not, ◌&&◌, Option, none, some, List, [], ◌∷◌, ◌==◌, if◌then◌else◌,
}
use cobo_iam_services.Base.Results.{
  Error, new_http_error, invalid_request, responsibility_required, state_conflict, Result, ok, err,
  Exec, pure, raise, lift, gets, unless, ◌>>=◌, ◌>>◌,
}
use cobo_iam_services.GoText.{is_blank}
use cobo_iam_services.Dict.{Dict, lookup, insert}
use cobo_iam_services.Authz.{
  AuthService, AuthorizeRequest, ResourceRef, SubjectRef, Attribute, text,
}
use cobo_iam_services.Authz.Client.{require}

-- contracts.go
pub record Instance : Type 0 where
  pub workflow_instance_id : String
  pub company_id : String
  pub record_id : String
  pub status : String
  pub current_step_code : String
  pub created_by : String

pub record Task : Type 0 where
  pub task_id : String
  pub company_id : String
  pub workflow_instance_id : String
  pub step_code : String
  pub assignee_membership_id : String
  pub status : String

pub record CreateRequest : Type 0 where
  pub subject : SubjectRef
  pub record_id : String

pub record TaskActionRequest : Type 0 where
  pub subject : SubjectRef
  pub task_id : String

-- The maps of the repository, and how many identifiers the generator has given out.
pub record State : Type 0 where
  pub instances : Dict Instance
  pub tasks : Dict Task
  pub next_id : ℕ

unfoldable pub ikey : String → String → String
ikey company_id id = company_id <> ":" <> id

abbrev pub not_found : String → Error
not_found what = new_http_error 404 invalid_request (what <> " not found")

abbrev from_option {ℓ} : {A : Type ℓ} → Error → Option A → Result A
from_option e none = err e
from_option e (some a) = ok a

-- infra/inmemory/repository.go
module _ where
  unfoldable pub create_instance : Instance → Exec State Instance
  create_instance i s = (
    ok i,
    record s { instances = insert (ikey i.company_id i.workflow_instance_id) i s.instances },
  )

  unfoldable pub find_instance : String → String → Exec State Instance
  find_instance company_id id s =
      (from_option (not_found "workflow instance") (lookup (ikey company_id id) s.instances), s)

  unfoldable pub update_instance : Instance → Exec State Instance
  update_instance i s = elim (lookup (ikey i.company_id i.workflow_instance_id) s.instances) [
    | none ↦ (err (not_found "workflow instance"), s)
    | some old ↦ create_instance i s
  ]

  unfoldable pub create_task : Task → Exec State Task
  create_task t s = (ok t, record s { tasks = insert (ikey t.company_id t.task_id) t s.tasks })

  unfoldable pub find_task : String → String → Exec State Task
  find_task company_id id s =
      (from_option (not_found "task") (lookup (ikey company_id id) s.tasks), s)

  unfoldable pub update_task : Task → Exec State Task
  unfolding create_task
  update_task t s = elim (lookup (ikey t.company_id t.task_id) s.tasks) [
    | none ↦ (err (not_found "task"), s)
    | some old ↦ create_task t s
  ]

  tasks_of : String → String → Dict Task → List Task
  tasks_of company_id instance_id [] = []
  tasks_of company_id instance_id ((k, t) ∷ tasks) =
      let rest = tasks_of company_id instance_id tasks in
      if t.company_id == company_id && t.workflow_instance_id == instance_id then t ∷ rest else rest

  unfoldable pub list_tasks_by_instance : String → String → Exec State (List Task)
  unfolding tasks_of
  list_tasks_by_instance company_id instance_id s =
      (ok (tasks_of company_id instance_id s.tasks), s)

-- app/service.go, over an authorization service and a generator of identifiers
module _ (auth : AuthService) (new_uuid : ℕ → String) where
  abbrev next_uuid : Exec State String
  next_uuid s = (ok (new_uuid s.next_id), record s { next_id = s.next_id + 1 })

  abbrev pub authorize : SubjectRef → String → ResourceRef → Result (Unit {0})
  authorize subject action resource =
      require "authorize workflow action" auth
        (record { subject = subject; action = action; resource = resource })

  unfoldable pub create_workflow_instance : CreateRequest → Exec State Instance
  unfolding create_instance create_task
  create_workflow_instance req =
      unless (is_blank req.record_id) (new_http_error 400 invalid_request "record_id is required")
        do
          lift (
              authorize req.subject "workflow.create" (record {
                type = "workflow_instance";
                id = req.record_id;
                attributes = ("workflow_state", text "draft") ∷ [];
              }))
          id ← next_uuid
          created ← create_instance (record {
            workflow_instance_id = id;
            company_id = req.subject.company_id;
            record_id = req.record_id;
            status = "in_progress";
            current_step_code = "review";
            created_by = req.subject.user_id;
          })
          task_id ← next_uuid
          create_task (record {
            task_id = task_id;
            company_id = req.subject.company_id;
            workflow_instance_id = created.workflow_instance_id;
            step_code = "review";
            assignee_membership_id = req.subject.membership_id;
            status = "pending";
          })
          pure created

  -- the guards and the write of `transitionTask`, once the task is found
  abbrev pub settle : TaskActionRequest → String → String → Task → Exec State Task
  settle req action next_status task = do
    lift (
        authorize req.subject action (record {
          type = "workflow_task";
          id = req.task_id;
          attributes =
              ("assignee_membership_id", text task.assignee_membership_id)
              ∷ ("workflow_state", text task.status)
              ∷ [];
        }))
    unless (not (task.assignee_membership_id == req.subject.membership_id))
        (new_http_error 403 responsibility_required "task assignee mismatch")
        (unless (not (task.status == "pending"))
          (new_http_error 409 state_conflict "task is not pending")
          (update_task (record task { status = next_status })))

  unfoldable pub transition_task : TaskActionRequest → String → String → Exec State Task
  unfolding find_task update_task
  transition_task req action next_status =
      unless (is_blank req.task_id) (new_http_error 400 invalid_request "task_id is required")
        do task ← find_task req.subject.company_id req.task_id; settle req action next_status task

  abbrev pub approve_task : TaskActionRequest → Exec State Task
  approve_task req = transition_task req "workflow.approve" "approved"

  abbrev pub review_task : TaskActionRequest → Exec State Task
  review_task req = transition_task req "workflow.review" "reviewed"

  abbrev pub confirm_task : TaskActionRequest → Exec State Task
  confirm_task req = transition_task req "workflow.confirm" "confirmed"

  unfoldable pub resolve_assignees : SubjectRef → String → Result (List String)
  resolve_assignees subject workflow_instance_id =
      if is_blank workflow_instance_id
      then err (new_http_error 400 invalid_request "workflow_instance_id is required")
      else elim (authorize subject "workflow.resolve_assignees" (record {
        type = "workflow_instance";
        id = workflow_instance_id;
        attributes = ("workflow_state", text "*") ∷ [];
      })) [ ok u ↦ ok (subject.membership_id ∷ []) | err e ↦ err e ]
