-- ===== src/Workflow/Tests.antt =====
-- A workflow from its creation to an approval, over a service that allows everything.
use cobo_iam_services.Base.{
  ℕ, zero, suc, String, ◌<>◌, ◌≡◌, ◌≢◌, ◌+◌, ◌<◌, refl, ap, sym, subst, ◌∙◌, true, false, none,
  some, Option, List, [], ◌∷◌, arith, length, All, ne_of_eq-false,
}
use cobo_iam_services.Base.Results.{Result, ok, err, Error}
use cobo_iam_services.Base.Unary.{uuid, uuid_inj}
use cobo_iam_services.Dict.{lookup}
use cobo_iam_services.Authz.{AuthService, AuthorizeDecision, allow, SubjectRef}
use cobo_iam_services.Workflow.{
  State, Task, TaskActionRequest, CreateRequest, ikey, create_workflow_instance, transition_task,
  approve_task,
}
use cobo_iam_services.Workflow.Keys.{is_plain}
use cobo_iam_services.Workflow.Once.{transition-Moves_iff, Moves}
use cobo_iam_services.Workflow.Calls.{
  IsValid, IsFresh, create, approve, review, run, IsValid-IsKeyed,
}
use cobo_iam_services.Workflow.Settled.{run-keeps_settled, run-IsValid}
use cobo_iam_services.Workflow.Isolation.{transition-company}

abbrev consent : AuthorizeDecision
consent = record {
  decision = allow;
  matched_permissions = [];
  scope_reasons = [];
  responsibility_reasons = [];
  deny_reason_code = none;
}

abbrev auth : AuthService
auth = record {
  authorize = λ req. ok consent;
  get_effective_access = λ m c. err (cobo_iam_services.Base.Results.plain "unused");
}

uuid-IsFresh : IsFresh uuid
unfolding IsFresh
uuid-IsFresh = uuid_inj

abbrev subject : SubjectRef
subject = record { user_id = "u_1"; membership_id = "m_1"; company_id = "c_1" }

abbrev empty : State
empty = record { instances = []; tasks = []; next_id = 0 }

empty-IsValid : IsValid auth uuid empty
unfolding IsValid lookup
empty-IsValid = λ k t h. cc

abbrev opening : CreateRequest
opening = record { subject = subject; record_id = "r_1" }

abbrev started : State
started = (create_workflow_instance auth uuid opening empty).1

abbrev approval : TaskActionRequest
approval = record { subject = subject; task_id = "u" }

abbrev pending_task : Task
pending_task = record {
  task_id = "u";
  company_id = "c_1";
  workflow_instance_id = "";
  step_code = "review";
  assignee_membership_id = "m_1";
  status = "pending";
}

abbrev approved : Task
approved = record pending_task { status = "approved" }

abbrev ended : State
ended = (approve_task auth uuid approval started).1

approves :
    transition_task auth uuid approval "workflow.approve" "approved" started ≡ (ok approved, ended)
unfolding transition_task cobo_iam_services.GoText.trim_space cobo_iam_services.GoText.is_space
    lookup create_workflow_instance cobo_iam_services.Authz.Client.require
    cobo_iam_services.Dict.insert ikey
approves = refl

is_plain_c₁ : is_plain "c_1" ≡ true
unfolding is_plain
is_plain_c₁ = refl

opened-IsValid : IsValid auth uuid started
unfolding run
opened-IsValid = run-IsValid auth uuid (create opening ∷ []) empty empty-IsValid (is_plain_c₁, tt)

run-IsValid_example :
    IsValid auth uuid (run auth uuid (create opening ∷ approve approval ∷ []) empty)
run-IsValid_example =
    run-IsValid auth uuid (create opening ∷ approve approval ∷ []) empty empty-IsValid
      (is_plain_c₁, (is_plain_c₁, tt))

transition-Moves_iff_example :
    Moves auth uuid approval "workflow.approve" "approved" started approved ended
transition-Moves_iff_example =
    (transition-Moves_iff auth uuid approval "workflow.approve" "approved" started approved ended
        (IsValid-IsKeyed auth uuid started opened-IsValid)).0
      approves

transition-company_example :
    (approved.company_id ≡ "c_1")
    × (approved.task_id ≡ "u")
    × ((k : String) → ikey "c_1" "u" ≢ k → lookup k ended.tasks ≡ lookup k started.tasks)
transition-company_example =
    transition-company auth uuid approval "workflow.approve" "approved" started approved ended
      opened-IsValid is_plain_c₁ approves

ended-IsValid : IsValid auth uuid ended
unfolding run
ended-IsValid =
    run-IsValid auth uuid (approve approval ∷ []) started opened-IsValid (is_plain_c₁, tt)

approved_stored : lookup (ikey "c_1" "u") ended.tasks ≡ some approved
unfolding lookup transition_task cobo_iam_services.GoText.trim_space
    cobo_iam_services.GoText.is_space create_workflow_instance
    cobo_iam_services.Authz.Client.require cobo_iam_services.Dict.insert ikey
approved_stored = refl

approved_settled : approved.status ≢ "pending"
approved_settled = ne_of_eq-false {s = "approved"} {t = "pending"} refl

run-keeps_settled_example :
    lookup (ikey "c_1" "u") (run auth uuid (review approval ∷ create opening ∷ []) ended).tasks
    ≡ some approved
run-keeps_settled_example =
    run-keeps_settled auth uuid (review approval ∷ create opening ∷ []) ended (ikey "c_1" "u")
      approved uuid-IsFresh ended-IsValid (is_plain_c₁, (is_plain_c₁, tt)) approved_settled
      approved_stored
