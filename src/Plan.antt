-- ===== src/Plan.antt =====
-- app/domain/models/plan.py: a plan, its steps and their states.
use boxify_agent.Prelude.{String, Bool, true, false, not, Option, List, find}

pub data ExecutionStatus : Type 0 where
  pending running completed failed : ExecutionStatus

pub record Step : Type 0 where
  pub id : String
  pub description : String
  pub status : ExecutionStatus
  pub result : Option String
  pub error : Option String
  pub success : Bool
  pub attachments : List String

pub record Plan : Type 0 where
  pub id : String
  pub title : String
  pub goal : String
  pub language : String
  pub steps : List Step
  pub message : String
  pub status : ExecutionStatus
  pub error : Option String

unfoldable pub is_done : ExecutionStatus → Bool
is_done completed = true
is_done failed = true
is_done _ = false

-- `Step.done`
unfoldable pub step_done : Step → Bool
unfolding is_done
step_done step = is_done step.status

-- `Plan.done`
unfoldable pub plan_done : Plan → Bool
unfolding is_done
plan_done plan = is_done plan.status

unfoldable pub get_next_step : Plan → Option Step
unfolding step_done
get_next_step plan = find (λ step. not (step_done step)) plan.steps
