-- ===== src/Session.antt =====
-- app/domain/models/session.py and session_project.py.
use boxify_agent.Prelude.{String, ℕ, ℤ, Bool, Option, none, some, List, [], ◌∷◌, reverse}
use boxify_agent.Prelude.Text.{Text}
use boxify_agent.Plan.{Plan}
use boxify_agent.Memory.{Memory}
use boxify_agent.Event.{Event, File, plan_event}

pub data SessionStatus : Type 0 where
  pending running waiting completed : SessionStatus

pub data SessionType : Type 0 where
  task chat : SessionType

pub record Session : Type 0 where
  pub id : String
  pub user_id : String
  pub project_id : Option String
  pub type : SessionType
  pub is_pinned : Bool
  pub sandbox_id : Option String
  pub task_id : Option String
  pub title : String
  pub unread_message_count : ℤ
  pub latest_message : String
  pub latest_message_at : Option ℕ
  pub events : List Event
  pub files : List File
  pub memories : List (String × Memory)
  pub status : SessionStatus

pub record SessionProject : Type 0 where
  pub id : String
  pub user_id : String
  pub name : Text
  pub sort_order : ℕ
  pub is_pinned : Bool

abbrev first_plan : List Event → Option Plan
first_plan [] = none
first_plan (e ∷ rest) = elim e.body [ plan_event plan status ↦ some plan | _ ↦ first_plan rest ]

unfoldable pub get_latest_plan : Session → Option Plan
get_latest_plan session = first_plan (reverse session.events)
