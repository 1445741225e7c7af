-- ===== src/Event.antt =====
-- app/domain/models/event.py, message.py, file.py and tool_result.py: what the agents report.
use boxify_agent.Prelude.{String, Bool, Option, List, [], ℕ}
use boxify_agent.Plan.{Plan, Step}

pub record File : Type 0 where
  pub id : String
  pub filename : String
  pub filepath : String
  pub key : String
  pub extension : String
  pub mime_type : String
  pub size : ℕ

-- A message that the user sends to the flow.
pub record UserMessage : Type 0 where
  pub message : String
  pub attachments : List String

-- A value of a parsed JSON object: a text, or the JSON of another value.
pub data Value : Type 0 where
  text other : String → Value

pub record ToolResult : Type 0 where
  pub success : Bool
  pub message : Option String
  pub payload : Option String

pub data PlanEventStatus : Type 0 where
  created updated completed : PlanEventStatus

pub data StepEventStatus : Type 0 where
  started completed failed : StepEventStatus

pub data ToolEventStatus : Type 0 where
  calling called : ToolEventStatus

-- The `...ToolContent` classes: what the user is shown of a tool's result.
pub data ToolContent : Type 0 where
  browser_content search_content shell_content file_content : String → ToolContent
  mcp_content a2a_content : String → ToolContent

pub record ToolEvent : Type 0 where
  pub tool_call_id : String
  pub tool_name : String
  pub function_name : String
  pub function_args : List (String × Value)
  pub function_result : Option ToolResult
  pub status : ToolEventStatus
  pub tool_content : Option ToolContent

pub record MessageEvent : Type 0 where
  pub role : String
  pub message : String
  pub attachments : List File

-- The subclasses of `BaseEvent`.
pub data EventBody : Type 0 where
  plan_event : Plan → PlanEventStatus → EventBody
  title_event : String → EventBody
  step_event : Step → StepEventStatus → EventBody
  message_event : MessageEvent → EventBody
  tool_event : ToolEvent → EventBody
  error_event : String → EventBody
  wait_event done_event : EventBody

pub record Event : Type 0 where
  pub id : String
  pub body : EventBody

-- `str(uuid4)`, the text of the function and not of a fresh id.
abbrev pub default_event_id : String
default_event_id = "<function uuid4>"

-- A new event, with the id that the class gives it.
abbrev pub event : EventBody → Event
event body = record { id = default_event_id; body = body }

-- `MessageEvent(role="assistant", message=text)`
abbrev pub assistant_message : String → Event
assistant_message words =
    event (message_event (record { role = "assistant"; message = words; attachments = [] }))
