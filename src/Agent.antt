-- ===== src/Agent.antt =====
-- app/domain/services/agents/base.py: an agent's memory, its calls of the language model with
-- retries, its calls of tools, and the loop of both. The two agents of a flow (agents/planner.py,
-- agents/react.py) share one world.
pub mod Llm
pub mod Loop
pub mod Calls
pub mod Frame
pub mod Steps
use boxify_agent.Prelude.{
  String, ℕ, zero, suc, ◌+◌, Bool, true, false, not, ◌&&◌, ◌||◌, Option, none, some, List, [], ◌∷◌,
  ◌++◌, take, find, ◌==◌, if◌then◌else◌, is_empty, is_blank, is_none,
}
use boxify_agent.Result.{
  Error, Exec, Result, ok, err, value_error, runtime_error, key_error, validation_error,
  transaction, pure, raise, resume, gets, modify, lift, when, ◌>>=◌, ◌>>◌,
}
use boxify_agent.Plan.{Plan, Step}
use boxify_agent.Memory
use boxify_agent.Memory.{
  Memory, ChatMessage, ToolCall, Function, Field, absent, null, given, is_text,
}
use boxify_agent.Event.{
  Event, UserMessage, Value, ToolResult, ToolEvent, ToolEventStatus, calling, called, tool_event,
  error_event, event, assistant_message,
}
use boxify_agent.Store
use boxify_agent.Store.{Database}
use boxify_agent.Gen.{Gen, finished, raised, yielded, awaiting}

-- A tool box: its name and the functions that it offers.
pub record Toolkit : Type 0 where
  pub name : String
  pub functions : List String

pub record LlmRequest : Type 0 where
  pub messages : List ChatMessage
  pub response_format : Option String
  pub tool_choice : Option String

-- What runs outside the modelled code. The number is how many calls went before, so that two calls
-- may answer differently; an answer may be an exception.
pub record Services : Type 0 where
  pub max_retries : ℕ
  pub max_iterations : ℕ
  pub session_id : String
  pub toolkits : List Toolkit
  pub llm : ℕ → LlmRequest → Result ChatMessage
  pub call_tool : ℕ → (tool_name function_name : String) → List (String × Value) → Result ToolResult
  -- The JSON parser, then pydantic's validation as the class.
  pub parse_args : String → Result (List (String × Value))
  pub parse_plan : String → Result Plan
  pub parse_step : String → Result Step
  pub parse_message : String → Result UserMessage
  -- `model_dump_json`, `str(e)`, `uuid4` and the prompt texts
  pub dump_result : ToolResult → String
  pub dump_message : UserMessage → String
  pub describe : Error → String
  pub fresh_id : ℕ → String
  -- the uuid of an attachment of the answer that followed so many model calls
  pub attachment_id : (calls position : ℕ) → String
  pub planner_system_prompt : String
  pub react_system_prompt : String
  pub create_plan_prompt : UserMessage → String
  pub update_plan_prompt : Plan → Step → String
  pub execution_prompt : (message : UserMessage) (language step : String) → String
  pub summarize_prompt : String

pub data Agent : Type 0 where
  planner react : Agent

-- The class attributes `name`, `_format` and `_tool_choice`.
abbrev pub agent_name : Agent → String
agent_name planner = "planner"
agent_name react = "react"

abbrev pub agent_format : Agent → Option String
agent_format agent = some "json_object"

abbrev pub agent_tool_choice : Agent → Option String
agent_tool_choice planner = some "none"
agent_tool_choice react = none

-- The database, the `_memory` of each agent, and the calls made so far.
pub record World : Type 0 where
  pub db : Database
  pub planner_memory : Option Memory
  pub react_memory : Option Memory
  pub llm_calls : ℕ
  pub tool_calls : ℕ
  pub ids : ℕ

abbrev pub agent_memory : Agent → World → Option Memory
agent_memory planner w = w.planner_memory
agent_memory react w = w.react_memory

abbrev pub set_memory : Agent → Memory → World → World
set_memory planner memory w = record w { planner_memory = some memory }
set_memory react memory w = record w { react_memory = some memory }

-- The world with the database as a consumer left it.
abbrev pub with_db : Database → World → World
with_db db w = record w { db = db }

-- `async with self._uow_factory() as uow: await ...`
abbrev pub keep_db : {A : Type 0} → World → Result A × Database → Result A × World
keep_db w (r, db) = (r, record w { db = db })

abbrev pub in_db : {A : Type 0} → Exec Database A → Exec World A
in_db m w = keep_db w (transaction m w.db)

-- A message with the given role and content.
abbrev pub chat_message : String → Option String → ChatMessage
chat_message role content = record {
  role = some role;
  content = content;
  reasoning_content = none;
  tool_calls = [];
  tool_call_id = none;
  function_name = none;
}

-- A value that is only kept if it is true as a condition.
abbrev keep_given : Option String → Option String
keep_given none = none
keep_given (some s) = if is_empty s then none else some s

-- Step 6 and 7 of `_invoke_llm`: what is kept of an assistant's reply, with one tool call at most.
unfoldable pub filtered_message : ChatMessage → ChatMessage
filtered_message message = record {
  role = some "assistant";
  content = message.content;
  reasoning_content = keep_given message.reasoning_content;
  tool_calls = take 1 message.tool_calls;
  tool_call_id = none;
  function_name = none;
}

abbrev pub has_calls : List ToolCall → Bool
has_calls [] = false
has_calls (c ∷ cs) = true

abbrev with_system : Bool → String → Memory → Memory
with_system true prompt memory = Memory.add_message (chat_message "system" (some prompt)) memory
with_system false prompt memory = memory

abbrev pub field_value : Field → Option String
field_value absent = none
field_value null = none
field_value (given s) = some s

abbrev call_name : Option Function → Option String
call_name none = none
call_name (some f) = some f.name

abbrev first_call : List ToolCall → Option ToolCall
first_call [] = none
first_call (c ∷ cs) = some c

-- The first tool call of the memory's last message, if there is one.
abbrev pub open_call : Option ChatMessage → Option ToolCall
open_call none = none
open_call (some message) = first_call message.tool_calls

module _ (env : Services) where
  unfoldable pub system_prompt : Agent → String
  system_prompt planner = env.planner_system_prompt
  system_prompt react = env.react_system_prompt

  -- The value of `self._memory` after `_ensure_memory`.
  unfoldable pub ensured : Agent → Option Memory → Exec World Memory
  ensured agent (some memory) = pure memory
  ensured agent none = do
    memory ← in_db (Store.get_memory env.session_id (agent_name agent))
    modify (set_memory agent memory)
    pure memory

  unfoldable pub ensure_memory : Agent → Exec World Memory
  unfolding ensured
  ensure_memory agent w = ensured agent (agent_memory agent w) w

  -- The agent's memory is this one, in the process and in the database; it stays in the process
  -- also if the save raises.
  unfoldable pub keep_memory : Agent → Memory → Exec World (Unit {0})
  keep_memory agent memory = do
    modify (set_memory agent memory)
    in_db (Store.save_memory env.session_id (agent_name agent) memory)

  -- The memory with the messages added, after the system prompt if it was empty.
  unfoldable pub extended : Agent → List ChatMessage → Memory → Memory
  unfolding system_prompt
  extended agent messages memory =
      Memory.add_messages messages
        (with_system (Memory.is_empty_memory memory) (system_prompt agent) memory)

  unfoldable pub add_to_memory : Agent → List ChatMessage → Exec World (Unit {0})
  unfolding ensure_memory keep_memory extended
  add_to_memory agent messages = do
    memory ← ensure_memory agent
    keep_memory agent (extended agent messages memory)

  unfoldable pub compact_memory : Agent → Exec World (Unit {0})
  unfolding ensure_memory keep_memory
  compact_memory agent = do memory ← ensure_memory agent; keep_memory agent (Memory.compact memory)

  -- The memory after `roll_back`: answered if the call asks the user, and without the call if not.
  unfoldable pub rolled_back : ToolCall → UserMessage → Memory → Memory
  rolled_back call message memory =
      if is_text (call_name call.function) "message_ask_user"
      then Memory.add_message
          (record {
            role = some "tool";
            content = some (env.dump_message message);
            reasoning_content = none;
            tool_calls = [];
            tool_call_id = field_value call.id;
            function_name = some "message_ask_user";
          })
          memory
      else Memory.roll_back memory

  unfoldable pub roll_back_call :
      Agent → UserMessage → Memory → Option ToolCall → Exec World (Unit {0})
  unfolding rolled_back keep_memory
  roll_back_call agent message memory none = pure tt
  roll_back_call agent message memory (some call) =
      keep_memory agent (rolled_back call message memory)

  unfoldable pub roll_back : Agent → UserMessage → Exec World (Unit {0})
  unfolding ensure_memory roll_back_call
  roll_back agent message = do
    memory ← ensure_memory agent
    roll_back_call agent message memory (open_call (Memory.get_last_message memory))
