-- ===== src/Memory.antt =====
-- app/domain/models/memory.py: an agent's memory is its list of chat messages. A key that a message
-- lacks and a key whose value is null read alike through `dict.get`, and both are `none` here; the
-- id of a tool call, which is read by `tool_call["id"]`, keeps the two apart.
pub mod Compact
mod Samples
use mathlib.Core.Option
use boxify_agent.Prelude.{
  String, Bool, true, false, ◌||◌, ◌&&◌, Option, none, some, List, [], ◌∷◌, ◌++◌, map, ◌==◌,
  if◌then◌else◌,
}

pub data Field : Type 0 where
  absent null : Field
  given : String → Field

pub record Function : Type 0 where
  pub name : String
  pub arguments : String

pub record ToolCall : Type 0 where
  pub id : Field
  pub function : Option Function

pub record ChatMessage : Type 0 where
  pub role : Option String
  pub content : Option String
  pub reasoning_content : Option String
  pub tool_calls : List ToolCall
  pub tool_call_id : Option String
  pub function_name : Option String

pub record Memory : Type 0 where
  pub messages : List ChatMessage

-- `message.get(key) == text`
abbrev pub is_text : Option String → String → Bool
is_text none t = false
is_text (some s) t = s == t

unfoldable pub get_message_role : ChatMessage → Option String
get_message_role message = message.role

unfoldable pub add_message : ChatMessage → Memory → Memory
add_message message memory = record { messages = memory.messages ++ message ∷ [] }

unfoldable pub add_messages : List ChatMessage → Memory → Memory
add_messages messages memory = record { messages = memory.messages ++ messages }

unfoldable pub get_messages : Memory → List ChatMessage
get_messages memory = memory.messages

abbrev pub last : List ChatMessage → Option ChatMessage
last [] = none
last (m ∷ []) = some m
last (m ∷ n ∷ rest) = last (n ∷ rest)

unfoldable pub get_last_message : Memory → Option ChatMessage
get_last_message memory = last memory.messages

-- `messages[:-1]`
abbrev pub drop_last : List ChatMessage → List ChatMessage
drop_last [] = []
drop_last (m ∷ []) = []
drop_last (m ∷ n ∷ rest) = m ∷ drop_last (n ∷ rest)

unfoldable pub roll_back : Memory → Memory
roll_back memory = record { messages = drop_last memory.messages }

unfoldable pub is_empty_memory : Memory → Bool
is_empty_memory memory = elim memory.messages [ [] ↦ true | _ ↦ false ]

unfoldable pub is_browser_result : ChatMessage → Bool
unfolding get_message_role
is_browser_result message =
    is_text (get_message_role message) "tool"
    && (is_text message.function_name "browser_view"
        || is_text message.function_name "browser_navigate")

-- The body of the loop in `compact`, for one message.
unfoldable pub compact_message : ChatMessage → ChatMessage
unfolding is_browser_result
compact_message message = record message {
  content = if is_browser_result message then some "(removed)" else message.content;
  reasoning_content = none;
}

unfoldable pub compact : Memory → Memory
unfolding compact_message
compact memory = record { messages = map compact_message memory.messages }
