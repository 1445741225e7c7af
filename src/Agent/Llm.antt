-- ===== src/Agent/Llm.antt =====
-- `_invoke_llm` and `_invoke_tool` of app/domain/services/agents/base.py: calls with retries.
use boxify_agent.Prelude.{
  String, ℕ, zero, suc, ◌+◌, Bool, false, not, ◌&&◌, Option, none, some, List, [], ◌∷◌,
  if◌then◌else◌, is_blank,
}
use boxify_agent.Result.{
  Exec, Result, ok, err, runtime_error, cancelled, pure, gets, modify, lift, ◌>>=◌, ◌>>◌,
}
use boxify_agent.Memory
use boxify_agent.Memory.{Memory, ChatMessage, is_text}
use boxify_agent.Event.{ToolResult, Value}
use boxify_agent.Agent.{
  Services, LlmRequest, Agent, World, agent_tool_choice, chat_message, filtered_message, has_calls,
  ensure_memory, add_to_memory,
}

-- The request that goes to the model: the whole memory of the agent.
abbrev pub request : Agent → Option String → Memory → LlmRequest
request agent format memory = record {
  messages = Memory.get_messages memory;
  response_format = format;
  tool_choice = agent_tool_choice agent;
}

-- An assistant's reply with neither content nor tool calls.
unfoldable pub is_empty_reply : ChatMessage → Bool
is_empty_reply message = is_blank message.content && not (has_calls message.tool_calls)

abbrev pub no_reply : List ChatMessage
no_reply = chat_message "assistant" (some "") ∷ chat_message "user" (some "ai无响应内容，请继续") ∷ []

module _ (env : Services) where
  -- `self._llm.invoke(...)`, with the memory at the time of the call.
  unfoldable pub call_llm : Agent → Option String → Exec World ChatMessage
  unfolding ensure_memory
  call_llm agent format = do
    memory ← ensure_memory env agent
    calls ← gets (λ w. w.llm_calls)
    modify (λ w. record w { llm_calls = calls + 1 })
    lift (env.llm calls (request agent format memory))

  -- What the loop does with a reply: `none` to try again, or the message to return.
  unfoldable pub take_reply : Agent → ChatMessage → Exec World (Option ChatMessage)
  unfolding is_empty_reply
  take_reply agent message =
      if is_text message.role "assistant"
      then (if is_empty_reply message
          then (add_to_memory env agent no_reply >> pure none)
          else (add_to_memory env agent (filtered_message message ∷ [])
              >> pure (some (filtered_message message))))
      else (add_to_memory env agent (message ∷ []) >> pure (some message))

  unfoldable pub llm_attempt : Agent → Option String → Exec World (Option ChatMessage)
  unfolding call_llm take_reply
  llm_attempt agent format = do message ← call_llm agent format; take_reply agent message

  -- What an attempt decides: return, try again, or try again with the exception's text. A
  -- cancellation is no `Exception` and goes on up.
  unfoldable pub after_attempt :
      (String → Exec World ChatMessage)
      → String
      → Result (Option ChatMessage) × World
      → Result ChatMessage × World
  after_attempt retry error (ok (some message), w) = (ok message, w)
  after_attempt retry error (ok none, w) = retry error w
  after_attempt retry error (err cancelled, w) = (err cancelled, w)
  after_attempt retry error (err e, w) = retry (env.describe e) w

  -- The `for` loop with the rounds left and the last error.
  unfoldable pub llm_rounds : ℕ → String → Agent → Option String → Exec World ChatMessage
  unfolding llm_attempt after_attempt
  llm_rounds zero error agent format w = (err (runtime_error error), w)
  llm_rounds (suc rounds) error agent format w =
      after_attempt (λ e. llm_rounds rounds e agent format) error (llm_attempt agent format w)

  -- Steps 3 to 11, once the messages are in the memory.
  unfoldable pub ask_model : Agent → Option String → Exec World ChatMessage
  unfolding llm_rounds
  ask_model agent format = do
    memory ← ensure_memory env agent
    llm_rounds env.max_retries "调用语言模型发生错误" agent format

  unfoldable pub invoke_llm : Agent → List ChatMessage → Option String → Exec World ChatMessage
  unfolding ask_model
  invoke_llm agent messages format = do add_to_memory env agent messages; ask_model agent format

  unfoldable pub call_tool_once :
      (tool_name function_name : String) → List (String × Value) → Exec World ToolResult
  call_tool_once tool_name function_name args = do
    calls ← gets (λ w. w.tool_calls)
    modify (λ w. record w { tool_calls = calls + 1 })
    lift (env.call_tool calls tool_name function_name args)

  unfoldable pub after_tool :
      (String → Exec World ToolResult) → Result ToolResult × World → Result ToolResult × World
  after_tool retry (ok result, w) = (ok result, w)
  after_tool retry (err cancelled, w) = (err cancelled, w)
  after_tool retry (err e, w) = retry (env.describe e) w

  -- After the last round the error is the tool's result, and the model deals with it.
  unfoldable pub tool_rounds :
      ℕ
      → String
      → (tool_name function_name : String) → List (String × Value)
      → Exec World ToolResult
  unfolding call_tool_once after_tool
  tool_rounds zero error tool_name function_name args w =
      (ok (record { success = false; message = some error; payload = none }), w)
  tool_rounds (suc rounds) error tool_name function_name args w =
      after_tool (λ e. tool_rounds rounds e tool_name function_name args)
        (call_tool_once tool_name function_name args w)

  unfoldable pub invoke_tool :
      (tool_name function_name : String) → List (String × Value) → Exec World ToolResult
  unfolding tool_rounds
  invoke_tool tool_name function_name args =
      tool_rounds env.max_retries "" tool_name function_name args
