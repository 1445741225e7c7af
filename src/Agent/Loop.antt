-- ===== src/Agent/Loop.antt =====
-- `BaseAgent.invoke`: the model is asked, its tool calls are carried out and reported, and it is
-- asked again, until it answers with no tool call or the iterations are used up.
use boxify_agent.Prelude.{
  String, ℕ, zero, suc, ◌+◌, Bool, false, Option, none, some, List, [], ◌∷◌, ◌++◌, find, ◌==◌,
  if◌then◌else◌, is_empty, ◌||◌,
}
use boxify_agent.Result.{
  Result, ok, err, value_error, key_error, validation_error, Exec, gets, modify, pure, ◌>>=◌, ◌>>◌,
  lift,
}
use boxify_agent.Memory.{ChatMessage, ToolCall, Function, Field, absent, null, given}
use boxify_agent.Event.{
  Event, ToolResult, ToolEventStatus, Value, calling, called, tool_event, error_event, event,
  assistant_message,
}
use boxify_agent.Gen.{Gen, finished, raised, yielded, awaiting}
use boxify_agent.Agent.{with_db, Services, Toolkit, Agent, World, agent_format, chat_message}
use boxify_agent.Agent.Llm.{invoke_llm, invoke_tool}

abbrev any_name : String → List String → Bool
any_name name [] = false
any_name name (n ∷ ns) = n == name || any_name name ns

-- What the two events of a call share, and the message that answers it.
pub record Invocation : Type 0 where
  pub id : String
  pub tool_name : String
  pub function_name : String
  pub args : List (String × Value)

abbrev pub report : Invocation → Option ToolResult → ToolEventStatus → Event
report call result status = event (
    tool_event (record {
      tool_call_id = call.id;
      tool_name = call.tool_name;
      function_name = call.function_name;
      function_args = call.args;
      function_result = result;
      status = status;
      tool_content = none;
    }))

module _ (env : Services) where
  -- `_get_tool`
  unfoldable pub get_tool : String → Result Toolkit
  get_tool name = elim (find (λ kit. any_name name kit.functions) env.toolkits) [
    | none ↦ err (value_error name)
    | some kit ↦ ok kit
  ]

  unfoldable pub fresh_call_id : Exec World String
  fresh_call_id = do
    count ← gets (λ w. w.ids)
    modify (λ w. record w { ids = count + 1 })
    pure (env.fresh_id count)

  -- `tool_call["id"] or str(uuid4())`
  unfoldable pub call_id : Field → Exec World String
  unfolding fresh_call_id
  call_id absent = lift (err (key_error "id"))
  call_id null = fresh_call_id
  call_id (given id) = if is_empty id then fresh_call_id else pure id

  unfoldable pub located : Function → String → List (String × Value) → Exec World Invocation
  unfolding get_tool
  located function id args = do
    kit ← lift (get_tool function.name)
    pure (record { id = id; tool_name = kit.name; function_name = function.name; args = args })

  unfoldable pub parsed : Function → String → Exec World Invocation
  unfolding located
  parsed function id = do args ← lift (env.parse_args function.arguments); located function id args

  -- Steps 6 and 7: all that a call needs before it is reported.
  unfoldable pub prepare : Field → Function → Exec World Invocation
  unfolding call_id parsed
  prepare id function = do id' ← call_id id; parsed function id'

  unfoldable pub tool_message : Invocation → ToolResult → ChatMessage
  tool_message call result = record {
    role = some "tool";
    content = some (env.dump_result result);
    reasoning_content = none;
    tool_calls = [];
    tool_call_id = some call.id;
    function_name = some call.function_name;
  }

  -- One call, reported before and after; `k` goes on with the message that answers it.
  unfoldable pub one_call :
      Invocation → World → (ChatMessage → World → Gen World Event) → Gen World Event
  unfolding tool_message
  one_call call w k = yielded w (report call none calling) λ db.
      awaiting (invoke_tool env call.tool_name call.function_name call.args (with_db db w))
        λ result w'.
          yielded w' (report call (some result) called)
            (λ db'. k (tool_message call result) (with_db db' w'))

  -- The `for tool_call in message["tool_calls"]`; calls without a function are passed over.
  unfoldable pub tool_loop :
      List ToolCall
      → List ChatMessage
      → World
      → (List ChatMessage → World → Gen World Event)
      → Gen World Event
  unfolding prepare one_call
  tool_loop [] answers w k = k answers w
  tool_loop (call ∷ calls) answers w k = elim call.function [
    | none ↦ tool_loop calls answers w k
    | some function ↦ awaiting (prepare call.id function w) λ invocation w'.
        one_call invocation w' (λ answer w''. tool_loop calls (answers ++ answer ∷ []) w'' k)
  ]

  -- Step 14: the answer, whose content must be a text.
  unfoldable pub final_event : ChatMessage → World → Gen World Event
  final_event message w = elim message.content [
    | none ↦ raised (validation_error "message") w
    | some content ↦ yielded w (assistant_message content) (λ db. finished (with_db db w))
  ]

  abbrev pub too_many_iterations : Event
  too_many_iterations = event (error_event "Agent迭代超过最大迭代次数，任务处理失败")

  -- The `for ... else`: the error is reported when the iterations are used up, whatever the last
  -- message is.
  unfoldable pub iterate : ℕ → Agent → ChatMessage → World → Gen World Event
  unfolding tool_loop final_event
  iterate zero agent message w =
      yielded w too_many_iterations (λ db. final_event message (with_db db w))
  iterate (suc n) agent message w = elim message.tool_calls [
    | [] ↦ final_event message w
    | call ∷ calls ↦ tool_loop (call ∷ calls) [] w λ answers w'.
        awaiting (invoke_llm env agent answers none w') (λ next w''. iterate n agent next w'')
  ]

  -- `invoke(query)`: neither caller passes a format, so the class's own is used.
  unfoldable pub invoke : Agent → String → World → Gen World Event
  unfolding iterate
  invoke agent query w =
      awaiting (invoke_llm env agent (chat_message "user" (some query) ∷ []) (agent_format agent) w)
        λ message w'. iterate env.max_iterations agent message w'
