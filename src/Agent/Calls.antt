-- ===== src/Agent/Calls.antt =====
-- app/domain/services/agents/base.py: how often an agent calls the language model.
use boxify_agent.Prelude.{
  String, ℕ, zero, suc, ◌+◌, ◌*◌, ◌≤◌, ◌≡◌, refl, subst, Option, none, some, List, [], ◌∷◌, ◌++◌,
  arith, Bool-cases, Option-cases, is_empty, inl, inr,
}
use boxify_agent.Result.{Exec, Result, ok, err, cancelled, Result-cases, resume}
use boxify_agent.Memory.{
  Memory, ChatMessage, ToolCall, Function, Field, absent, null, given, is_text,
}
use boxify_agent.Store.{Database}
use boxify_agent.Event.{Event, ToolResult, Value}
use boxify_agent.Gen.{Gen, awaiting, Always}
use boxify_agent.Agent.{
  with_db, Services, Agent, agent_format, planner, react, World, agent_memory, in_db, ensured,
  ensure_memory, keep_memory, add_to_memory,
}
use boxify_agent.Agent.Llm.{
  call_llm, take_reply, llm_attempt, after_attempt, llm_rounds, ask_model, invoke_llm,
  is_empty_reply, invoke_tool, tool_rounds, call_tool_once, after_tool,
}
use boxify_agent.Agent.Loop.{
  Invocation, iterate, invoke, tool_loop, one_call, prepare, final_event, tool_message, call_id,
  get_tool, parsed, located,
}

-- A call that adds at most `n` model calls, whatever its result.
abbrev pub Adds : {A : Type 0} → ℕ → Exec World A → Type 0
Adds n m = (w : World) → (m w).1.llm_calls ≤ w.llm_calls + n

in_db-Adds : {A : Type 0} (m : Exec Database A) → Adds 0 (in_db m)
in_db-Adds m w = omega arith

resume-Adds :
    {A B : Type 0} (k c : ℕ) (r : Result A × World) (f : A → Exec World B)
    → ((a : A) → Adds k (f a))
    → r.1.llm_calls ≤ c
    → (resume r f).1.llm_calls ≤ c + k
resume-Adds k c (ok a, w) f h le = omega (arith, h a w)
resume-Adds k c (err e, w) f h le = omega arith

bind-Adds :
    {A B : Type 0} (n k : ℕ) (m : Exec World A) (f : A → Exec World B)
    → Adds n m
    → ((a : A) → Adds k (f a))
    → Adds (n + k) (λ w. resume (m w) f)
bind-Adds n k m f first then_ w =
    omega (arith, resume-Adds k (w.llm_calls + n) (m w) f then_ (first w))

module _ (env : Services) where
  ensured-Adds : (agent : Agent) (memory : Option Memory) → Adds 0 (ensured env agent memory)
  unfolding ensured boxify_agent.Store.get_memory
  ensured-Adds planner none w = omega arith
  ensured-Adds react none w = omega arith
  ensured-Adds agent (some memory) w = omega arith

  pub ensure_memory-Adds : (agent : Agent) → Adds 0 (ensure_memory env agent)
  unfolding ensure_memory
  ensure_memory-Adds agent w = ensured-Adds agent (agent_memory agent w) w

  keep_memory-Adds : (agent : Agent) (memory : Memory) → Adds 0 (keep_memory env agent memory)
  unfolding keep_memory
  keep_memory-Adds planner memory w = omega arith
  keep_memory-Adds react memory w = omega arith

  pub add_to_memory-Adds :
      (agent : Agent) (messages : List ChatMessage) → Adds 0 (add_to_memory env agent messages)
  unfolding add_to_memory
  add_to_memory-Adds agent messages =
      bind-Adds 0 0 (ensure_memory env agent) _ (ensure_memory-Adds agent)
        (λ m. keep_memory-Adds agent _)

  call_llm-Adds : (agent : Agent) (format : Option String) → Adds 1 (call_llm env agent format)
  unfolding call_llm
  call_llm-Adds agent format =
      bind-Adds 0 1 (ensure_memory env agent) _ (ensure_memory-Adds agent) (λ m w. omega arith)

  take_reply-Adds : (agent : Agent) (message : ChatMessage) → Adds 0 (take_reply env agent message)
  unfolding take_reply
  take_reply-Adds agent message = elim (Bool-cases (is_text message.role "assistant")) [
    | inr other ↦ rw other (
        bind-Adds 0 0 (add_to_memory env agent _) _ (add_to_memory-Adds agent _)
          (λ _ w. omega arith))
    | inl assistant ↦ elim (Bool-cases (is_empty_reply message)) [
      | inl empty ↦
          rw (assistant, empty)
            (bind-Adds 0 0 (add_to_memory env agent _) _ (add_to_memory-Adds agent _)
              (λ _ w. omega arith))
      | inr full ↦
          rw (assistant, full)
            (bind-Adds 0 0 (add_to_memory env agent _) _ (add_to_memory-Adds agent _)
              (λ _ w. omega arith))
    ]
  ]

  llm_attempt-Adds :
      (agent : Agent) (format : Option String) → Adds 1 (llm_attempt env agent format)
  unfolding llm_attempt
  llm_attempt-Adds agent format =
      bind-Adds 1 0 (call_llm env agent format) _ (call_llm-Adds agent format)
        (λ m. take_reply-Adds agent m)

  after_attempt-le :
      (n c : ℕ) (retry : String → Exec World ChatMessage) (error : String)
      (r : Result (Option ChatMessage) × World)
      → ((e : String) → Adds n (retry e))
      → r.1.llm_calls ≤ c
      → (after_attempt env retry error r).1.llm_calls ≤ c + n
  unfolding after_attempt
  after_attempt-le n c retry error (ok (some m), w) h le = omega arith
  after_attempt-le n c retry error (ok none, w) h le = omega (arith, h error w)
  after_attempt-le n c retry error (err cancelled, w) h le = omega arith
  after_attempt-le n c retry error (err e, w) h le = omega (arith, h (env.describe e) w)

  llm_rounds-Adds :
      (rounds : ℕ) (error : String) (agent : Agent) (format : Option String)
      → Adds rounds (llm_rounds env rounds error agent format)
  unfolding llm_rounds
  llm_rounds-Adds zero error agent format w = omega arith
  llm_rounds-Adds (suc n) error agent format w = omega (
    arith,
    after_attempt-le n (w.llm_calls + 1) (λ e. llm_rounds env n e agent format) error
        (llm_attempt env agent format w) (λ e. llm_rounds-Adds n e agent format)
        (llm_attempt-Adds agent format w),
  )

  ask_model-Adds :
      (agent : Agent) (format : Option String) → Adds env.max_retries (ask_model env agent format)
  unfolding ask_model
  ask_model-Adds agent format w = omega (
    arith,
    bind-Adds 0 env.max_retries (ensure_memory env agent)
        (λ _. llm_rounds env env.max_retries "调用语言模型发生错误" agent format) (ensure_memory-Adds agent)
        (λ _. llm_rounds-Adds env.max_retries "调用语言模型发生错误" agent format) w,
  )

  -- One `_invoke_llm` asks the model at most `max_retries` times, whether it returns or raises.
  pub invoke_llm-Adds :
      (agent : Agent) (messages : List ChatMessage) (format : Option String) (w : World)
      → (invoke_llm env agent messages format w).1.llm_calls ≤ w.llm_calls + env.max_retries
  unfolding invoke_llm
  invoke_llm-Adds agent messages format w = omega (
    arith,
    bind-Adds 0 env.max_retries (add_to_memory env agent messages) (λ _. ask_model env agent format)
        (add_to_memory-Adds agent messages) (λ _. ask_model-Adds agent format) w,
  )

  -- Tools are no model calls.
  call_tool_once-Adds :
      (tool_name function_name : String) (args : List (String × Value))
      → Adds 0 (call_tool_once env tool_name function_name args)
  unfolding call_tool_once
  call_tool_once-Adds tool_name function_name args w = omega arith

  after_tool-le :
      (c : ℕ) (retry : String → Exec World ToolResult) (r : Result ToolResult × World)
      → ((e : String) → Adds 0 (retry e))
      → r.1.llm_calls ≤ c
      → (after_tool env retry r).1.llm_calls ≤ c
  unfolding after_tool
  after_tool-le c retry (ok result, w) h le = le
  after_tool-le c retry (err cancelled, w) h le = le
  after_tool-le c retry (err e, w) h le = omega (arith, h (env.describe e) w)

  tool_rounds-Adds :
      (rounds : ℕ) (error tool_name function_name : String) (args : List (String × Value))
      → Adds 0 (tool_rounds env rounds error tool_name function_name args)
  unfolding tool_rounds
  tool_rounds-Adds zero error tool_name function_name args w = omega arith
  tool_rounds-Adds (suc n) error tool_name function_name args w = omega (
    arith,
    after_tool-le w.llm_calls (λ e. tool_rounds env n e tool_name function_name args)
        (call_tool_once env tool_name function_name args w)
        (λ e. tool_rounds-Adds n e tool_name function_name args)
        (omega (arith, call_tool_once-Adds tool_name function_name args w)),
  )

  -- At no suspension, and at no end, has the generator made more than `c` model calls.
  abbrev pub Within : ℕ → Gen World Event → Type 0
  Within c = Always (λ w e. w.llm_calls ≤ c) (λ w. w.llm_calls ≤ c) (λ e w. w.llm_calls ≤ c)

  awaiting-Within :
      {A : Type 0} (c d : ℕ) (r : Result A × World) (k : A → World → Gen World Event)
      → r.1.llm_calls ≤ d
      → d ≤ c
      → ((a : A) (w : World) → w.llm_calls ≤ d → Within c (k a w))
      → Within c (awaiting r k)
  awaiting-Within c d (ok a, w) k le fits h = h a w le
  awaiting-Within c d (err e, w) k le fits h = omega arith

  call_id-Adds : (id : Field) → Adds 0 (call_id env id)
  unfolding call_id
  call_id-Adds absent w = omega arith
  call_id-Adds null w = omega arith
  call_id-Adds (given s) w = elim (Bool-cases (is_empty s)) [
    | inl empty ↦ rw empty (omega arith)
    | inr full ↦ rw full (omega arith)
  ]

  located-Adds :
      (function : Function) (id : String) (args : List (String × Value))
      → Adds 0 (located env function id args)
  unfolding located
  located-Adds function id args w = elim (Result-cases (get_tool env function.name)) [
    | inl (kit, e) ↦ rw e (omega arith)
    | inr (error, e) ↦ rw e (omega arith)
  ]

  parsed-Adds : (function : Function) (id : String) → Adds 0 (parsed env function id)
  unfolding parsed
  parsed-Adds function id w = elim (Result-cases (env.parse_args function.arguments)) [
    | inl (args, e) ↦ rw e (located-Adds function id args w)
    | inr (error, e) ↦ rw e (omega arith)
  ]

  prepare-Adds : (id : Field) (function : Function) → Adds 0 (prepare env id function)
  unfolding prepare
  prepare-Adds id function =
      bind-Adds 0 0 (call_id env id) (parsed env function) (call_id-Adds id) (parsed-Adds function)

  one_call-Within :
      (c d : ℕ) (call : Invocation) (w : World) (k : ChatMessage → World → Gen World Event)
      → w.llm_calls ≤ d
      → d ≤ c
      → ((m : ChatMessage) (w' : World) → w'.llm_calls ≤ d → Within c (k m w'))
      → Within c (one_call env call w k)
  unfolding one_call invoke_tool
  one_call-Within c d call w k le fits h = (
    omega arith,
    λ db.
        awaiting-Within c d
          (tool_rounds env env.max_retries "" call.tool_name call.function_name call.args
            (with_db db w))
          _
          (omega (
            arith,
            tool_rounds-Adds env.max_retries "" call.tool_name call.function_name call.args
                (with_db db w),
          ))
          fits
          (λ result w' le'.
            (omega arith, λ db'. h (tool_message env call result) (with_db db' w') le')),
  )

  tool_loop-Within :
      (c d : ℕ) (calls : List ToolCall) (answers : List ChatMessage) (w : World)
      (k : List ChatMessage → World → Gen World Event)
      → w.llm_calls ≤ d
      → d ≤ c
      → ((ms : List ChatMessage) (w' : World) → w'.llm_calls ≤ d → Within c (k ms w'))
      → Within c (tool_loop env calls answers w k)
  unfolding tool_loop
  tool_loop-Within c d [] answers w k le fits h = h answers w le
  tool_loop-Within c d (call ∷ calls) answers w k le fits h = elim (Option-cases call.function) [
    | inl missing ↦ rw (missing, tool_loop) (tool_loop-Within c d calls answers w k le fits h)
    | inr (function, e) ↦
        rw (e, tool_loop)
          (awaiting-Within c d (prepare env call.id function w) _
            (omega (arith, prepare-Adds call.id function w)) fits
            (λ invocation w' le'. one_call-Within c d invocation w' _ le' fits (λ answer w'' le''.
              tool_loop-Within c d calls (answers ++ answer ∷ []) w'' k le'' fits h)))
  ]

  final_event-Within :
      (c : ℕ) (message : ChatMessage) (w : World)
      → w.llm_calls ≤ c
      → Within c (final_event env message w)
  unfolding final_event
  final_event-Within c message w le = elim (Option-cases message.content) [
    | inl missing ↦ rw (missing, final_event) le
    | inr (content, e) ↦ rw (e, final_event) (le, λ db. le)
  ]

  iterate-Within :
      (n d : ℕ) (agent : Agent) (message : ChatMessage) (calls : List ToolCall) (w : World)
      → message.tool_calls ≡ calls
      → w.llm_calls ≤ d
      → Within (d + n * env.max_retries) (iterate env n agent message w)
  unfolding iterate
  iterate-Within zero d agent message calls w e le = (
    omega arith,
    λ db. final_event-Within (d + 0 * env.max_retries) message (with_db db w) (omega arith),
  )
  iterate-Within (suc n) d agent message [] w e le =
      rw (e, iterate) (final_event-Within (d + suc n * env.max_retries) message w (omega arith))
  iterate-Within (suc n) d agent message (call ∷ calls) w e le =
      rw (e, iterate)
        (tool_loop-Within (d + suc n * env.max_retries) d (call ∷ calls) [] w _ le (omega arith)
          (λ answers w' le'.
            awaiting-Within (d + suc n * env.max_retries) (d + env.max_retries)
              (invoke_llm env agent answers none w') _
              (omega (arith, invoke_llm-Adds agent answers none w')) (grind arith)
              (λ next w'' le''.
                subst (λ c. Within c (iterate env n agent next w'')) (omega arith)
                  (iterate-Within n (d + env.max_retries) agent next next.tool_calls w'' refl
                    le''))))

  -- A whole `invoke` asks the model at most `max_retries` times for the query and as often for every
  -- iteration; at no event and at no end, raised or not, has it asked more.
  pub invoke-Within :
      (agent : Agent) (query : String) (w : World)
      → Within (w.llm_calls + (1 + env.max_iterations) * env.max_retries) (invoke env agent query w)
  unfolding invoke
  invoke-Within agent query w =
      awaiting-Within (w.llm_calls + (1 + env.max_iterations) * env.max_retries)
        (w.llm_calls + env.max_retries) (invoke_llm env agent _ (agent_format agent) w) _
        (invoke_llm-Adds agent _ (agent_format agent) w) (grind arith)
        (λ message w' le.
          subst (λ c. Within c (iterate env env.max_iterations agent message w')) (omega arith)
            (iterate-Within env.max_iterations (w.llm_calls + env.max_retries) agent message
              message.tool_calls w' refl le))
