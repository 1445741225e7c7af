-- ===== src/Agent/Steps.antt =====
-- app/domain/services/agents/base.py: `BaseAgent.invoke` from one suspension to the next, for a
-- relation of databases that the save of a memory keeps.
use boxify_agent.Prelude.{
  String, ℕ, zero, suc, none, List, [], ◌∷◌, ◌++◌, ◌≡◌, refl, Bool-cases, Option-cases, inl, inr,
  is_empty,
}
use boxify_agent.Result.{Exec, Result, ok, err, Result-cases}
use boxify_agent.Memory.{ChatMessage, ToolCall, Function, Field, absent, null, given}
use boxify_agent.Event.{Event, Value}
use boxify_agent.Store.{Database}
use boxify_agent.Gen.{Gen, awaiting}
use boxify_agent.Agent.{Services, Agent, World, agent_format, with_db}
use boxify_agent.Agent.Llm.{invoke_llm, invoke_tool}
use boxify_agent.Agent.Frame.{
  Frame, Steps, Moves, db_of_world, bind-Moves, invoke_llm-Moves, tool_rounds-Moves,
}
use boxify_agent.Agent.Loop.{
  Invocation, iterate, invoke, tool_loop, one_call, prepare, final_event, tool_message, call_id,
  get_tool, parsed, located,
}

module _ (f : Frame) (env : Services) where
  open f use {Rel, here, next}

  abbrev WorldSteps : Database → Gen World Event → Type 0
  WorldSteps = Steps f (db_of_world f)

  awaiting-Steps :
      {A : Type 0} (db : Database) (r : Result A × World) (k : A → World → Gen World Event)
      → Rel db r.1.db
      → ((a : A) (w : World) → Rel db w.db → WorldSteps db (k a w))
      → WorldSteps db (awaiting r k)
  awaiting-Steps db (ok a, w) k first h = h a w first
  awaiting-Steps db (err e, w) k first h = first

  -- A call after some writes: the relation reaches to its end.
  call_after :
      {A : Type 0} (db : Database) (m : Exec World A) (w : World)
      → Rel db w.db
      → Moves f m
      → Rel db (m w).1.db
  call_after db m w first h = next db w.db (m w).1.db first (h w)

  call_id-Moves : (id : Field) → Moves f (call_id env id)
  unfolding call_id
  call_id-Moves absent w = here w.db
  call_id-Moves null w = here w.db
  call_id-Moves (given s) w = elim (Bool-cases (is_empty s)) [
    | inl empty ↦ rw empty (here w.db)
    | inr full ↦ rw full (here w.db)
  ]

  located-Moves :
      (function : Function) (id : String) (args : List (String × Value))
      → Moves f (located env function id args)
  unfolding located
  located-Moves function id args w = elim (Result-cases (get_tool env function.name)) [
    | inl (kit, e) ↦ rw e (here w.db)
    | inr (error, e) ↦ rw e (here w.db)
  ]

  parsed-Moves : (function : Function) (id : String) → Moves f (parsed env function id)
  unfolding parsed
  parsed-Moves function id w = elim (Result-cases (env.parse_args function.arguments)) [
    | inl (args, e) ↦ rw e (located-Moves function id args w)
    | inr (error, e) ↦ rw e (here w.db)
  ]

  prepare-Moves : (id : Field) (function : Function) → Moves f (prepare env id function)
  unfolding prepare
  prepare-Moves id function =
      bind-Moves f (call_id env id) (parsed env function) (call_id-Moves id) (parsed-Moves function)

  invoke_tool-Moves :
      (tool_name function_name : String) (args : List (String × Value))
      → Moves f (invoke_tool env tool_name function_name args)
  unfolding invoke_tool
  invoke_tool-Moves tool_name function_name args =
      tool_rounds-Moves f env env.max_retries "" tool_name function_name args

  one_call-Steps :
      (db : Database) (call : Invocation) (w : World) (k : ChatMessage → World → Gen World Event)
      → Rel db w.db
      → ((m : ChatMessage) (db' : Database) (w' : World) → Rel db' w'.db → WorldSteps db' (k m w'))
      → WorldSteps db (one_call env call w k)
  unfolding one_call
  one_call-Steps db call w k first h = (
    first,
    λ db'.
        awaiting-Steps db'
          (invoke_tool env call.tool_name call.function_name call.args (with_db db' w)) _
          (invoke_tool-Moves call.tool_name call.function_name call.args (with_db db' w))
          (λ result w' r.
            (r, λ db''. h (tool_message env call result) db'' (with_db db'' w') (here db''))),
  )

  tool_loop-Steps :
      (db : Database) (calls : List ToolCall) (answers : List ChatMessage) (w : World)
      (k : List ChatMessage → World → Gen World Event)
      → Rel db w.db
      → ((ms : List ChatMessage) (db' : Database) (w' : World)
          → Rel db' w'.db
          → WorldSteps db' (k ms w'))
      → WorldSteps db (tool_loop env calls answers w k)
  unfolding tool_loop
  tool_loop-Steps db [] answers w k first h = h answers db w first
  tool_loop-Steps db (call ∷ calls) answers w k first h = elim (Option-cases call.function) [
    | inl missing ↦ rw (missing, tool_loop) (tool_loop-Steps db calls answers w k first h)
    | inr (function, e) ↦
        rw (e, tool_loop)
          (awaiting-Steps db (prepare env call.id function w) _
            (call_after db (prepare env call.id function) w first (prepare-Moves call.id function))
            (λ invocation w' r.
              one_call-Steps db invocation w' _ r (λ answer db' w'' r'.
                tool_loop-Steps db' calls (answers ++ answer ∷ []) w'' k r' h)))
  ]

  final_event-Steps :
      (db : Database) (message : ChatMessage) (w : World)
      → Rel db w.db
      → WorldSteps db (final_event env message w)
  unfolding final_event
  final_event-Steps db message w first = elim (Option-cases message.content) [
    | inl missing ↦ rw (missing, final_event) first
    | inr (content, e) ↦ rw (e, final_event) (first, λ db'. here db')
  ]

  iterate-Steps :
      (n : ℕ) (db : Database) (agent : Agent) (message : ChatMessage) (calls : List ToolCall)
      (w : World)
      → message.tool_calls ≡ calls
      → Rel db w.db
      → WorldSteps db (iterate env n agent message w)
  unfolding iterate
  iterate-Steps zero db agent message calls w e first =
      (first, λ db'. final_event-Steps db' message (with_db db' w) (here db'))
  iterate-Steps (suc n) db agent message [] w e first =
      rw (e, iterate) (final_event-Steps db message w first)
  iterate-Steps (suc n) db agent message (call ∷ calls) w e first =
      rw (e, iterate)
        (tool_loop-Steps db (call ∷ calls) [] w _ first (λ answers db' w' r.
          awaiting-Steps db' (invoke_llm env agent answers none w') _
            (call_after db' (invoke_llm env agent answers none) w' r
              (invoke_llm-Moves f env agent answers none))
            (λ message' w'' r'.
              iterate-Steps n db' agent message' message'.tool_calls w'' refl r')))

  pub invoke-Steps :
      (db : Database) (agent : Agent) (query : String) (w : World)
      → Rel db w.db
      → WorldSteps db (invoke env agent query w)
  unfolding invoke
  invoke-Steps db agent query w first =
      awaiting-Steps db (invoke_llm env agent _ (agent_format agent) w) _
        (call_after db (invoke_llm env agent _ (agent_format agent)) w first
          (invoke_llm-Moves f env agent _ (agent_format agent)))
        (λ message w' r.
          iterate-Steps env.max_iterations db agent message message.tool_calls w' refl r)
