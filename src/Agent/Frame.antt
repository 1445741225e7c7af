-- ===== src/Agent/Frame.antt =====
-- app/domain/services/agents/base.py: what an agent writes in the database between two suspensions,
-- as any relation of databases that the save of a memory keeps.
use boxify_agent.Prelude.{String, ℕ, zero, suc, Option, none, some, List, Bool-cases, inl, inr}
use boxify_agent.Result.{Exec, Result, ok, err, cancelled, resume, commit_or_rollback}
use boxify_agent.Memory.{Memory, ChatMessage, ToolCall, is_text}
use boxify_agent.Event.{UserMessage, Value, ToolResult}
use boxify_agent.Session.{SessionStatus}
use boxify_agent.Store
use boxify_agent.Store.{Database}
use boxify_agent.Gen.{Gen, finished, raised, yielded, unfinished}
use boxify_agent.Agent.{
  Services, Agent, World, planner, react, agent_memory, in_db, ensured, ensure_memory, keep_memory,
  add_to_memory, compact_memory, roll_back, roll_back_call,
}
use boxify_agent.Agent.Llm.{
  call_llm, take_reply, is_empty_reply, llm_attempt, after_attempt, llm_rounds, ask_model,
  invoke_llm, call_tool_once, after_tool, tool_rounds,
}

-- A relation between the database before and after, which the writes of agents and flow keep.
pub record Frame : Type 1 where
  pub Rel : Database → Database → Type 0
  pub here : (db : Database) → Rel db db
  pub next : (a b c : Database) → Rel a b → Rel b c → Rel a c
  pub saves :
      (id name : String) (memory : Memory) (db : Database)
      → Rel db (Store.save_memory id name memory db).1
  pub statuses :
      (id : String) (status : SessionStatus) (db : Database)
      → Rel db (Store.update_status id status db).1

module _ (f : Frame) where
  open f use {Rel, here, next, saves, statuses}

  -- The relation holds at each suspension and at the end, from the database at the last resumption.
  abbrev pub Steps : {S E : Type 0} → (S → Database) → Database → Gen S E → Type 0
  Steps db_of db (finished s) = Rel db (db_of s)
  Steps db_of db (raised e s) = Rel db (db_of s)
  Steps db_of db (unfinished s) = Rel db (db_of s)
  Steps db_of db (yielded s e rest) =
      Rel db (db_of s) × ((db' : Database) → Steps db_of db' (rest db'))

  abbrev pub db_of_world : World → Database
  db_of_world w = w.db

  -- A computation whose every run keeps the relation.
  abbrev pub Moves : {A : Type 0} → Exec World A → Type 0
  Moves m = (w : World) → Rel w.db (m w).1.db

  settled :
      {A : Type 0} (db : Database) (r : Result A × Database)
      → Rel db r.1
      → Rel db (commit_or_rollback db r).1
  settled db (ok a, after) h = h
  settled db (err e, after) h = here db

  pub in_db-Moves :
      {A : Type 0} (m : Exec Database A) → ((db : Database) → Rel db (m db).1) → Moves (in_db m)
  in_db-Moves m h w = settled w.db (m w.db) (h w.db)

  resume-Rel :
      {A B : Type 0} (db : Database) (r : Result A × World) (k : A → Exec World B)
      → ((a : A) → Moves (k a))
      → Rel db r.1.db
      → Rel db (resume r k).1.db
  resume-Rel db (ok a, w) k h first = next db w.db (k a w).1.db first (h a w)
  resume-Rel db (err e, w) k h first = first

  pub bind-Moves :
      {A B : Type 0} (m : Exec World A) (k : A → Exec World B)
      → Moves m
      → ((a : A) → Moves (k a))
      → Moves (λ w. resume (m w) k)
  bind-Moves m k first h w = resume-Rel w.db (m w) k h (first w)

  module _ (env : Services) where
    ensured-Moves : (agent : Agent) (memory : Option Memory) → Moves (ensured env agent memory)
    unfolding ensured boxify_agent.Store.get_memory
    ensured-Moves planner none w = here w.db
    ensured-Moves react none w = here w.db
    ensured-Moves agent (some memory) w = here w.db

    ensure_memory-Moves : (agent : Agent) → Moves (ensure_memory env agent)
    unfolding ensure_memory
    ensure_memory-Moves agent w = ensured-Moves agent (agent_memory agent w) w

    keep_memory-Moves : (agent : Agent) (memory : Memory) → Moves (keep_memory env agent memory)
    unfolding keep_memory
    keep_memory-Moves planner memory w =
        in_db-Moves (Store.save_memory env.session_id "planner" memory)
          (saves env.session_id "planner" memory) (record w { planner_memory = some memory })
    keep_memory-Moves react memory w =
        in_db-Moves (Store.save_memory env.session_id "react" memory)
          (saves env.session_id "react" memory) (record w { react_memory = some memory })

    add_to_memory-Moves :
        (agent : Agent) (messages : List ChatMessage) → Moves (add_to_memory env agent messages)
    unfolding add_to_memory
    add_to_memory-Moves agent messages =
        bind-Moves (ensure_memory env agent) _ (ensure_memory-Moves agent)
          (λ m. keep_memory-Moves agent _)

    pub compact_memory-Moves : (agent : Agent) → Moves (compact_memory env agent)
    unfolding compact_memory
    compact_memory-Moves agent =
        bind-Moves (ensure_memory env agent) _ (ensure_memory-Moves agent)
          (λ m. keep_memory-Moves agent _)

    roll_back_call-Moves :
        (agent : Agent) (message : UserMessage) (memory : Memory) (call : Option ToolCall)
        → Moves (roll_back_call env agent message memory call)
    unfolding roll_back_call
    roll_back_call-Moves agent message memory none = λ w. here w.db
    roll_back_call-Moves agent message memory (some call) = keep_memory-Moves agent _

    pub roll_back-Moves :
        (agent : Agent) (message : UserMessage) → Moves (roll_back env agent message)
    unfolding roll_back
    roll_back-Moves agent message =
        bind-Moves (ensure_memory env agent) _ (ensure_memory-Moves agent)
          (λ memory. roll_back_call-Moves agent message memory _)

    call_llm-Moves : (agent : Agent) (format : Option String) → Moves (call_llm env agent format)
    unfolding call_llm
    call_llm-Moves agent format =
        bind-Moves (ensure_memory env agent) _ (ensure_memory-Moves agent) (λ m w. here w.db)

    -- The messages are kept, and nothing else is written after.
    told-Moves :
        {A : Type 0} (agent : Agent) (messages : List ChatMessage) (a : A)
        → Moves (λ w. resume (add_to_memory env agent messages w) (λ _ w'. (ok a, w')))
    told-Moves agent messages a =
        bind-Moves (add_to_memory env agent messages) _ (add_to_memory-Moves agent messages)
          (λ _ w. here w.db)

    take_reply-Moves :
        (agent : Agent) (message : ChatMessage) → Moves (take_reply env agent message)
    unfolding take_reply
    take_reply-Moves agent message = elim (Bool-cases (is_text message.role "assistant")) [
      | inr other ↦ rw other (told-Moves agent _ _)
      | inl assistant ↦ elim (Bool-cases (is_empty_reply message)) [
        | inl empty ↦ rw (assistant, empty) (told-Moves agent _ _)
        | inr full ↦ rw (assistant, full) (told-Moves agent _ _)
      ]
    ]

    llm_attempt-Moves :
        (agent : Agent) (format : Option String) → Moves (llm_attempt env agent format)
    unfolding llm_attempt
    llm_attempt-Moves agent format =
        bind-Moves (call_llm env agent format) _ (call_llm-Moves agent format)
          (take_reply-Moves agent)

    after_attempt-Rel :
        (db : Database) (retry : String → Exec World ChatMessage) (error : String)
        (r : Result (Option ChatMessage) × World)
        → ((e : String) → Moves (retry e))
        → Rel db r.1.db
        → Rel db (after_attempt env retry error r).1.db
    unfolding after_attempt
    after_attempt-Rel db retry error (ok (some m), w) h first = first
    after_attempt-Rel db retry error (ok none, w) h first = next db w.db _ first (h error w)
    after_attempt-Rel db retry error (err cancelled, w) h first = first
    after_attempt-Rel db retry error (err e, w) h first =
        next db w.db _ first (h (env.describe e) w)

    llm_rounds-Moves :
        (rounds : ℕ) (error : String) (agent : Agent) (format : Option String)
        → Moves (llm_rounds env rounds error agent format)
    unfolding llm_rounds
    llm_rounds-Moves zero error agent format w = here w.db
    llm_rounds-Moves (suc n) error agent format w =
        after_attempt-Rel w.db (λ e. llm_rounds env n e agent format) error
          (llm_attempt env agent format w) (λ e. llm_rounds-Moves n e agent format)
          (llm_attempt-Moves agent format w)

    ask_model-Moves : (agent : Agent) (format : Option String) → Moves (ask_model env agent format)
    unfolding ask_model
    ask_model-Moves agent format =
        bind-Moves (ensure_memory env agent)
          (λ _. llm_rounds env env.max_retries "调用语言模型发生错误" agent format)
          (ensure_memory-Moves agent)
          (λ _. llm_rounds-Moves env.max_retries "调用语言模型发生错误" agent format)

    pub invoke_llm-Moves :
        (agent : Agent) (messages : List ChatMessage) (format : Option String)
        → Moves (invoke_llm env agent messages format)
    unfolding invoke_llm
    invoke_llm-Moves agent messages format =
        bind-Moves (add_to_memory env agent messages) (λ _. ask_model env agent format)
          (add_to_memory-Moves agent messages) (λ _. ask_model-Moves agent format)

    after_tool-Rel :
        (db : Database) (retry : String → Exec World ToolResult) (r : Result ToolResult × World)
        → ((e : String) → Moves (retry e))
        → Rel db r.1.db
        → Rel db (after_tool env retry r).1.db
    unfolding after_tool
    after_tool-Rel db retry (ok result, w) h first = first
    after_tool-Rel db retry (err cancelled, w) h first = first
    after_tool-Rel db retry (err e, w) h first = next db w.db _ first (h (env.describe e) w)

    pub tool_rounds-Moves :
        (rounds : ℕ) (error tool_name function_name : String) (args : List (String × Value))
        → Moves (tool_rounds env rounds error tool_name function_name args)
    unfolding tool_rounds call_tool_once
    tool_rounds-Moves zero error tool_name function_name args w = here w.db
    tool_rounds-Moves (suc n) error tool_name function_name args w =
        after_tool-Rel w.db (λ e. tool_rounds env n e tool_name function_name args)
          (call_tool_once env tool_name function_name args w)
          (λ e. tool_rounds-Moves n e tool_name function_name args) (here w.db)
