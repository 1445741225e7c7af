-- ===== src/Runner.antt =====
-- app/domain/agent_task_runner.py: the runner of a task, which reads the user's messages from the
-- input stream, runs the flow on each, and puts the flow's events to the output stream and into the
-- session. This file has its state, the streams and the services outside.
pub mod Files
pub mod Tools
pub mod Loop
pub mod Log
pub mod InStep
pub mod Recorded
pub mod Delivery
pub mod Status
mod Samples
use boxify_agent.Prelude.{
  String, ℕ, ◌+◌, Bool, true, false, Option, none, some, List, [], ◌∷◌, ◌++◌, if◌then◌else◌, ◌==◌,
  is_empty, length,
}
use boxify_agent.Result.{
  Error, Exec, Result, ok, err, cancelled, transaction, pure, ◌>>=◌, ◌>>◌, gets, modify, lift,
}
use boxify_agent.Event.{Event, File, Value, ToolResult}
use boxify_agent.Store
use boxify_agent.Store.{Database}
use boxify_agent.Agent.{Services}
use boxify_agent.Flow.{FlowState, at_db}

-- What the runner calls outside the repository: the streams' server, the sandbox, the browser, the file
-- storage and the remote tools. A number is how many calls went before.
pub record Host : Type 0 where
  pub ensure_sandbox : ℕ → Result (Unit {0})
  pub initialize_mcp : ℕ → Result (Unit {0})
  pub initialize_a2a : ℕ → Result (Unit {0})
  -- `xadd`: the id of the new entry
  pub put_output : ℕ → Event → Result String
  -- whether `pop` gave up on the stream's lock
  pub pop_refused : ℕ → Result Bool
  -- what a block of statements raises by itself, a failing database or a cancellation, if anything
  pub store_fault : ℕ → Option Error
  -- what other coroutines make of the tables while the runner waits, up to its next block of statements, put
  -- or check of the input
  pub others_write : ℕ → Database → Database
  -- what other coroutines have put to the input stream when its length is asked for the n-th time,
  -- each entry as pydantic reads it
  pub arrivals : ℕ → Result (List (Result Event))
  pub download_stored : ℕ → (file_id : String) → Result File
  pub upload_sandbox : ℕ → File → (filepath : String) → Result Bool
  pub download_sandbox : ℕ → (filepath : String) → Result (Unit {0})
  -- uploads what was downloaded, under the last part of its path
  pub upload_storage : ℕ → (filepath : String) → Result File
  pub destroy_sandbox : ℕ → Result (Unit {0})
  pub screenshot : ℕ → Result (Unit {0})
  pub upload_screenshot : ℕ → Result File
  pub read_shell_output : ℕ → Value → Result ToolResult
  pub read_file : ℕ → Value → Result ToolResult
  -- `data.get("console_records", [])` and `data.get("content", "")`, as pydantic takes them
  pub console_records : String → Result String
  pub file_text : String → Result String
  pub upload_path : (filename : String) → String
  pub show_result : ToolResult → String
  -- when the n-th event of the output stream was made
  pub created_at : ℕ → ℕ

-- The runner's flow with the world and the database in it, the streams, the table of files, and the
-- calls, the questions for the input's length and the clean-ups made so far.
pub record RunState : Type 0 where
  pub flow : FlowState
  pub input : List (Result Event)
  pub output : List (String × Event)
  pub files : List File
  pub calls : ℕ
  pub checks : ℕ
  pub cleanups : ℕ

abbrev pub db_of : RunState → Database
db_of st = st.flow.world.db

abbrev pub external : {A : Type 0} → (ℕ → Result A) → Exec RunState A
external call st = (call st.calls, record st { calls = st.calls + 1 })

abbrev pub stored : {A : Type 0} → RunState → Result A × Database → Result A × RunState
stored st (r, db) = (r, record st { flow = at_db db st.flow })

abbrev pub waited : Host → RunState → RunState
waited host st = record st {
  flow = at_db (host.others_write st.calls (db_of st)) st.flow;
  calls = st.calls + 1;
}

abbrev pub at_store : {A : Type 0} → Option Error → Exec Database A → Exec RunState A
at_store (some e) m st = (err e, st)
at_store none m st = stored st (transaction m (db_of st))

-- `async with self._uow_factory() as uow: ...`
abbrev pub in_store : {A : Type 0} → Host → Exec Database A → Exec RunState A
in_store host m st = at_store (host.store_fault st.calls) m (waited host st)

-- `uow.file.save`, DBFileRepository.save
unfoldable pub save_row : File → List File → List File
save_row file [] = file ∷ []
save_row file (row ∷ rows) = if row.id == file.id then file ∷ rows else row ∷ save_row file rows

unfoldable pub save_file : File → Exec RunState (Unit {0})
save_file file = modify (λ st. record st { files = save_row file st.files })

abbrev is_nil : List (Result Event) → Bool
is_nil [] = true
is_nil (e ∷ es) = false

abbrev pub arrived : RunState → Result (List (Result Event)) → Result Bool × RunState
arrived st (err e) = (err e, record st { checks = st.checks + 1 })
arrived st (ok more) =
    (ok (is_nil (st.input ++ more)), record st { input = st.input ++ more; checks = st.checks + 1 })

abbrev pub taken : List (Result Event) → Exec RunState (Option Event)
taken [] st = (ok none, st)
taken (ok e ∷ rest) st = (ok (some e), record st { input = rest })
taken (err e ∷ rest) st = (err e, record st { input = rest })

abbrev pub pushed : Event → Result String → Exec RunState String
pushed e (err error) st = (err error, st)
pushed e (ok id) st = (ok id, record st { output = st.output ++ (id, e) ∷ [] })

-- `if event_id: event.id = event_id`
abbrev pub with_id : String → Event → Event
with_id id e = if is_empty id then e else record e { id = id }

module _ (env : Services) (host : Host) where
  -- `task.input_stream.is_empty()`
  unfoldable pub input_is_empty : Exec RunState Bool
  input_is_empty st = arrived (waited host st) (host.arrivals st.checks)

  unfoldable pub pop_event : Exec RunState (Option Event)
  pop_event = do
    refused ← external host.pop_refused
    if refused then pure none else (λ st. taken st.input st)

  -- `task.output_stream.put(...)`
  unfoldable pub put_output : Event → Exec RunState String
  put_output e st = pushed e (host.put_output st.calls e) (waited host st)

  unfoldable pub put_and_add_event : Event → Exec RunState (Unit {0})
  unfolding put_output
  put_and_add_event e = do
    id ← put_output e
    in_store host (Store.add_event env.session_id (with_id id e))
