-- ===== src/Runner/Recorded.antt =====
-- app/domain/agent_task_runner.py: the syncs of files and the contents of tool events beside the output
-- stream and the session's events.
use boxify_agent.Prelude.{
  String, ℕ, Bool, true, false, Option, none, some, List, [], ◌∷◌, refl, ◌==◌, ◌||◌, Bool-cases,
  inl, inr,
}
use boxify_agent.Result.{Exec, Result, ok}
use boxify_agent.Event.{
  Event, File, Value, text, other, ToolEvent, ToolEventStatus, calling, called, MessageEvent,
}
use boxify_agent.Store
use boxify_agent.Store.{Database, row_of, update_rows, update_session_row, without_file}
use boxify_agent.Agent.{Services}
use boxify_agent.Runner.{Host, RunState, external, in_store, save_file}
use boxify_agent.Runner.Files.{
  add_session_file, keep_uploaded, sync_file_to_sandbox, sync_each_to_sandbox,
  sync_message_attachments_to_sandbox, is_some_file, drop_old, sync_file_to_storage,
  sync_each_to_storage, sync_message_attachments_to_storage, try_to_sandbox, try_to_storage,
  try_message_to_sandbox, try_message_to_storage,
}
use boxify_agent.React.{lookup_arg}
use boxify_agent.Runner.Tools.{
  get_browser_screenshot, read_data, shell_shown, sync_path, file_shown, shown, handle_called,
  handle_tool_event, try_shown,
}
use boxify_agent.Runner.Log.{
  AddsFromService, SameLog, update_session_row-SameLog, remove_file-SameLog,
}
use boxify_agent.Runner.InStep.{AgreesAt, InStep, in_store-InStep}
use boxify_agent.Result.Keeps.{bind-Keeps, catching-Keeps}

module _ (env : Services) (host : Host) (base : List Event)
    (others : AddsFromService host env.session_id) where
  abbrev KeepsStep : {A : Type 0} → Exec RunState A → Type 0
  KeepsStep = InStep host env.session_id base others

  abbrev Now : RunState → Type 0
  Now = AgreesAt host env.session_id base others

  external-Keeps : {A : Type 0} (call : ℕ → Result A) → KeepsStep (external call)
  external-Keeps call st a = a

  -- A statement that leaves the log alone.
  store-Keeps :
      {A : Type 0} (m : Exec Database A)
      → ((db : Database) → SameLog env.session_id db (m db).1)
      → KeepsStep (in_store host m)
  store-Keeps = in_store-InStep host env.session_id base others

  add_file-Keeps : (file : File) → KeepsStep (in_store host (Store.add_file env.session_id file))
  unfolding boxify_agent.Store.add_file
  add_file-Keeps file =
      store-Keeps (Store.add_file env.session_id file) (λ db.
        update_session_row-SameLog env.session_id env.session_id _ db (λ r. refl) (λ r. refl))

  add_session_file-Keeps : (file : Option File) → KeepsStep (add_session_file env host file)
  unfolding add_session_file
  add_session_file-Keeps none = λ st a. a
  add_session_file-Keeps (some file) = add_file-Keeps file

  keep_uploaded-Keeps :
      (file : File) (filepath : String) (success : Bool)
      → KeepsStep (keep_uploaded env host file filepath success)
  unfolding keep_uploaded save_file
  keep_uploaded-Keeps file filepath false = λ st a. a
  keep_uploaded-Keeps file filepath true = λ st a. a

  try_to_sandbox-Keeps : (file_id : String) → KeepsStep (try_to_sandbox env host file_id)
  unfolding try_to_sandbox
  try_to_sandbox-Keeps file_id =
      bind-Keeps Now (external (λ n. host.download_stored n file_id)) _ (λ st a. a)
        (λ file.
          bind-Keeps Now
            (external (λ n. host.upload_sandbox n file (host.upload_path file.filename))) _
            (λ st a. a) (keep_uploaded-Keeps file (host.upload_path file.filename)))

  sync_file_to_sandbox-Keeps :
      (file_id : String) → KeepsStep (sync_file_to_sandbox env host file_id)
  unfolding sync_file_to_sandbox
  sync_file_to_sandbox-Keeps file_id =
      catching-Keeps Now (try_to_sandbox env host file_id) (λ e st. (ok none, st))
        (try_to_sandbox-Keeps file_id) (λ e st a. a)

  sync_each_to_sandbox-Keeps : (files : List File) → KeepsStep (sync_each_to_sandbox env host files)
  unfolding sync_each_to_sandbox
  sync_each_to_sandbox-Keeps [] = λ st a. a
  sync_each_to_sandbox-Keeps (attachment ∷ rest) =
      bind-Keeps Now (sync_file_to_sandbox env host attachment.id) _
        (sync_file_to_sandbox-Keeps attachment.id)
        (λ file.
          bind-Keeps Now (add_session_file env host file) _ (add_session_file-Keeps file) (λ _.
            bind-Keeps Now (sync_each_to_sandbox env host rest) _ (sync_each_to_sandbox-Keeps rest)
              (λ files st a. a)))

  try_message_to_sandbox-Keeps : (m : MessageEvent) → KeepsStep (try_message_to_sandbox env host m)
  unfolding try_message_to_sandbox
  try_message_to_sandbox-Keeps m =
      bind-Keeps Now (sync_each_to_sandbox env host m.attachments) _
        (sync_each_to_sandbox-Keeps m.attachments) (λ files st a. a)

  pub message_to_sandbox-Keeps :
      (m : MessageEvent) → KeepsStep (sync_message_attachments_to_sandbox env host m)
  unfolding sync_message_attachments_to_sandbox
  message_to_sandbox-Keeps m = elim (Bool-cases (is_some_file m.attachments)) [
    | inl some_there ↦ rw some_there (
        catching-Keeps Now (try_message_to_sandbox env host m) (λ e st. (ok m, st))
          (try_message_to_sandbox-Keeps m) (λ e st a. a))
    | inr none_there ↦ rw none_there (λ st a. a)
  ]

  drop_old-Keeps : (old : Option File) → KeepsStep (drop_old env host old)
  unfolding drop_old
  drop_old-Keeps none = λ st a. a
  drop_old-Keeps (some old) =
      store-Keeps (Store.remove_file env.session_id old.id)
        (remove_file-SameLog env.session_id env.session_id old.id)

  get_file-Keeps :
      (filepath : String)
      → KeepsStep (in_store host (Store.get_file_by_path env.session_id filepath))
  unfolding boxify_agent.Store.get_file_by_path
  get_file-Keeps filepath =
      store-Keeps (Store.get_file_by_path env.session_id filepath) (λ db row e. (row, e, refl))

  try_to_storage-Keeps : (filepath : String) → KeepsStep (try_to_storage env host filepath)
  unfolding try_to_storage
  try_to_storage-Keeps filepath =
      (bind-Keeps Now (in_store host (Store.get_file_by_path env.session_id filepath)) _
        (get_file-Keeps filepath)
        (λ old.
          bind-Keeps Now (external (λ n. host.download_sandbox n filepath)) _ (λ st a. a)
            (λ _. bind-Keeps Now (drop_old env host old) _ (drop_old-Keeps old) (λ _.
              bind-Keeps Now (external (λ n. host.upload_storage n filepath)) _ (λ st a. a)
                (λ uploaded.
                  bind-Keeps Now
                    (in_store host
                      (Store.add_file env.session_id (record uploaded { filepath = filepath })))
                    _ (add_file-Keeps (record uploaded { filepath = filepath })) (λ _ st a. a))))))

  sync_file_to_storage-Keeps :
      (filepath : String) → KeepsStep (sync_file_to_storage env host filepath)
  unfolding sync_file_to_storage
  sync_file_to_storage-Keeps filepath =
      catching-Keeps Now (try_to_storage env host filepath) (λ e st. (ok none, st))
        (try_to_storage-Keeps filepath) (λ e st a. a)

  sync_each_to_storage-Keeps : (files : List File) → KeepsStep (sync_each_to_storage env host files)
  unfolding sync_each_to_storage
  sync_each_to_storage-Keeps [] = λ st a. a
  sync_each_to_storage-Keeps (attachment ∷ rest) =
      bind-Keeps Now (sync_file_to_storage env host attachment.filepath) _
        (sync_file_to_storage-Keeps attachment.filepath)
        (λ file.
          bind-Keeps Now (sync_each_to_storage env host rest) _ (sync_each_to_storage-Keeps rest)
            (λ files st a. a))

  try_message_to_storage-Keeps : (m : MessageEvent) → KeepsStep (try_message_to_storage env host m)
  unfolding try_message_to_storage
  try_message_to_storage-Keeps m =
      bind-Keeps Now (sync_each_to_storage env host m.attachments) _
        (sync_each_to_storage-Keeps m.attachments) (λ files st a. a)

  pub message_to_storage-Keeps :
      (m : MessageEvent) → KeepsStep (sync_message_attachments_to_storage env host m)
  unfolding sync_message_attachments_to_storage
  message_to_storage-Keeps m = elim (Bool-cases (is_some_file m.attachments)) [
    | inl some_there ↦ rw some_there (
        catching-Keeps Now (try_message_to_storage env host m) (λ e st. (ok m, st))
          (try_message_to_storage-Keeps m) (λ e st a. a))
    | inr none_there ↦ rw none_there (λ st a. a)
  ]

  read_data-Keeps :
      (part : String → Result String) (payload : Option String)
      → KeepsStep (read_data env host part payload)
  unfolding read_data
  read_data-Keeps part none = λ st a. a
  read_data-Keeps part (some found) = λ st a. a

  shell_shown-Keeps : (arg : Option Value) → KeepsStep (shell_shown env host arg)
  unfolding shell_shown
  shell_shown-Keeps none = λ st a. a
  shell_shown-Keeps (some arg) =
      bind-Keeps Now (external (λ n. host.read_shell_output n arg)) _ (λ st a. a)
        (λ result.
          bind-Keeps Now (read_data env host host.console_records result.payload) _
            (read_data-Keeps host.console_records result.payload) (λ console st a. a))

  sync_path-Keeps : (path : Value) → KeepsStep (sync_path env host path)
  unfolding sync_path
  sync_path-Keeps (other json) = λ st a. a
  sync_path-Keeps (text filepath) =
      bind-Keeps Now (sync_file_to_storage env host filepath) _
        (sync_file_to_storage-Keeps filepath) (λ file st a. a)

  file_shown-Keeps : (arg : Option Value) → KeepsStep (file_shown env host arg)
  unfolding file_shown
  file_shown-Keeps none = λ st a. a
  file_shown-Keeps (some path) =
      bind-Keeps Now (external (λ n. host.read_file n path)) _ (λ st a. a)
        (λ result.
          bind-Keeps Now (read_data env host host.file_text result.payload) _
            (read_data-Keeps host.file_text result.payload)
            (λ content.
              bind-Keeps Now (sync_path env host path) _ (sync_path-Keeps path) (λ _ st a. a)))

  screenshot-Keeps : KeepsStep (get_browser_screenshot env host)
  unfolding get_browser_screenshot
  screenshot-Keeps st a =
      bind-Keeps Now (external host.screenshot) _ (λ st' a'. a')
        (λ _.
          bind-Keeps Now (external host.upload_screenshot) (λ file st'. (ok file.id, st'))
            (λ st' a'. a') (λ file st' a'. a'))
        st a

  shown-Keeps : (call : ToolEvent) → KeepsStep (shown env host call)
  unfolding shown
  shown-Keeps call = elim (Bool-cases (call.tool_name == "browser")) [
    | inl hit ↦
        rw hit (bind-Keeps Now (get_browser_screenshot env host) _ screenshot-Keeps (λ i st a. a))
    | inr b ↦ elim (Bool-cases (call.tool_name == "search")) [
      | inl hit ↦ rw (b, hit) (λ st a. a)
      | inr s ↦ elim (Bool-cases (call.tool_name == "shell")) [
        | inl hit ↦
            rw (b, s, hit)
              (bind-Keeps Now (shell_shown env host (lookup_arg "session_id" call.function_args)) _
                (shell_shown-Keeps (lookup_arg "session_id" call.function_args)) (λ i st a. a))
        | inr h ↦ elim (Bool-cases (call.tool_name == "file")) [
          | inl hit ↦
              rw (b, s, h, hit)
                (bind-Keeps Now (file_shown env host (lookup_arg "filepath" call.function_args)) _
                  (file_shown-Keeps (lookup_arg "filepath" call.function_args)) (λ i st a. a))
          | inr o ↦ elim (Bool-cases (call.tool_name == "mcp" || call.tool_name == "a2a")) [
            | inl hit ↦ rw (b, s, h, o) (rw hit (λ st a. a))
            | inr r ↦ rw (b, s, h, o) (rw r (λ st a. a))
          ]
        ]
      ]
    ]
  ]

  try_shown-Keeps : (call : ToolEvent) → KeepsStep (try_shown env host call)
  unfolding try_shown
  try_shown-Keeps call =
      bind-Keeps Now (shown env host call) _ (shown-Keeps call) (λ content st a. a)

  handle_called-Keeps :
      (call : ToolEvent) (status : ToolEventStatus) → KeepsStep (handle_called env host call status)
  unfolding handle_called
  handle_called-Keeps call calling = λ st a. a
  handle_called-Keeps call called =
      catching-Keeps Now (try_shown env host call) (λ e st. (ok call, st)) (try_shown-Keeps call)
        (λ e st a. a)

  pub handle_tool_event-Keeps : (call : ToolEvent) → KeepsStep (handle_tool_event env host call)
  unfolding handle_tool_event
  handle_tool_event-Keeps call = handle_called-Keeps call call.status
