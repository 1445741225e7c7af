-- ===== src/Runner/Files.antt =====
-- app/domain/agent_task_runner.py: the files that go between the storage, the sandbox and the session.
use boxify_agent.Prelude.{
  String, Bool, true, false, Option, none, some, List, [], ◌∷◌, if◌then◌else◌,
}
use boxify_agent.Result.{Exec, pure, ◌>>=◌, ◌>>◌}
use boxify_agent.Event.{File, MessageEvent}
use boxify_agent.Store
use boxify_agent.Agent.{Services}
use boxify_agent.Runner.{Host, RunState, external, in_store, save_file}
use boxify_agent.Result.{catching}

abbrev pub is_some_file : List File → Bool
is_some_file [] = false
is_some_file (f ∷ fs) = true

-- `attachments.append(file)`, for what the rest of the loop appends.
abbrev keep_synced : Option File → List File → List File
keep_synced none rest = rest
keep_synced (some file) rest = file ∷ rest

module _ (env : Services) (host : Host) where
  unfoldable pub add_session_file : Option File → Exec RunState (Unit {0})
  add_session_file none = pure tt
  add_session_file (some file) = in_store host (Store.add_file env.session_id file)

  unfoldable pub keep_uploaded : File → String → Bool → Exec RunState (Option File)
  unfolding save_file
  keep_uploaded file filepath false = pure none
  keep_uploaded file filepath true = do
    save_file (record file { filepath = filepath })
    pure (some (record file { filepath = filepath }))

  -- The body of the `try`.
  unfoldable pub try_to_sandbox : String → Exec RunState (Option File)
  unfolding keep_uploaded
  try_to_sandbox file_id = do
    file ← external (λ n. host.download_stored n file_id)
    success ← external (λ n. host.upload_sandbox n file (host.upload_path file.filename))
    keep_uploaded file (host.upload_path file.filename) success

  unfoldable pub sync_file_to_sandbox : String → Exec RunState (Option File)
  unfolding try_to_sandbox
  sync_file_to_sandbox file_id = catching (try_to_sandbox file_id) (λ e. pure none)

  unfoldable pub sync_each_to_sandbox : List File → Exec RunState (List File)
  unfolding sync_file_to_sandbox add_session_file
  sync_each_to_sandbox [] = pure []
  sync_each_to_sandbox (attachment ∷ rest) = do
    file ← sync_file_to_sandbox attachment.id
    add_session_file file
    files ← sync_each_to_sandbox rest
    pure (keep_synced file files)

  unfoldable pub try_message_to_sandbox : MessageEvent → Exec RunState MessageEvent
  unfolding sync_each_to_sandbox
  try_message_to_sandbox m = do
    files ← sync_each_to_sandbox m.attachments
    pure (record m { attachments = files })

  -- The event with its attachments replaced, unless there are none or the loop raises.
  unfoldable pub sync_message_attachments_to_sandbox : MessageEvent → Exec RunState MessageEvent
  unfolding try_message_to_sandbox
  sync_message_attachments_to_sandbox m =
      if is_some_file m.attachments
      then catching (try_message_to_sandbox m) (λ e. pure m)
      else pure m

  -- The session's file at a path gives way to the new one.
  unfoldable pub drop_old : Option File → Exec RunState (Unit {0})
  drop_old none = pure tt
  drop_old (some old) = in_store host (Store.remove_file env.session_id old.id)

  -- The body of the `try`.
  unfoldable pub try_to_storage : String → Exec RunState (Option File)
  unfolding drop_old
  try_to_storage filepath = do
    old ← in_store host (Store.get_file_by_path env.session_id filepath)
    external (λ n. host.download_sandbox n filepath)
    drop_old old
    uploaded ← external (λ n. host.upload_storage n filepath)
    in_store host (Store.add_file env.session_id (record uploaded { filepath = filepath }))
    pure (some (record uploaded { filepath = filepath }))

  unfoldable pub sync_file_to_storage : String → Exec RunState (Option File)
  unfolding try_to_storage
  sync_file_to_storage filepath = catching (try_to_storage filepath) (λ e. pure none)

  unfoldable pub sync_each_to_storage : List File → Exec RunState (List File)
  unfolding sync_file_to_storage
  sync_each_to_storage [] = pure []
  sync_each_to_storage (attachment ∷ rest) = do
    file ← sync_file_to_storage attachment.filepath
    files ← sync_each_to_storage rest
    pure (keep_synced file files)

  unfoldable pub try_message_to_storage : MessageEvent → Exec RunState MessageEvent
  unfolding sync_each_to_storage
  try_message_to_storage m = do
    files ← sync_each_to_storage m.attachments
    pure (record m { attachments = files })

  unfoldable pub sync_message_attachments_to_storage : MessageEvent → Exec RunState MessageEvent
  unfolding try_message_to_storage
  sync_message_attachments_to_storage m =
      if is_some_file m.attachments
      then catching (try_message_to_storage m) (λ e. pure m)
      else pure m
