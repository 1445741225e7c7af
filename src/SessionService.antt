-- ===== src/SessionService.antt =====
-- app/application/services/session_service.py: the operations of one user on sessions and projects.
-- The service's user id is the section's parameter; an empty one stands for no user. Every `async
-- with` block is a transaction.
pub mod Requests
pub mod Isolated
mod Samples
use boxify_agent.Prelude.{
  pos, String, ℕ, Bool, true, false, not, ◌&&◌, Option, none, some, List, [], ◌∷◌, filterb, ◌==◌,
  if◌then◌else◌, is_empty,
}
use boxify_agent.Prelude.Text.{Text, strip}
use boxify_agent.Result.{
  Error, Exec, Result, ok, err, not_found, bad_request, server_error, transaction, lift, pure,
  raise, ◌>>=◌, ◌>>◌, when,
}
use boxify_agent.Event.{File, ToolResult}
use boxify_agent.Session.{Session, SessionProject, SessionType, SessionStatus, task, chat}
use boxify_agent.Store
use boxify_agent.Store.{Database}

-- The sandbox, which runs outside the repository: whether one is there, and what its calls answer.
pub record Sandbox : Type 0 where
  pub exists : String → Result Bool
  pub read_file : (sandbox_id filepath : String) → Result ToolResult
  pub read_shell_output : (sandbox_id shell_session_id : String) → Result ToolResult
  pub vnc_url : String → String

abbrev pub or_not_found : {A : Type 0} → String → Option A → Exec Database A
or_not_found what none = raise (not_found what)
or_not_found what (some a) = pure a

-- `SessionType(text)`
unfoldable pub normalize_session_type : String → Result SessionType
normalize_session_type name =
    if name == "task"
    then ok task
    else if name == "chat"
    then ok chat
    else err (bad_request "session type")

unfoldable pub is_chat : Session → Bool
is_chat session = elim session.type [ chat ↦ true | _ ↦ false ]

-- `if project_id` for an optional id.
abbrev pub given_project : Option String → Option String
given_project none = none
given_project (some id) = if is_empty id then none else some id

-- What an update makes of the project: no value, or `None`, or an id.
pub data ProjectChange : Type 0 where
  unset : ProjectChange
  move_to : Option String → ProjectChange

abbrev pub is_blank_text : Text → Bool
is_blank_text [] = true
is_blank_text (c ∷ cs) = false

-- `name.strip()` and the test that something is left.
unfoldable pub project_name : Text → Exec Database Text
project_name name =
    if is_blank_text (strip name) then raise (bad_request "project name") else pure (strip name)

-- The session that `create_session` makes.
unfoldable pub blank_session : (id user_id : String) → SessionType → Option String → Bool → Session
blank_session id user_id type project_id is_pinned = record {
  id = id;
  user_id = user_id;
  project_id = project_id;
  type = type;
  is_pinned = is_pinned;
  sandbox_id = none;
  task_id = none;
  title = "新对话";
  unread_message_count = pos 0;
  latest_message = "";
  latest_message_at = none;
  events = [];
  files = [];
  memories = [];
  status = SessionStatus.pending;
}

abbrev pub made_project : (id user_id : String) → Text → ℕ → Bool → SessionProject
made_project id user_id name sort_order is_pinned = record {
  id = id;
  user_id = user_id;
  name = name;
  sort_order = sort_order;
  is_pinned = is_pinned;
}

abbrev pub keep_project : SessionProject → Exec Database SessionProject
keep_project project = do Store.save_project project; pure project

-- The fields that `update_project` may set; `none` leaves a field.
abbrev pub set_or {ℓ} : {A : Type ℓ} → Option A → A → A
set_or none old = old
set_or (some new) old = new

abbrev pub new_project_name : Option Text → Text → Exec Database Text
new_project_name none old = pure old
new_project_name (some name) old = project_name name

abbrev moved : ProjectChange → Option String → Option String
moved unset old = old
moved (move_to new) old = new

-- The session with the fields that `update_session` sets.
abbrev pub changed : Session → Option String → ProjectChange → Option Bool → Session
changed session title project is_pinned = record session {
  title = set_or title session.title;
  project_id = moved project session.project_id;
  is_pinned = set_or is_pinned session.is_pinned;
}

abbrev answer : Result ToolResult → Exec Database String
answer (err e) = raise e
answer (ok result) = elim result.payload [
  | none ↦ raise (server_error (set_or result.message ""))
  | some payload ↦
      if result.success && not (is_empty payload)
      then pure payload
      else raise (server_error (set_or result.message ""))
]

module _ (user_id : String) where
  unfoldable pub ensure_project_exists : String → Exec Database (Unit {0})
  ensure_project_exists project_id = do
    project ← Store.get_project_for_user project_id user_id
    found ← or_not_found "project" project
    pure tt

  unfoldable pub get_session_for_user : String → Exec Database Session
  get_session_for_user id = do
    session ← if is_empty user_id then Store.get_by_id id else Store.get_by_id_for_user id user_id
    or_not_found "session" session

  -- `if project_id: await self._ensure_project_exists(uow, project_id)`
  unfoldable pub check_project : Option String → Exec Database (Unit {0})
  unfolding ensure_project_exists
  check_project none = pure tt
  check_project (some project_id) = ensure_project_exists project_id

  -- `id` is the new session's uuid.
  unfoldable pub create_session :
      (id type_name : String) → Option String → Bool → Exec Database Session
  unfolding normalize_session_type check_project blank_session
  create_session id type_name project_id is_pinned = do
    type ← lift (normalize_session_type type_name)
    transaction (do
      check_project (given_project project_id)
      Store.save (blank_session id user_id type project_id is_pinned)
      pure (blank_session id user_id type project_id is_pinned))

  unfoldable pub get_all_sessions : Exec Database (List Session)
  get_all_sessions = if is_empty user_id then Store.get_all else Store.get_all_by_user user_id

  -- `id` is the new project's uuid.
  unfoldable pub create_project : (id : String) → Text → ℕ → Bool → Exec Database SessionProject
  unfolding project_name
  create_project id name sort_order is_pinned = do
    stripped ← project_name name
    let project = made_project id user_id stripped sort_order is_pinned
    transaction (keep_project project)

  unfoldable pub update_project :
      String → Option Text → Option ℕ → Option Bool → Exec Database SessionProject
  unfolding project_name
  update_project project_id name sort_order is_pinned = transaction (do
    found ← Store.get_project_for_user project_id user_id
    project ← or_not_found "project" found
    name' ← new_project_name name project.name
    keep_project (record project {
      name = name';
      sort_order = set_or sort_order project.sort_order;
      is_pinned = set_or is_pinned project.is_pinned;
    }))

  unfoldable pub delete_project : String → Exec Database (Unit {0})
  delete_project project_id = transaction (do
    found ← Store.get_project_for_user project_id user_id
    project ← or_not_found "project" found
    Store.delete_by_project project_id user_id
    Store.delete_project_for_user project_id user_id)

  unfoldable pub get_sidebar_projects : Exec Database (List SessionProject)
  get_sidebar_projects = Store.list_projects_by_user user_id

  unfoldable pub get_sidebar_sessions : Exec Database (List Session)
  unfolding is_chat
  get_sidebar_sessions = do
    sessions ← Store.get_all_by_user user_id
    pure (filterb is_chat sessions)

  -- The project that a change names is checked before the session takes it.
  unfoldable pub check_change : ProjectChange → Exec Database (Unit {0})
  unfolding check_project
  check_change unset = pure tt
  check_change (move_to project_id) = check_project (given_project project_id)

  unfoldable pub update_session :
      String → Option String → ProjectChange → Option Bool → Exec Database Session
  unfolding get_session_for_user check_change
  update_session id title project is_pinned = transaction (do
    session ← get_session_for_user id
    check_change project
    Store.save (changed session title project is_pinned)
    pure (changed session title project is_pinned))

  unfoldable pub clear_unread_message_count : String → Exec Database (Unit {0})
  unfolding get_session_for_user
  clear_unread_message_count id =
      transaction
        (do session ← get_session_for_user id; Store.update_unread_message_count id (pos 0))

  unfoldable pub delete_session : String → Exec Database (Unit {0})
  unfolding get_session_for_user
  delete_session id =
      transaction (do session ← get_session_for_user id; Store.delete_by_id_for_user id user_id)

  unfoldable pub get_session : String → Exec Database (Option Session)
  get_session id =
      if is_empty user_id then Store.get_by_id id else Store.get_by_id_for_user id user_id

  unfoldable pub get_session_files : String → Exec Database (List File)
  unfolding get_session_for_user
  get_session_files id = do session ← get_session_for_user id; pure session.files

  module _ (sandbox : Sandbox) where
    -- The session's sandbox id, if the session has a sandbox that is still there.
    unfoldable pub sandbox_of : String → Exec Database String
    unfolding get_session_for_user
    sandbox_of id = do
      session ← get_session_for_user id
      sandbox_id ← or_not_found "sandbox" (given_project session.sandbox_id)
      there ← lift (sandbox.exists sandbox_id)
      if there then pure sandbox_id else raise (not_found "sandbox")

    unfoldable pub read_file : (id filepath : String) → Exec Database String
    unfolding sandbox_of
    read_file id filepath = do
      sandbox_id ← sandbox_of id
      answer (sandbox.read_file sandbox_id filepath)

    unfoldable pub read_shell_output : (id shell_session_id : String) → Exec Database String
    unfolding sandbox_of
    read_shell_output id shell_session_id = do
      sandbox_id ← sandbox_of id
      answer (sandbox.read_shell_output sandbox_id shell_session_id)

    unfoldable pub get_vnc_url : String → Exec Database String
    unfolding sandbox_of
    get_vnc_url id = do sandbox_id ← sandbox_of id; pure (sandbox.vnc_url sandbox_id)
