-- ===== src/SessionService/Requests.antt =====
-- app/application/services/session_service.py: the writing requests as data.
use boxify_agent.Prelude.{String, ℕ, Bool, Option}
use boxify_agent.Prelude.Text.{Text}
use boxify_agent.Result.{Result, Exec, ok, err}
use boxify_agent.Store.{Database}
use boxify_agent.SessionService.{
  ProjectChange, create_session, create_project, update_project, delete_project, update_session,
  clear_unread_message_count, delete_session,
}

-- The requests that write the database, with the ids that the service draws.
pub data Request : Type 0 where
  creates_session : (id type_name : String) → Option String → Bool → Request
  creates_project : (id : String) → Text → ℕ → Bool → Request
  updates_project : String → Option Text → Option ℕ → Option Bool → Request
  deletes_project : String → Request
  updates_session : String → Option String → ProjectChange → Option Bool → Request
  clears_unread : String → Request
  deletes_session : String → Request

abbrev pub forget : {A : Type 0} → Result A × Database → Result (Unit {0}) × Database
forget (ok a, db) = (ok tt, db)
forget (err e, db) = (err e, db)

-- What a request of the user answers, without the value it returns.
unfoldable pub handle : String → Request → Exec Database (Unit {0})
handle user (creates_session id type_name project_id is_pinned) db =
    forget (create_session user id type_name project_id is_pinned db)
handle user (creates_project id name sort_order is_pinned) db =
    forget (create_project user id name sort_order is_pinned db)
handle user (updates_project id name sort_order is_pinned) db =
    forget (update_project user id name sort_order is_pinned db)
handle user (deletes_project id) db = delete_project user id db
handle user (updates_session id title project is_pinned) db =
    forget (update_session user id title project is_pinned db)
handle user (clears_unread id) db = clear_unread_message_count user id db
handle user (deletes_session id) db = delete_session user id db
