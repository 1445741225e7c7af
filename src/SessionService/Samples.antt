-- ===== src/SessionService/Samples.antt =====
-- Tests of app/application/services/session_service.py, and its theorems at concrete inputs.
use boxify_agent.Prelude.{String, ◌≢◌, eq_iff, find, false, ◌≡◌, refl, none, some, [], ◌∷◌}
use boxify_agent.Result.{err, not_found}
use boxify_agent.Session.{Session, SessionType}
use boxify_agent.Store.{Database, row_of, is_users_project}
use boxify_agent.Store.Tables.{Distinct, ids}
use boxify_agent.SessionService.Isolated.{handle-isolated}
use boxify_agent.SessionService.{blank_session, unset, move_to}
use boxify_agent.SessionService.Requests.{handle, updates_session, deletes_project}

abbrev one_session : Database
one_session = record {
  sessions = blank_session "s" "u" SessionType.chat none false ∷ [];
  projects = [];
}

-- The project that the update names is not there, so its title does not change either.
refused :
    handle "u" (updates_session "s" (some "title") (move_to (some "p")) none) one_session
    ≡ (err (not_found "project"), one_session)
unfolding handle boxify_agent.SessionService.update_session boxify_agent.Store.get_by_id_for_user
    boxify_agent.Store.get_project_for_user blank_session
refused = refl

-- A session of the user "v" beside the user "u", who has a project.
abbrev of_v : Session
of_v = blank_session "t" "v" SessionType.chat none false

abbrev two_users : Database
two_users = record {
  sessions = blank_session "s" "u" SessionType.chat (some "p") false ∷ of_v ∷ [];
  projects = record { id = "p"; user_id = "u"; name = []; sort_order = 0; is_pinned = false } ∷ [];
}

two_users-Distinct : Distinct (ids two_users.sessions)
unfolding blank_session
two_users-Distinct = (((λ e. cc ((eq_iff "s" "t").1 e)), tt), (tt, tt))

there : row_of "t" two_users.sessions ≡ some of_v
unfolding blank_session
there = refl

another_user : of_v.user_id ≢ "u"
unfolding blank_session
another_user e = cc ((eq_iff "v" "u").1 e)

no_project :
    (q : String)
    → of_v.project_id ≡ some q
    → find (is_users_project q "u") two_users.projects ≡ none
unfolding blank_session
no_project q h = cc h

handle-isolated_example :
    row_of "t" (handle "u" (deletes_project "p") two_users).1.sessions ≡ some of_v
handle-isolated_example =
    handle-isolated "u" "t" of_v (deletes_project "p") two_users refl two_users-Distinct there
      another_user no_project tt
