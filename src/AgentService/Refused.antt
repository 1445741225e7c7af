-- ===== src/AgentService/Refused.antt =====
-- app/application/services/agent_service.py: a chat that its checks on the session turn away.
use boxify_agent.Prelude.{
  String, ℕ, ◌+◌, Bool, true, false, not, ◌&&◌, ◌≡◌, ◌≢◌, refl, Option, none, some, List, [], ◌∷◌,
  ◌++◌, ◌==◌, is_empty, eq_iff, Bool-cases, ◌⊎◌, inl, inr, if◌then◌else◌, arith,
}
use boxify_agent.Result.{err, runtime_error, transaction}
use boxify_agent.Event.{event, error_event}
use boxify_agent.Session.{Session, SessionType}
use boxify_agent.Store
use boxify_agent.Store.{Database, row_of}
use boxify_agent.AgentService.{Outside, ChatState, paused, opened, converse, report, chat}

-- A session of another user, or one that is no task session.
abbrev pub TurnedAway : String → Session → Type 0
TurnedAway user_id session =
    ((is_empty user_id ≡ false) × (session.user_id ≢ user_id)) ⊎ (session.type ≡ SessionType.chat)

-- A chat that answers with one error event, for what it found in the tables.
pub record Refusal (outside : Outside) (id : String) (db : Database) (before after : ChatState)
    : Type 0 where
  pub words : String
  pub one_event : after.yielded ≡ before.yielded ++ event (error_event words) ∷ []
  pub no_input : after.inputs ≡ before.inputs
  pub no_task :
      after.tasks
      ≡ outside.others_run (before.awaits + 1) (outside.others_run before.awaits before.tasks)
  pub recorded : after.db ≡ (transaction (Store.add_event id (event (error_event words))) db).1

module _ (user_id : String) (remembers : Bool) (outside : Outside) (id : String) where
  opened-refused :
      (found : Option Session) (st : ChatState)
      → ((session : Session) → found ≡ some session → TurnedAway user_id session)
      → (words : String) × (opened user_id remembers outside found st
          ≡ (err (runtime_error words), st))
  opened-refused none st away = ("no session", refl)
  opened-refused (some session) st away =
      elim (Bool-cases (not (is_empty user_id) && not (session.user_id == user_id))) [
        | inl foreign ↦ ("no session", rw foreign refl)
        | inr own ↦ elim (away session refl) [
          | inl (given, other) ↦
              absurd (ground (arith, own, given, other, eq_iff session.user_id user_id))
          | inr talk ↦ ("not a task session", rw (own, talk) refl)
        ]
      ]

  closes :
      {db : Database} {before : ChatState} (closed : Bool) (s : ChatState)
      → Refusal outside id db before s
      → Refusal outside id db before
          (if closed then s else record s { scheduled = s.scheduled ++ id ∷ [] })
  closes true s r = r
  closes false s r = record {
    words = r.words;
    one_event = r.one_event;
    no_input = r.no_input;
    no_task = r.no_task;
    recorded = r.recorded;
  }

  -- A chat on a session that is missing, of another user, or no task session starts no task and sends
  -- nothing to one: it yields one error event, and writes this event to the session, if there is one.
  pub chat-Refusal :
      (fuel : ℕ) (message : Option String) (attachments : Option (List String))
      (latest_event_id : Option String) (timestamp : Option ℕ) (st : ChatState)
      → ((session : Session)
          → row_of id (outside.others_write st.awaits st.db).sessions ≡ some session
          → TurnedAway user_id session)
      → Refusal outside id
          (outside.others_write (st.awaits + 1) (outside.others_write st.awaits st.db))
          st
          (chat user_id remembers outside id fuel message attachments latest_event_id timestamp
            st).1
  unfolding chat converse report Store.get_by_id
  chat-Refusal n message attachments latest timestamp st away =
      let st' = paused user_id remembers outside st in
      let (words, refused) = opened-refused (row_of id st'.db.sessions) st' away in
      let shown = outside.show_error (runtime_error words) in
      rw refused (
        closes _ _ (record {
          words = shown;
          one_event = refl;
          no_input = refl;
          no_task = refl;
          recorded = refl;
        }))
