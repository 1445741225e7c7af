-- ===== src/Queue/System.antt =====
-- redis_stream_message_queue.py: producers and any number of callers of `pop` on one queue, a command at a
-- time in any order, while the server may let the lock expire.
use boxify_agent.Prelude.{
  String, ℕ, Option, none, some, List, [], ◌∷◌, ◌++◌, ◌≡◌, ◌≢◌, nat_eq, if◌then◌else◌,
}
use boxify_agent.Queue.{
  Entry, Redis, Net, answered, lost_before, lost_after, Phase, acquiring, locked, found, leaving,
  returned, raised, advance, put,
}

-- The value of the lock that a call asks for, and the one that it holds.
abbrev pub value_of : Phase → Option String
value_of (acquiring value n) = some value
value_of (locked value) = some value
value_of (found value e) = some value
value_of (leaving value result) = some value
value_of (returned result) = none
value_of raised = none

abbrev pub key_of : Phase → Option String
key_of (acquiring value n) = none
key_of (locked value) = some value
key_of (found value e) = some value
key_of (leaving value result) = some value
key_of (returned result) = none
key_of raised = none

-- The entry that a step takes off the stream.
abbrev pub removed_by : Net → Phase → List Entry
removed_by net (acquiring value n) = []
removed_by net (locked value) = []
removed_by answered (found value e) = e ∷ []
removed_by lost_before (found value e) = []
removed_by lost_after (found value e) = e ∷ []
removed_by net (leaving value result) = []
removed_by net (returned result) = []
removed_by net raised = []

pub data Act : Type 0 where
  produce : String → Act
  -- a caller, which is in no call, calls `pop` with a new uuid
  begin : (caller : ℕ) (value : String) (rounds : ℕ) → Act
  step : (caller : ℕ) → Net → Act
  expire : Act

module _ (r : Redis) where
  -- The server and the callers, with what was put and what was taken off so far.
  pub record System : Type 0 where
    pub server : r.Server
    pub callers : ℕ → Phase
    pub added : List Entry
    pub gone : List Entry

  abbrev pub set_caller : ℕ → Phase → (ℕ → Phase) → ℕ → Phase
  set_caller i p callers j = if nat_eq j i then p else callers j

  abbrev pub stepped : ℕ → List Entry → Phase × r.Server → System → System
  stepped i removed (p, server) s = record s {
    server = server;
    callers = set_caller i p s.callers;
    gone = s.gone ++ removed;
  }

  unfoldable pub act : Act → System → System
  unfolding put advance
  act (produce message) s = record s {
    server = (put r message s.server).1;
    added = s.added ++ (record { id = (put r message s.server).0; content = message }) ∷ [];
  }
  act (begin i value rounds) s = record s {
    callers = set_caller i (acquiring value rounds) s.callers;
  }
  act (step i net) s =
      stepped i (removed_by net (s.callers i)) (advance r net (s.callers i) s.server) s
  act expire s = record s { server = r.del s.server }

  -- A uuid is new, and the ten seconds of a lock do not end before its holder is done.
  abbrev pub Allowed : Act → System → Type 0
  Allowed (produce message) s = Unit {0}
  Allowed (begin i value rounds) s =
      (value_of (s.callers i) ≡ none) × ((j : ℕ) → value_of (s.callers j) ≢ some value)
  Allowed (step i net) s = Unit {0}
  Allowed expire s = (j : ℕ) → key_of (s.callers j) ≡ none

  unfoldable pub run : List Act → System → System
  unfolding act
  run [] s = s
  run (a ∷ acts) s = run acts (act a s)

  abbrev pub AllAllowed : List Act → System → Type 0
  AllAllowed [] s = Unit {0}
  AllAllowed (a ∷ acts) s = Allowed a s × AllAllowed acts (act a s)
