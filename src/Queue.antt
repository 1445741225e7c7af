-- ===== src/Queue.antt =====
-- app/infrastructure/external/message_queue/redis_stream_message_queue.py: a queue on a Redis stream, whose
-- `pop` runs under a lock in Redis. The server is a parameter with the documented laws of its commands,
-- which are atomic; between two commands other callers may run, so that `pop` is given as its phases.
pub mod System
pub mod Invariant
pub mod Steps
pub mod Fifo
pub mod Pop
mod Samples
use boxify_agent.Prelude.{
  String, ℕ, zero, suc, Bool, true, false, Option, none, some, List, [], ◌∷◌, ◌++◌, ◌≡◌, ◌==◌,
  length, nat_eq, if◌then◌else◌,
}
use boxify_agent.Result.{Error, Exec, Result, ok, err}

-- An entry of the stream, with the one field "data" that `put` writes.
pub record Entry : Type 0 where
  pub id : String
  pub content : String

pub record Redis : Type 1 where
  pub Server : Type 0
  -- `XRANGE - +` of the stream, and `GET` of the lock's key
  pub entries : Server → List Entry
  pub lock : Server → Option String
  -- `SET key value NX EX`
  pub set_nx : String → Server → Bool × Server
  pub del : Server → Server
  pub xadd : String → Server → String × Server
  pub xdel : String → Server → Server
  pub xtrim : Server → Server
  -- the first entry after an id, where `XREAD` answers with one
  pub xread : String → Server → Option Entry
  pub set_nx_free :
      (v : String) (s : Server)
      → lock s ≡ none
      → ((set_nx v s).0 ≡ true) × (lock (set_nx v s).1 ≡ some v)
  pub set_nx_held :
      (v w : String) (s : Server)
      → lock s ≡ some w
      → ((set_nx v s).0 ≡ false) × (lock (set_nx v s).1 ≡ some w)
  pub entries-set_nx : (v : String) (s : Server) → entries (set_nx v s).1 ≡ entries s
  pub lock-del : (s : Server) → lock (del s) ≡ none
  pub entries-del : (s : Server) → entries (del s) ≡ entries s
  pub lock-xadd : (d : String) (s : Server) → lock (xadd d s).1 ≡ lock s
  pub entries-xadd :
      (d : String) (s : Server)
      → entries (xadd d s).1 ≡ entries s ++ (record { id = (xadd d s).0; content = d }) ∷ []
  pub lock-xdel : (i : String) (s : Server) → lock (xdel i s) ≡ lock s
  -- the ids of a stream are distinct
  pub entries-xdel :
      (e : Entry) (rest : List Entry) (s : Server)
      → entries s ≡ e ∷ rest
      → entries (xdel e.id s) ≡ rest

-- What becomes of a command: it is answered, or it raises, before or after the server has run it.
pub data Net : Type 0 where
  answered lost_before lost_after : Net

-- Where a call of `pop` stands, with the value of its lock. `acquiring` counts the rounds that are left.
pub data Phase : Type 0 where
  acquiring : String → ℕ → Phase
  locked : String → Phase
  found : String → Entry → Phase
  leaving : String → Option Entry → Phase
  returned : Option Entry → Phase
  raised : Phase

module _ (r : Redis) where
  open r use {Server, entries, lock, set_nx, del, xadd, xdel, xtrim, xread}

  -- A command that returns nothing that is looked at, and its effect.
  abbrev effect : Net → (Server → Server) → Server → Server
  effect answered run s = run s
  effect lost_before run s = s
  effect lost_after run s = run s

  -- The script of `_release_lock`.
  abbrev pub is_value : String → Option String → Bool
  is_value value none = false
  is_value value (some v) = v == value

  unfoldable pub release_script : String → Server → Server
  release_script value s = if is_value value (lock s) then del s else s

  -- One round of the loop of `_acquire_lock`.
  abbrev try_lock : String → ℕ → Bool × Server → Phase × Server
  try_lock value left (true, s) = (locked value, s)
  try_lock value left (false, s) = (acquiring value left, s)

  abbrev first_of : String → List Entry → Phase
  first_of value [] = leaving value none
  first_of value (e ∷ rest) = found value e

  -- One command of `pop`, from one phase to the next.
  unfoldable pub advance : Net → Phase → Server → Phase × Server
  unfolding release_script
  advance net (acquiring value zero) s = (returned none, s)
  advance answered (acquiring value (suc n)) s = try_lock value n (set_nx value s)
  advance lost_before (acquiring value (suc n)) s = (raised, s)
  advance lost_after (acquiring value (suc n)) s = (raised, (set_nx value s).1)
  advance answered (locked value) s = (first_of value (entries s), s)
  advance lost_before (locked value) s = (leaving value none, s)
  advance lost_after (locked value) s = (leaving value none, s)
  advance answered (found value e) s = (leaving value (some e), xdel e.id s)
  advance lost_before (found value e) s = (leaving value none, s)
  advance lost_after (found value e) s = (leaving value none, xdel e.id s)
  advance net (leaving value result) s = (returned result, effect net (release_script value) s)
  advance net (returned result) s = (returned result, s)
  advance net raised s = (raised, s)

  -- `pop` by itself: the answers of the net in order, with a round for each command.
  unfoldable pub run_pop : (ℕ → Net) → ℕ → Phase → Server → Phase × Server
  unfolding advance
  run_pop net zero p s = (p, s)
  run_pop net (suc n) p s = let (p', s') = advance (net n) p s in run_pop net n p' s'

  -- The other operations are one command each.
  unfoldable pub put : String → Server → String × Server
  put message s = xadd message s

  abbrev start_of : Option String → String
  start_of none = "0"
  start_of (some id) = id

  unfoldable pub get : Option String → Server → Option Entry
  get start_id s = xread (start_of start_id) s

  unfoldable pub clear : Server → Server
  clear s = xtrim s

  unfoldable pub size : Server → ℕ
  size s = length (entries s)

  unfoldable pub is_empty : Server → Bool
  unfolding size
  is_empty s = nat_eq (size s) 0

  unfoldable pub delete_message : String → Net → Server → Bool × Server
  delete_message message_id answered s = (true, xdel message_id s)
  delete_message message_id lost_before s = (false, s)
  delete_message message_id lost_after s = (false, xdel message_id s)
