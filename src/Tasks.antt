-- ===== src/Tasks.antt =====
-- app/infrastructure/external/task/redis_stream_task.py: the tasks and the registry that the class
-- keeps of them. A method of a task names its object by the task's id; the coroutine of the runner
-- and its scheduling are outside, so that the end of an execution is an operation of its own.
pub mod Destroy
pub mod Cancel
mod Samples
use boxify_agent.Prelude.{
  String, ℕ, Bool, true, false, not, Option, none, some, List, [], ◌∷◌, ◌++◌, filterb, ◌==◌,
  if◌then◌else◌, length, nat_eq,
}
use boxify_agent.Result.{Exec, Result, ok, err, runtime_error}

-- `_execution_task`: none, or an asyncio task that runs, was asked to stop, or is over.
pub data Execution : Type 0 where
  never running cancelling ended : Execution

pub record Task : Type 0 where
  pub id : String
  pub execution : Execution

-- The objects, and the keys of `_task_registry` in the order of their insertion.
pub record Registry : Type 0 where
  pub tasks : List Task
  pub registered : List String

abbrev pub has_key : String → List String → Bool
has_key id [] = false
has_key id (k ∷ ks) = if k == id then true else has_key id ks

unfoldable pub execution_of : String → List Task → Execution
execution_of id [] = never
execution_of id (t ∷ ts) = if t.id == id then t.execution else execution_of id ts

unfoldable pub set_execution : String → Execution → List Task → List Task
set_execution id e [] = []
set_execution id e (t ∷ ts) =
    (if t.id == id then record t { execution = e } else t) ∷ set_execution id e ts

-- The property `done`.
unfoldable pub is_over : Execution → Bool
is_over never = true
is_over ended = true
is_over running = false
is_over cancelling = false

unfoldable pub done : String → Registry → Bool
unfolding is_over execution_of
done id reg = is_over (execution_of id reg.tasks)

-- `__init__`, with the new task's uuid.
unfoldable pub create : String → Registry → Registry
create id reg = record {
  tasks = reg.tasks ++ record { id = id; execution = never } ∷ [];
  registered = if has_key id reg.registered then reg.registered else reg.registered ++ id ∷ [];
}

unfoldable pub cleanup_registry : String → Registry → Registry
cleanup_registry id reg = record reg { registered = filterb (λ k. not (k == id)) reg.registered }

-- The `finally` of `_execute_task`, by which the execution is over.
unfoldable pub on_task_done : String → Registry → Registry
unfolding cleanup_registry set_execution
on_task_done id reg = cleanup_registry id (record reg { tasks = set_execution id ended reg.tasks })

unfoldable pub invoke : String → Registry → Registry
unfolding done set_execution
invoke id reg =
    if done id reg then record reg { tasks = set_execution id running reg.tasks } else reg

unfoldable pub cancel : String → Registry → Bool × Registry
unfolding done set_execution cleanup_registry
cancel id reg =
    if not (done id reg)
    then (true, cleanup_registry id (record reg { tasks = set_execution id cancelling reg.tasks }))
    else (true, cleanup_registry id reg)

-- `get`: the task's id, if it is registered.
unfoldable pub get : String → Registry → Option String
get id reg = if has_key id reg.registered then some id else none

module _ (destroy_runner : String → Result (Unit {0})) where
  -- The `for` over the dict itself: Python's iterator raises where it is asked for the next key, or
  -- for the end, of a dict whose size is no longer the one it started with.
  unfoldable pub destroy_loop : ℕ → List String → Exec Registry (Unit {0})
  unfolding cancel
  destroy_loop size [] reg =
      if nat_eq (length reg.registered) size
      then (ok tt, record reg { registered = [] })
      else (err (runtime_error "dictionary changed size during iteration"), reg)
  destroy_loop size (id ∷ ids) reg =
      let rest = destroy_loop size ids (cancel id reg).1 in
      if nat_eq (length reg.registered) size
      then elim (destroy_runner id) [ ok _ ↦ rest | err e ↦ (err e, (cancel id reg).1) ]
      else (err (runtime_error "dictionary changed size during iteration"), reg)

  unfoldable pub destroy : Exec Registry (Unit {0})
  unfolding destroy_loop
  destroy reg = destroy_loop (length reg.registered) reg.registered reg
