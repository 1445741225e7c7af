-- ===== src/Tasks/Cancel.antt =====
-- redis_stream_task.py: what `cancel` and the end of an execution leave in the registry.
use boxify_agent.Prelude.{
  String, false, not, ◌≡◌, ◌≢◌, refl, none, List, [], ◌∷◌, filterb, ◌==◌, if◌then◌else◌, eq_iff,
  arith, Bool-cases, inl, inr,
}
use boxify_agent.Tasks.{
  Execution, Task, Registry, cancelling, has_key, execution_of, set_execution, is_over, done,
  cleanup_registry, cancel, get,
}

has_key-filterb :
    (id j : String) (ks : List String)
    → has_key j (filterb (λ k. not (k == id)) ks) ≡ (if id == j then false else has_key j ks)
has_key-filterb id j [] = ground arith
has_key-filterb id j (k ∷ ks) =
    ground (arith, eq_iff k id, eq_iff k j, eq_iff id j, has_key-filterb id j ks)

get-cleanup_registry :
    (id j : String) (reg : Registry)
    → get j (cleanup_registry id reg) ≡ (if id == j then none else get j reg)
unfolding get cleanup_registry
get-cleanup_registry id j reg = ground (arith, has_key-filterb id j reg.registered)

-- The execution of a task after another one's was set.
pub execution_of-set_execution :
    (id j : String) (e : Execution) (ts : List Task)
    → id ≢ j
    → execution_of j (set_execution id e ts) ≡ execution_of j ts
unfolding execution_of set_execution
execution_of-set_execution id j e [] other = refl
execution_of-set_execution id j e (t ∷ ts) other = ground (
  arith,
  other,
  eq_iff t.id id,
  eq_iff t.id j,
  eq_iff id j,
  execution_of-set_execution id j e ts other,
)

execution_of-set_self :
    (id : String) (ts : List Task)
    → is_over (execution_of id ts) ≡ false
    → execution_of id (set_execution id cancelling ts) ≡ cancelling
unfolding execution_of set_execution is_over
execution_of-set_self id [] h = cc h
execution_of-set_self id (t ∷ ts) h = elim (Bool-cases (t.id == id)) [
  | inl same ↦ rw (same, same) refl
  | inr other ↦ rw (other, other) (execution_of-set_self id ts (rw other at h))
]

-- After `cancel` the task is not found and every other one is found as before; a task that was under
-- way was asked to stop, one that was over stays as it was, and so do the executions of the others.
pub cancel_lem :
    (id j : String) (reg : Registry)
    → (get j (cancel id reg).1 ≡ (if id == j then none else get j reg))
      × ((execution_of id (cancel id reg).1.tasks
            ≡ (if done id reg then execution_of id reg.tasks else cancelling))
          × (id ≢ j → execution_of j (cancel id reg).1.tasks ≡ execution_of j reg.tasks))
unfolding cancel get
cancel_lem id j reg = elim (Bool-cases (done id reg)) [
  | inl over ↦ rw over (get-cleanup_registry id j reg, (refl, λ other. refl))
  | inr under_way ↦ rw under_way (
    get-cleanup_registry id j (record reg { tasks = set_execution id cancelling reg.tasks }),
    (
      execution_of-set_self id reg.tasks under_way,
      λ other. execution_of-set_execution id j cancelling reg.tasks other,
    ),
  )
]
