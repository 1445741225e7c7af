-- ===== src/Tasks/Samples.antt =====
-- Tests of redis_stream_task.py on two tasks, and the theorems at them.
use boxify_agent.Prelude.{◌≡◌, ◌≢◌, refl, none, [], ◌∷◌, ◌==◌, if◌then◌else◌, String}
use boxify_agent.Result.{ok, err, runtime_error}
use boxify_agent.Tasks.{
  Registry, running, cancelling, execution_of, done, create, invoke, cancel, get, destroy,
}
use boxify_agent.Tasks.Cancel.{cancel_lem}
use boxify_agent.Tasks.Destroy.{destroy_lem}

abbrev two_tasks : Registry
two_tasks = record {
  tasks = record { id = "a"; execution = running } ∷ record { id = "b"; execution = running } ∷ [];
  registered = "a" ∷ "b" ∷ [];
}

two_tasks_made :
    invoke "b" (invoke "a" (create "b" (create "a" (record { tasks = []; registered = [] }))))
    ≡ two_tasks
unfolding invoke create
two_tasks_made = refl

cancel_lem_example :
    (get "b" (cancel "a" two_tasks).1 ≡ (if "a" == "b" then none else get "b" two_tasks))
    × ((execution_of "a" (cancel "a" two_tasks).1.tasks
          ≡ (if done "a" two_tasks then execution_of "a" two_tasks.tasks else cancelling))
        × (◌≢◌ {A = String} "a" "b"
            → execution_of "b" (cancel "a" two_tasks).1.tasks ≡ execution_of "b" two_tasks.tasks))
cancel_lem_example = cancel_lem "a" "b" two_tasks

destroy_lem_example :
    (destroy (λ id. ok tt) two_tasks
      ≡ (err (runtime_error "dictionary changed size during iteration"), (cancel "a" two_tasks).1))
    × ((j : String)
        → "a" ≢ j
        → execution_of j (destroy (λ id. ok tt) two_tasks).1.tasks ≡ execution_of j two_tasks.tasks)
destroy_lem_example = destroy_lem (λ id. ok tt) "a" ("b" ∷ []) two_tasks refl refl
