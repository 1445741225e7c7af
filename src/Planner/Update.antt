-- ===== src/Planner/Update.antt =====
-- app/domain/services/agents/planner.py: what `update_plan` keeps of a plan.
use boxify_agent.Store.{Database}
use boxify_agent.Prelude.{
  ◌≡◌, refl, ap, ◌∙◌, true, ◌⊎◌, All, List, [], ◌∷◌, ◌++◌, Bool-cases, inl, inr, arith,
}
use mathlib.Core.List.{append_assoc}
use boxify_agent.Result.{Result, ok, err}
use boxify_agent.Plan.{Plan, Step, ExecutionStatus, step_done, is_done}
use boxify_agent.Event.{
  Event, EventBody, plan_event, title_event, step_event, message_event, tool_event, error_event,
  wait_event, done_event,
}
use boxify_agent.Gen.{Gen, finished, raised, yielded, unfinished, Always}
use boxify_agent.Agent.{Services, World, planner}
use boxify_agent.Agent.Loop.{invoke}
use boxify_agent.Planner.{
  done_prefix, all_done, updated_steps, updated_plan, take_update, on_update, update_answers,
  update_plan,
}

-- A step that was carried out, with success or not.
abbrev pub IsFinished : Step → Type 0
IsFinished step = (step.status ≡ ExecutionStatus.completed) ⊎ (step.status ≡ ExecutionStatus.failed)

-- The plan is the old one but for its steps, and whichever finished steps the old plan began with, it
-- still begins with them.
pub record Keeps (old new : Plan) : Type 0 where
  pub begins :
      (before after : List Step)
      → old.steps ≡ before ++ after
      → All IsFinished before
      → (rest : List Step) × (new.steps ≡ before ++ rest)
  pub others : new ≡ record old { steps = new.steps }

all_done-IsFinished : (steps : List Step) → All IsFinished steps → all_done steps ≡ true
unfolding all_done step_done is_done
all_done-IsFinished [] h = refl
all_done-IsFinished (s ∷ ss) h =
    rw (all_done-IsFinished ss h.1)
      (elim h.0 [ inl completed ↦ rw completed refl | inr failed ↦ rw failed refl ])

all_done-append :
    (done rest : List Step) → all_done done ≡ true → all_done (done ++ rest) ≡ all_done rest
unfolding all_done
all_done-append [] rest h = refl
all_done-append (s ∷ ss) rest h = ground (arith, all_done-append ss rest)

done_prefix-append :
    (done rest : List Step)
    → all_done done ≡ true
    → done_prefix (done ++ rest) ≡ done ++ done_prefix rest
unfolding all_done done_prefix
done_prefix-append [] rest h = refl
done_prefix-append (s ∷ ss) rest h = ground (arith, done_prefix-append ss rest)

updated_steps-append :
    (done rest new : List Step)
    → all_done done ≡ true
    → updated_steps (done ++ rest) new ≡ done ++ updated_steps rest new
unfolding updated_steps
updated_steps-append done rest new h =
    rw (all_done-append done rest h, done_prefix-append done rest h)
      (elim (Bool-cases (all_done rest)) [
        | inl all ↦ rw all
        | inr some_left ↦ rw (some_left, append_assoc)
      ])

updated_plan-Keeps :
    (old plan parsed : Plan) → Keeps old plan → Keeps old (updated_plan plan parsed)
unfolding updated_plan
updated_plan-Keeps old plan parsed k = record {
  begins = λ before after e finished.
      let (rest, same) = k.begins before after e finished in
      (
        updated_steps rest parsed.steps,
        ap (λ steps. updated_steps steps parsed.steps) same
            ∙ updated_steps-append before rest parsed.steps (all_done-IsFinished before finished),
      );
  others = ap (λ (p : Plan). record p { steps = updated_steps plan.steps parsed.steps }) k.others;
}

module _ (env : Services) (old : Plan) where
  abbrev pub AlwaysKeeps : Gen (World × Plan) Event → Type 0
  AlwaysKeeps = Always (λ (w, p) e. Keeps old p) (λ (w, p). Keeps old p) (λ e (w, p). Keeps old p)

  take_update-Keeps :
      (plan : Plan) (w : World) (answer : Result Plan)
      (next : Plan → Database → Gen (World × Plan) Event)
      → Keeps old plan
      → ((p : Plan) (db : Database) → Keeps old p → AlwaysKeeps (next p db))
      → AlwaysKeeps (take_update env plan w answer next)
  unfolding take_update
  take_update-Keeps plan w (ok parsed) next k h =
      let k' = updated_plan-Keeps old plan parsed k in
      (k', λ db. h (updated_plan plan parsed) db k')
  take_update-Keeps plan w (err error) next k h = k

  on_update-Keeps :
      (plan : Plan) (w : World) (e : Event) (body : EventBody)
      (next : Plan → Database → Gen (World × Plan) Event)
      → Keeps old plan
      → ((p : Plan) (db : Database) → Keeps old p → AlwaysKeeps (next p db))
      → AlwaysKeeps (on_update env plan w e body next)
  unfolding on_update
  on_update-Keeps plan w e (message_event answer) next k h =
      take_update-Keeps plan w (env.parse_plan answer.message) next k h
  on_update-Keeps plan w e (tool_event c) next k h = (k, λ db. h plan db k)
  on_update-Keeps plan w e (plan_event p s) next k h = (k, λ db. h plan db k)
  on_update-Keeps plan w e (title_event t) next k h = (k, λ db. h plan db k)
  on_update-Keeps plan w e (step_event t s) next k h = (k, λ db. h plan db k)
  on_update-Keeps plan w e (error_event t) next k h = (k, λ db. h plan db k)
  on_update-Keeps plan w e wait_event next k h = (k, λ db. h plan db k)
  on_update-Keeps plan w e done_event next k h = (k, λ db. h plan db k)

  update_answers-Keeps :
      (g : Gen World Event) (plan : Plan) → Keeps old plan → AlwaysKeeps (update_answers env plan g)
  unfolding update_answers
  update_answers-Keeps (finished w) plan k = k
  update_answers-Keeps (raised e w) plan k = k
  update_answers-Keeps (unfinished w) plan k = tt
  update_answers-Keeps (yielded w e rest) plan k =
      on_update-Keeps plan w e e.body _ k (λ p db k'. update_answers-Keeps (rest db) p k')

  -- Whatever the model answers, at every event of `update_plan` and at its end, raised or not, only the
  -- steps of the plan have changed, and it still begins with whichever finished steps it began with.
  pub update_plan-Keeps : (step : Step) (w : World) → AlwaysKeeps (update_plan env old step w)
  unfolding update_plan
  update_plan-Keeps step w =
      update_answers-Keeps (invoke env planner (env.update_plan_prompt old step) w) old
        (record { begins = λ before after e finished. (after, e); others = refl })
