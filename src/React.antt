-- ===== src/React.antt =====
-- app/domain/services/agents/react.py: the agent that carries out the steps of a plan.
pub mod Status
use boxify_agent.Store.{Database}
use boxify_agent.Prelude.{
  String, Bool, true, false, Option, none, some, List, [], ◌∷◌, ◌==◌, if◌then◌else◌, is_empty, ℕ,
  suc,
}
use boxify_agent.Result.{Error, Result, ok, err, validation_error}
use boxify_agent.Plan.{Plan, Step, ExecutionStatus}
use boxify_agent.Event.{
  Event, EventBody, File, MessageEvent, ToolEvent, ToolEventStatus, StepEventStatus, UserMessage,
  Value, text, other, calling, called, message_event, tool_event, step_event, error_event,
  wait_event, event, assistant_message,
}
use boxify_agent.Gen.{Gen, finished, raised, yielded, unfinished}
use boxify_agent.Agent.{with_db, Services, World, react}
use boxify_agent.Agent.Loop.{invoke}

abbrev pub lookup_arg : String → List (String × Value) → Option Value
lookup_arg name [] = none
lookup_arg name ((key, value) ∷ rest) = if key == name then some value else lookup_arg name rest

-- `MessageEvent(message=event.function_args.get("text", ""))`, which takes a text only.
unfoldable pub asked_by : Option Value → Result Event
asked_by none = ok (assistant_message "")
asked_by (some (text s)) = ok (assistant_message s)
asked_by (some (other json)) = err (validation_error "message")

unfoldable pub question : List (String × Value) → Result Event
unfolding asked_by
question args = asked_by (lookup_arg "text" args)

unfoldable pub started_step : Step → Step
started_step step = record step { status = ExecutionStatus.running }

unfoldable pub completed_step : Step → Step
completed_step step = record step { status = ExecutionStatus.completed }

-- Step 10: what the parsed answer gives to the step.
unfoldable pub answered_step : Step → Step → Step
unfolding completed_step
answered_step step new = record (completed_step step) {
  success = new.success;
  result = new.result;
  attachments = new.attachments;
}

unfoldable pub failed_step : Step → String → Step
failed_step step error = record step { status = ExecutionStatus.failed; error = some error }

-- Step 12: the result, if there is a text, is told to the user.
-- The message with the result, from the database `db` that the consumer left.
abbrev pub tell_result :
    Option String
    → World × Step
    → (Database → Gen (World × Step) Event)
    → Database
    → Gen (World × Step) Event
tell_result none s rest db = rest db
tell_result (some result) (w, step) rest db =
    if is_empty result
    then rest db
    else yielded (with_db db w, step) (assistant_message result) rest

abbrev pub step_report : Step → StepEventStatus → Event
step_report step status = event (step_event step status)

module _ (env : Services) where
  -- `message_ask_user`: the question goes to the user, and after the call the step waits.
  unfoldable pub ask_user :
      Step
      → World
      → ToolEventStatus
      → Result Event
      → (Step → Database → Gen (World × Step) Event)
      → Gen (World × Step) Event
  ask_user step w calling (ok asked) next = yielded (w, step) asked (next step)
  ask_user step w calling (err error) next = raised error (w, step)
  ask_user step w called asked next =
      yielded (w, step) (event wait_event) (λ db. finished (with_db db w, step))

  -- Steps 8 to 12: the answer is parsed as a step.
  unfoldable pub take_answer :
      Step
      → World
      → Result Step
      → (Step → Database → Gen (World × Step) Event)
      → Gen (World × Step) Event
  unfolding completed_step answered_step
  take_answer step w (err error) next = raised error (w, completed_step step)
  take_answer step w (ok new) next =
      let step' = answered_step step new in
      yielded (w, step') (step_report step' StepEventStatus.completed)
        (tell_result step'.result (w, step') (next step'))

  -- The body of the loop over the agent's events, by the class of the event; `next` is the rest of
  -- the loop. `step` is the caller's object: each suspension carries it as it is then.
  unfoldable pub on_event :
      Step
      → World
      → Event
      → EventBody
      → (Step → Database → Gen (World × Step) Event)
      → Gen (World × Step) Event
  unfolding question ask_user take_answer failed_step
  on_event step w e (tool_event call) next =
      if call.function_name == "message_ask_user"
      then ask_user step w call.status (question call.function_args) next
      else yielded (w, step) e (next step)
  on_event step w e (message_event answer) next =
      take_answer step w (env.parse_step answer.message) next
  on_event step w e (error_event error) next =
      let step' = failed_step step error in
      yielded (w, step') (step_report step' StepEventStatus.failed)
        (λ db. yielded (with_db db w, step') e (next step'))
  on_event step w e body next = yielded (w, step) e (next step)

  unfoldable pub step_events : Step → Gen World Event → Gen (World × Step) Event
  unfolding on_event completed_step
  step_events step (finished w) = finished (w, completed_step step)
  step_events step (raised e w) = raised e (w, step)
  step_events step (unfinished w) = unfinished (w, step)
  step_events step (yielded w e rest) =
      on_event step w e e.body (λ step' db. step_events step' (rest db))

  unfoldable pub execute_step : Plan → Step → UserMessage → World → Gen (World × Step) Event
  unfolding step_events started_step
  execute_step plan step message w =
      let step' = started_step step in
      yielded (w, step') (step_report step' StepEventStatus.started)
        (λ db. step_events step' (
          invoke env react (env.execution_prompt message plan.language step.description)
            (with_db db w)))

  -- `File(filepath=filepath)`, whose id is a new uuid.
  path_files : (calls position : ℕ) → List String → List File
  path_files calls position [] = []
  path_files calls position (filepath ∷ rest) =
      record {
        id = env.attachment_id calls position;
        filename = "";
        filepath = filepath;
        key = "";
        extension = "";
        mime_type = "";
        size = 0;
      }
      ∷ path_files calls (suc position) rest

  unfoldable pub summary : UserMessage → World → Event
  unfolding path_files
  summary message w = event (
      message_event (record {
        role = "assistant";
        message = message.message;
        attachments = path_files w.llm_calls 0 message.attachments;
      }))

  unfoldable pub take_summary :
      World → Result UserMessage → (Database → Gen World Event) → Gen World Event
  unfolding summary
  take_summary w (ok message) rest = yielded w (summary message w) rest
  take_summary w (err error) rest = raised error w

  unfoldable pub on_summary :
      World → Event → EventBody → (Database → Gen World Event) → Gen World Event
  unfolding take_summary
  on_summary w e (message_event answer) rest =
      take_summary w (env.parse_message answer.message) rest
  on_summary w e body rest = yielded w e rest

  unfoldable pub summary_events : Gen World Event → Gen World Event
  unfolding on_summary
  summary_events (finished w) = finished w
  summary_events (raised e w) = raised e w
  summary_events (unfinished w) = unfinished w
  summary_events (yielded w e rest) = on_summary w e e.body (λ db. summary_events (rest db))

  unfoldable pub summarize : World → Gen World Event
  unfolding summary_events
  summarize w = summary_events (invoke env react env.summarize_prompt w)
