-- ===== src/Flow/Samples.antt =====
-- A run of app/domain/services/flows/planner_react.py with a scripted model, and the theorems at it.
use boxify_agent.Prelude.{
  ℕ, true, false, Option, none, some, List, [], ◌∷◌, ◌≡◌, ◌≤◌, refl, if◌then◌else◌, ◌==◌, nat_eq,
}
use boxify_agent.Result.{ok, err, external_error}
use boxify_agent.Plan.{Plan, Step, ExecutionStatus}
use boxify_agent.Event.{UserMessage}
use boxify_agent.Session.{SessionType}
use boxify_agent.SessionService.{blank_session}
use boxify_agent.Gen.{Gen, finished, raised, yielded, unfinished}
use boxify_agent.Agent.{Services, World, Agent, planner, react, chat_message}
use boxify_agent.Agent.Calls.{Within, invoke_llm-Adds, invoke-Within}
use boxify_agent.Agent.Llm.{invoke_llm}
use boxify_agent.Agent.Loop
use boxify_agent.Planner.{update_plan}
use boxify_agent.Planner.Update.{AlwaysKeeps, update_plan-Keeps}
use boxify_agent.React.{execute_step}
use boxify_agent.React.Status.{Completes, execute_step-Completes}
use boxify_agent.Flow.{FlowState, idle, invoke}
use boxify_agent.Flow.Done.{EndsDone, invoke-EndsDone}

abbrev walk : Step
walk = record {
  id = "1";
  description = "walk";
  status = ExecutionStatus.pending;
  result = none;
  error = none;
  success = true;
  attachments = [];
}

abbrev plan_of : List Step → Plan
plan_of steps = record {
  id = "p";
  title = "t";
  goal = "g";
  language = "en";
  steps = steps;
  message = "m";
  status = ExecutionStatus.pending;
  error = none;
}

-- The model answers with a plan of one step first, and with texts from then on.
abbrev pub script : Services
script = record {
  max_retries = 2;
  max_iterations = 3;
  session_id = "s";
  toolkits = [];
  llm = λ n request. ok (chat_message "assistant" (some (if nat_eq n 0 then "plan" else "text")));
  call_tool = λ n tool name args. err (external_error "none");
  parse_args = λ s. ok [];
  parse_plan = λ s. ok (plan_of (if s == "plan" then walk ∷ [] else []));
  parse_step = λ s. ok walk;
  parse_message = λ s. ok (record { message = s; attachments = [] });
  dump_result = λ r. "";
  dump_message = λ m. m.message;
  describe = λ e. "error";
  fresh_id = λ n. "id";
  attachment_id = λ n k. "file";
  planner_system_prompt = "plan!";
  react_system_prompt = "act!";
  create_plan_prompt = λ m. m.message;
  update_plan_prompt = λ p s. p.goal;
  execution_prompt = λ m language step. step;
  summarize_prompt = "sum up";
}

abbrev pub start_world : World
start_world = record {
  db = record { sessions = blank_session "s" "u" SessionType.task none false ∷ []; projects = [] };
  planner_memory = none;
  react_memory = none;
  llm_calls = 0;
  tool_calls = 0;
  ids = 0;
}

abbrev pub start : FlowState
start = record { world = start_world; status = idle; plan = none; step = none }

abbrev pub hello : UserMessage
hello = record { message = "hello"; attachments = [] }

abbrev end_of : {E : Type 0} → Gen FlowState E → Option FlowState
end_of (finished s) = some s
end_of (raised e s) = none
end_of (yielded s e rest) = end_of (rest s.world.db)
end_of (unfinished s) = none

abbrev calls_at_end : Option FlowState → ℕ
calls_at_end none = 0
calls_at_end (some s) = s.world.llm_calls

-- Four answers of the model end the run: the plan, the step, the update and the summary.
run_ends : calls_at_end (end_of (invoke script none 10 hello start)) ≡ 4
unfolding invoke boxify_agent.Store.get_by_id blank_session boxify_agent.Store.update_status
    boxify_agent.Planner.create_plan Loop.invoke invoke_llm boxify_agent.Agent.add_to_memory
    boxify_agent.Store.get_memory boxify_agent.Store.save_memory boxify_agent.Agent.filtered_message
    execute_step boxify_agent.Agent.compact_memory update_plan boxify_agent.React.summarize
run_ends = refl

invoke-EndsDone_example : EndsDone (invoke script none 10 hello start)
invoke-EndsDone_example = invoke-EndsDone script none 10 hello start refl

execute_step-Completes_example :
    Completes false (execute_step script (plan_of (walk ∷ [])) walk hello start_world)
execute_step-Completes_example =
    execute_step-Completes script (plan_of (walk ∷ [])) walk hello start_world

-- A step that is done, and one that is not.
abbrev half_done : Plan
half_done = plan_of (record walk { id = "0"; status = ExecutionStatus.completed } ∷ walk ∷ [])

update_plan-Keeps_example :
    AlwaysKeeps script half_done (update_plan script half_done walk start_world)
update_plan-Keeps_example = update_plan-Keeps script half_done walk start_world

invoke-Within_example : Within script 8 (Loop.invoke script planner "go" start_world)
invoke-Within_example = invoke-Within script planner "go" start_world

invoke_llm-Adds_example : (invoke_llm script planner [] none start_world).1.llm_calls ≤ 2
invoke_llm-Adds_example = invoke_llm-Adds script planner [] none start_world
