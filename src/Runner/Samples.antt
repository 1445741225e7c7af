-- ===== src/Runner/Samples.antt =====
-- A run of app/domain/agent_task_runner.py on one message, with the scripted model of the flow's tests,
-- and the theorems on runs at it.
use boxify_agent.Prelude.{true, false, none, [], ◌∷◌}
use boxify_agent.Result.{ok, err, external_error}
use boxify_agent.Event.{message_event, event}
use boxify_agent.Session.{SessionStatus}
use boxify_agent.Flow.{invoke}
use boxify_agent.Flow.Answers.{FlowSteps}
use boxify_agent.Flow.Frame.{invoke-Steps}
use boxify_agent.Flow.Samples.{script, start, hello}
use boxify_agent.Runner.{Host, RunState}
use boxify_agent.Runner.Loop.{Outcome, over, failed}
use boxify_agent.Runner.Loop
use boxify_agent.Runner.Log.{log_frame}

-- A host whose calls succeed where they return nothing, and fail where they return a file.
abbrev quiet_host : Host
quiet_host = record {
  ensure_sandbox = λ n. ok tt;
  initialize_mcp = λ n. ok tt;
  initialize_a2a = λ n. ok tt;
  put_output = λ n e. ok "1-0";
  pop_refused = λ n. ok false;
  store_fault = λ n. none;
  others_write = λ n db. db;
  arrivals = λ n. ok [];
  download_stored = λ n i. err (external_error "file");
  upload_sandbox = λ n f p. ok true;
  download_sandbox = λ n p. ok tt;
  upload_storage = λ n p. err (external_error "file");
  destroy_sandbox = λ n. ok tt;
  screenshot = λ n. ok tt;
  upload_screenshot = λ n. err (external_error "file");
  read_shell_output = λ n v. err (external_error "shell");
  read_file = λ n v. err (external_error "file");
  console_records = λ s. ok s;
  file_text = λ s. ok s;
  upload_path = λ name. name;
  show_result = λ r. "";
  created_at = λ n. n;
}

abbrev asked : RunState
asked = record {
  flow = start;
  input =
      ok (event (message_event (record { role = "user"; message = "hello"; attachments = [] })))
      ∷ [];
  output = [];
  files = [];
  calls = 0;
  checks = 0;
  cleanups = 0;
}

invoke-Steps_example : FlowSteps (log_frame "s") start.world.db (invoke script none 10 hello start)
invoke-Steps_example = invoke-Steps (log_frame "s") script none 10 hello start
