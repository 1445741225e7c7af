-- ===== src/Runner/Loop.antt =====
-- app/domain/agent_task_runner.py, `_run_flow` and `invoke`: the flow's events are enriched, put out and
-- recorded one by one, until the flow is over, waits for the user, or a new message has come in.
use boxify_agent.Prelude.{
  String, ℕ, zero, suc, ◌+◌, Bool, true, false, Option, none, some, map, length, if◌then◌else◌,
  is_empty,
}
use boxify_agent.Result.{
  Exec, Result, ok, err, cancelled, resume, pure, raise, gets, modify, ◌>>=◌, ◌>>◌,
}
use boxify_agent.Event.{
  Event, EventBody, MessageEvent, UserMessage, title_event, message_event, tool_event, error_event,
  wait_event, done_event, event,
}
use boxify_agent.Session.{SessionStatus}
use boxify_agent.Store
use boxify_agent.Store.{Database}
use boxify_agent.Gen.{Gen, finished, raised, yielded, unfinished}
use boxify_agent.Agent.{Services}
use boxify_agent.Flow
use boxify_agent.Flow.{FlowState, at_db}
use boxify_agent.Runner.{
  Host, RunState, db_of, external, in_store, input_is_empty, pop_event, put_and_add_event,
}
use boxify_agent.Runner.Files.{
  sync_message_attachments_to_sandbox, sync_message_attachments_to_storage,
}
use boxify_agent.Runner.Tools.{handle_tool_event}

-- How the work on a message ends: the flow is over, a new message has come in, the flow waits for the
-- user, an exception was reported, or the rounds given to a `while` ran out.
pub data Outcome : Type 0 where
  over interrupted waiting failed out_of_rounds : Outcome

abbrev pub with_flow : FlowState → RunState → RunState
with_flow s st = record st { flow = s }

-- `Message(message=message, attachments=[...])`
abbrev pub message_object : MessageEvent → UserMessage
message_object m = record { message = m.message; attachments = map (λ f. f.filepath) m.attachments }

module _ (env : Services) (host : Host) where
  -- `_run_flow`, with the rounds of the flow's loop; what it does with each event is `enrich`.
  unfoldable pub run_flow :
      Option (String → String) → ℕ → UserMessage → FlowState → Gen FlowState Event
  run_flow recall rounds message s =
      if is_empty message.message
      then yielded s (event (error_event "空消息错误")) (λ db. finished (at_db db s))
      else Flow.invoke env recall rounds message s

  unfoldable pub enrich : Event → EventBody → Exec RunState Event
  unfolding handle_tool_event sync_message_attachments_to_storage
  enrich e (tool_event call) = do
    call' ← handle_tool_event env host call
    pure (record e { body = tool_event call' })
  enrich e (message_event m) = do
    m' ← sync_message_attachments_to_storage env host m
    pure (record e { body = message_event m' })
  enrich e body = pure e

  -- The latest message and the count of unread ones, in one transaction.
  unfoldable pub read_message : String → ℕ → Exec Database (Unit {0})
  read_message message timestamp = do
    Store.update_latest_message env.session_id message timestamp
    Store.increment_unread_message_count env.session_id

  -- What the session's row takes of an event, and whether the runner returns.
  unfoldable pub react : EventBody → Exec RunState Bool
  unfolding read_message
  react (title_event title) = do in_store host (Store.update_title env.session_id title); pure false
  react (message_event m) = do
    count ← gets (λ st. length st.output)
    in_store host (read_message m.message (host.created_at count))
    pure false
  react wait_event = do
    in_store host (Store.update_status env.session_id SessionStatus.waiting)
    pure true
  react body = pure false

  unfoldable pub deliver : Event → Exec RunState Bool
  unfolding enrich put_and_add_event react
  deliver e = do e' ← enrich e e.body; put_and_add_event env host e'; react e'.body

  -- After an event: return, or break out of the loop, or go on with the flow.
  unfoldable pub go_on : Exec RunState Outcome → Bool → Exec RunState Outcome
  unfolding input_is_empty
  go_on rest true = pure waiting
  go_on rest false = do quiet ← input_is_empty env host; if quiet then rest else pure interrupted

  -- The `async for` over the flow's events.
  unfoldable pub consume : Gen FlowState Event → Exec RunState Outcome
  unfolding deliver go_on
  consume (finished s) st = (ok over, with_flow s st)
  consume (raised e s) st = (err e, with_flow s st)
  consume (unfinished s) st = (ok out_of_rounds, with_flow s st)
  consume (yielded s e rest) st =
      resume (deliver e (with_flow s st)) (go_on (λ st'. consume (rest (db_of st')) st'))

  -- One entry of the input stream; only messages start the flow.
  unfoldable pub serve_event :
      Option (String → String) → ℕ → Event → EventBody → Exec RunState Outcome
  unfolding sync_message_attachments_to_sandbox run_flow consume
  serve_event recall rounds e (message_event m) = do
    m' ← sync_message_attachments_to_sandbox env host m
    (λ st. consume (run_flow recall rounds (message_object m') st.flow) st)
  serve_event recall rounds e body = pure over

  unfoldable pub serve_popped : Option (String → String) → ℕ → Option Event → Exec RunState Outcome
  unfolding serve_event
  serve_popped recall rounds none = pure over
  serve_popped recall rounds (some e) = serve_event recall rounds e e.body

  -- Whether the outer loop goes on after an entry.
  unfoldable pub after_entry : Exec RunState Outcome → Outcome → Exec RunState Outcome
  after_entry rest over = rest
  after_entry rest interrupted = rest
  after_entry rest waiting = pure waiting
  after_entry rest failed = pure failed
  after_entry rest out_of_rounds = pure out_of_rounds

  -- `while not await task.input_stream.is_empty()`, with its rounds.
  unfoldable pub serve : Option (String → String) → ℕ → ℕ → Exec RunState Outcome
  unfolding input_is_empty pop_event serve_popped after_entry
  serve recall rounds zero st = (ok out_of_rounds, st)
  serve recall rounds (suc n) st =
      let rest = λ (st' : RunState). serve recall rounds n st' in
      resume (input_is_empty env host st) (λ quiet. if quiet then pure over else do
        popped ← pop_event env host
        outcome ← serve_popped recall rounds popped
        after_entry rest outcome)

  unfoldable pub complete_session : Exec RunState (Unit {0})
  complete_session = in_store host (Store.update_status env.session_id SessionStatus.completed)

  -- The end of the `try` body: a flow that waits has returned before the session is completed.
  unfoldable pub finish : Outcome → Exec RunState Outcome
  unfolding complete_session
  finish waiting = pure waiting
  finish failed = pure failed
  finish out_of_rounds = pure out_of_rounds
  finish over = do complete_session; pure over
  finish interrupted = do complete_session; pure over

  unfoldable pub body : Option (String → String) → ℕ → ℕ → Exec RunState Outcome
  unfolding serve finish
  body recall rounds n = do
    external host.ensure_sandbox
    external host.initialize_mcp
    external host.initialize_a2a
    outcome ← serve recall rounds n
    finish outcome

  -- The two handlers: a cancellation goes on up.
  unfoldable pub handled : Result Outcome × RunState → Result Outcome × RunState
  unfolding complete_session put_and_add_event
  handled (ok outcome, st) = (ok outcome, st)
  handled (err cancelled, st) =
      (do put_and_add_event env host (event done_event); complete_session; raise cancelled) st
  handled (err e, st) =
      (do
        put_and_add_event env host (event (error_event (env.describe e)))
        complete_session
        pure failed)
        st

  -- The `finally`: `_cleanup_tools` catches what its two calls raise.
  unfoldable pub cleaned_up : Result Outcome × RunState → Result Outcome × RunState
  cleaned_up (r, st) = (r, record st { cleanups = st.cleanups + 1 })

  -- `AgentTaskRunner.invoke`: the rounds of the flow's loop, and of the loop over the input.
  unfoldable pub invoke : Option (String → String) → ℕ → ℕ → Exec RunState Outcome
  unfolding body handled cleaned_up
  invoke recall rounds n st = cleaned_up (handled (body recall rounds n st))

  -- `AgentTaskRunner.destroy`: the clean-up comes after the sandbox, and not when that raises.
  unfoldable pub destroy : Exec RunState (Unit {0})
  destroy = do
    external host.destroy_sandbox
    modify (λ st. record st { cleanups = st.cleanups + 1 })
