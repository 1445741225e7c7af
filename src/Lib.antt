-- ===== src/Lib.antt =====
-- boxify_agent: an agent service in Python. A user's message goes through a session to a flow
-- (app/domain/services/flows/planner_react.py), a state machine over two agents: the planner makes and
-- updates a plan, the executor carries its steps out and sums up. Both are clients of one base
-- (app/domain/services/agents/base.py) that asks a language model, calls tools, and keeps the
-- conversation as a memory in the session's row. Sessions and projects are rows of a database that the
-- session service edits for its users. The agent service starts a task for a message and sends the client what the
-- task puts to its stream. Documents are cut into overlapping chunks for retrieval.
--
-- Which file models what:
--   Prelude, Result   Booleans, lists and texts; Python's exceptions as values; a unit of work
--                     (app/infrastructure/repositories/db_uow.py) as `transaction`
--   Plan, Memory, Event, Session   app/domain/models/{plan,memory,event,session,session_project,file,message,tool_result}.py
--   Store             app/infrastructure/repositories/db_session_repository.py and
--                     db_session_project_repository.py over the tables of app/infrastructure/models/session.py
--                     and session_project.py; Store/Calls has the writing statements as data
--   SessionService    app/application/services/session_service.py; SessionService/Requests has its writing requests as data
--   Gen               async generators: the events in order, each with the state at its `yield`; the consumer
--                     may write the database before the generator goes on
--   Agent             the memory of BaseAgent; Agent/Llm its calls of the model and of tools; Agent/Loop its `invoke`
--   Planner, React    PlannerAgent and ReActAgent (app/domain/services/agents/planner.py, react.py)
--   Flow              PlannerReActFlow, `invoke` and one `round` of its `while True`
--   Runner            AgentTaskRunner (app/domain/agent_task_runner.py): its state and streams; Runner/Files the
--                     attachments, Runner/Tools what is shown of a tool's result, Runner/Loop the flow's events and `invoke`
--   Tasks             app/infrastructure/external/task/redis_stream_task.py, the registry of background tasks
--   AgentService      app/application/services/agent_service.py, over the tables and the registry; `chat` is an
--                     `Exec` that keeps the events it has yielded
--   Dedup             MemoryEntityDeduplicator (app/domain/services/memory/entity_deduplicator.py) with the entities of
--                     app/domain/models/memory_graph.py; Dedup/Batch has `dedup_batch`, `merge_with_graph` and `_result`
--   Utils             app/utils/{collections,vector,json_utils}.py, and dicts in the order of their insertion
--   Queue             app/infrastructure/external/message_queue/redis_stream_message_queue.py; `advance` runs one command
--                     of `pop`, and Queue/System has producers and callers in any interleaving
--   Community         app/domain/services/memory/community_clusterer.py and community_summarizer.py; Community/Merge has
--                     `_merge_communities`, Community/Cluster the votes and `cluster`
--   Chunker           app/domain/services/notebook/chunker.py
-- An operation has the source's name; a part of a long method has a name of its own and a comment.
--
-- Parameters. What runs outside the repository is an argument: the record Services of Agent has the
-- model, the toolkits, the JSON parser with pydantic's validation, the prompts' texts and fresh ids, and
-- the two limits of the configuration; the record Sandbox of SessionService has the sandbox. They answer
-- as they please or raise, and see how many calls were made before. Active recall is a function from
-- a message to its context. The record Host of Runner has the streams' server, the sandbox, the browser, the
-- file storage and the remote tools of the task runner; new messages may arrive whenever the runner asks
-- for the length of its input. Any block of statements of the runner may fail by itself or be cancelled, and other
-- coroutines may write the tables whenever it waits. The record Deduplicator of Dedup has floats, `str.lower`, difflib and a model.
-- The record Outside of AgentService has sandboxes, streams, memory and clock, and what other coroutines
-- do at every await of a chat, blocks of the database included.
-- The record Redis of Queue has a server with the documented laws of its commands, the record Clusterer of
-- Community the settings, the graph repository and a model.
--
-- Fuel. `_window` runs on as many rounds as the text has code points and one more. The flow's `while True`
-- has no bound, so its rounds are a parameter: where they run out the run is `unfinished`, with
-- all that came before. The runner's `while` over its input is bounded by a second such number. The retries and the iterations of the agents have the source's own bounds.
-- `listen` of AgentService waits for a task as long as it runs, so its rounds are a parameter, too; `false` says that
-- they ran out.
-- `root` of the clusterer's merging has as many rounds as communities were dissolved, and one, which is enough.
--
-- Texts are code points (List ℕ) where the code looks inside them, and strings where it compares them.
-- A statement elsewhere, of the flow and the services, fails only where the tables refuse it.
-- The timestamps of rows and events, the order of a select, the users' table and its foreign key,
-- the wording of error messages, negative chunk sizes, sort orders and entity indices are not modelled.
-- Cancellation is an exception that only the task runner's handler and the agent service's write of an error event
-- catch. One consumer runs a generator; it may stop at any event, but for `chat` of the agent service, whose
-- client is taken to stay. An event that several parts share is passed by value, and JSON data of tools is a text.
pub mod AgentService
pub mod Prelude
pub mod Chunker
pub mod Result
pub mod Utils
pub mod Plan
pub mod Memory
pub mod Event
pub mod Session
pub mod Store
pub mod SessionService
pub mod Gen
pub mod Agent
pub mod Planner
pub mod React
pub mod Flow
pub mod Tasks
pub mod Runner
pub mod Dedup
pub mod Queue
pub mod Community
