-- ===== src/Runner/Tools.antt =====
-- app/domain/agent_task_runner.py, `_handle_tool_event`: what the user is shown of a tool's result.
use boxify_agent.Prelude.{String, Option, none, some, ◌==◌, ◌||◌, if◌then◌else◌, is_empty}
use boxify_agent.Result.{Exec, Result, runtime_error, pure, raise, lift, ◌>>=◌, ◌>>◌}
use boxify_agent.Event.{
  Value, text, other, ToolResult, ToolEvent, ToolEventStatus, calling, called, ToolContent,
  browser_content, search_content, shell_content, file_content, mcp_content, a2a_content,
}
use boxify_agent.Agent.{Services}
use boxify_agent.React.{lookup_arg}
use boxify_agent.Runner.{Host, RunState, external}
use boxify_agent.Result.{catching}
use boxify_agent.Runner.Files.{sync_file_to_storage}

-- `result.data` where it is true as a condition.
abbrev payload_of : Option String → Option String
payload_of none = none
payload_of (some s) = if is_empty s then none else some s

-- `MCPToolContent` for "mcp" and `A2AToolContent` for "a2a".
abbrev remote_content : String → String → ToolContent
remote_content name shown = if name == "mcp" then mcp_content shown else a2a_content shown

abbrev no_remote_result : String → ToolContent
no_remote_result name =
    if name == "mcp" then mcp_content "(MCP工具无可用结果)" else a2a_content "(A2A智能体无可用结果"

module _ (env : Services) (host : Host) where
  unfoldable pub get_browser_screenshot : Exec RunState String
  get_browser_screenshot = do
    external host.screenshot
    file ← external host.upload_screenshot
    pure file.id

  -- `.data.get(...)` of a result, which raises without data.
  unfoldable pub read_data : (String → Result String) → Option String → Exec RunState String
  read_data part none = raise (runtime_error "data")
  read_data part (some found) = lift (part found)

  unfoldable pub shell_shown : Option Value → Exec RunState ToolContent
  unfolding read_data
  shell_shown none = pure (shell_content "(No Console)")
  shell_shown (some shell_session_id) = do
    result ← external (λ n. host.read_shell_output n shell_session_id)
    console ← read_data host.console_records result.payload
    pure (shell_content console)

  -- A path that is no text raises at its `split`, which is caught before anything is written.
  unfoldable pub sync_path : Value → Exec RunState (Unit {0})
  unfolding sync_file_to_storage
  sync_path (other json) = pure tt
  sync_path (text filepath) = do file ← sync_file_to_storage env host filepath; pure tt

  unfoldable pub file_shown : Option Value → Exec RunState ToolContent
  unfolding read_data sync_path
  file_shown none = pure (file_content "(No Content)")
  file_shown (some filepath) = do
    result ← external (λ n. host.read_file n filepath)
    content ← read_data host.file_text result.payload
    sync_path filepath
    pure (file_content content)

  unfoldable pub search_shown : Option ToolResult → Option ToolContent
  search_shown none = none
  search_shown (some result) = elim (payload_of result.payload) [
    | none ↦ none
    | some results ↦ some (search_content results)
  ]

  unfoldable pub remote_shown : String → Option ToolResult → ToolContent
  remote_shown name none = no_remote_result name
  remote_shown name (some result) = elim (payload_of result.payload) [
    | some found ↦ remote_content name found
    | none ↦
        if result.success
        then remote_content name (env.dump_result result)
        else remote_content name (host.show_result result)
  ]

  -- The branches by the name of the tool box; `none` leaves the content as it was.
  unfoldable pub shown : ToolEvent → Exec RunState (Option ToolContent)
  unfolding get_browser_screenshot shell_shown file_shown search_shown remote_shown
  shown call =
      if call.tool_name == "browser"
      then (do id ← get_browser_screenshot; pure (some (browser_content id)))
      else if call.tool_name == "search"
      then pure (search_shown call.function_result)
      else if call.tool_name == "shell"
      then (do
        content ← shell_shown (lookup_arg "session_id" call.function_args)
        pure (some content))
      else if call.tool_name == "file"
      then (do content ← file_shown (lookup_arg "filepath" call.function_args); pure (some content))
      else if call.tool_name == "mcp" || call.tool_name == "a2a"
      then pure (some (remote_shown call.tool_name call.function_result))
      else pure none

  abbrev with_content : ToolEvent → Option ToolContent → ToolEvent
  with_content call none = call
  with_content call (some content) = record call { tool_content = some content }

  unfoldable pub try_shown : ToolEvent → Exec RunState ToolEvent
  unfolding shown
  try_shown call = do content ← shown call; pure (with_content call content)

  unfoldable pub handle_called : ToolEvent → ToolEventStatus → Exec RunState ToolEvent
  unfolding try_shown
  handle_called call calling = pure call
  handle_called call called = catching (try_shown call) (λ e. pure call)

  unfoldable pub handle_tool_event : ToolEvent → Exec RunState ToolEvent
  unfolding handle_called
  handle_tool_event call = handle_called call call.status
