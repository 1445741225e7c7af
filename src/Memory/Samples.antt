-- ===== src/Memory/Samples.antt =====
-- The theorem on `compact` at a concrete memory.
use boxify_agent.Prelude.{◌≡◌, some, [], ◌∷◌}
use boxify_agent.Memory.{Memory, compact}
use boxify_agent.Memory.Compact.{CompactedAll, compact_lem}

abbrev pages : Memory
pages = record {
  messages =
      record {
        role = some "tool";
        content = some "a page";
        reasoning_content = some "thought";
        tool_calls = [];
        tool_call_id = some "1";
        function_name = some "browser_view";
      }
      ∷ [];
}

compact_lem_example :
    CompactedAll pages.messages (compact pages).messages × (compact (compact pages) ≡ compact pages)
compact_lem_example = compact_lem pages
