-- ===== src/Memory/Compact.antt =====
-- app/domain/models/memory.py: what `compact` makes of a memory.
use boxify_agent.Prelude.{
  String, Option, eq_iff, true, false, ◌≡◌, refl, ap, ◌⊎◌, inl, inr, none, some, List, [], ◌∷◌, map,
  Bool-cases,
}
use boxify_agent.Memory.{
  is_text, get_message_role, Memory, ChatMessage, is_browser_result, compact_message, compact,
}

-- The result of a tool that reads a page.
abbrev pub IsPage : ChatMessage → Type 0
IsPage m =
    (m.role ≡ some "tool")
    × ((m.function_name ≡ some "browser_view") ⊎ (m.function_name ≡ some "browser_navigate"))

-- What one message becomes: the reasoning goes, and of the contents only a page's.
pub record Compacted (old new : ChatMessage) : Type 0 where
  pub no_reasoning : new.reasoning_content ≡ none
  pub content :
      IsPage old × (new.content ≡ some "(removed)") ⊎ (¬ IsPage old) × (new.content ≡ old.content)
  pub same_role : new.role ≡ old.role
  pub same_calls : new.tool_calls ≡ old.tool_calls
  pub same_answer : new.tool_call_id ≡ old.tool_call_id
  pub same_function : new.function_name ≡ old.function_name

is_text-some : (o : Option String) (t : String) → is_text o t ≡ true → o ≡ some t
is_text-some none t h = cc h
is_text-some (some s) t h = ap some ((eq_iff s t).0 h)

is_text-other : (o : Option String) (t : String) → is_text o t ≡ false → ¬ (o ≡ some t)
is_text-other o t h e = cc (ap (λ x. is_text x t) e, h, (eq_iff t t).1 refl)

is_browser_result-IsPage : (m : ChatMessage) → is_browser_result m ≡ true → IsPage m
unfolding is_browser_result get_message_role
is_browser_result-IsPage m h = elim (Bool-cases (is_text m.role "tool")) [
  | inr other ↦ absurd (cc (rw other at h))
  | inl tool ↦ (
    is_text-some m.role "tool" tool,
    elim (Bool-cases (is_text m.function_name "browser_view")) [
      | inl view ↦ inl (is_text-some m.function_name "browser_view" view)
      | inr not_view ↦
          inr (is_text-some m.function_name "browser_navigate" (rw (tool, not_view) at h))
    ],
  )
]

other-IsPage : (m : ChatMessage) → is_browser_result m ≡ false → ¬ IsPage m
unfolding is_browser_result get_message_role
other-IsPage m h (tool, inl view) = cc (
    rw (tool, view, (eq_iff "tool" "tool").1 refl, (eq_iff "browser_view" "browser_view").1 refl) at
      h)
other-IsPage m h (tool, inr navigate) = cc (rw (tool, navigate) at h)

-- The messages correspond one to one.
abbrev pub CompactedAll : List ChatMessage → List ChatMessage → Type 0
CompactedAll [] [] = Unit
CompactedAll [] (m ∷ ms) = ⊥
CompactedAll (m ∷ ms) [] = ⊥
CompactedAll (m ∷ ms) (n ∷ ns) = Compacted m n × CompactedAll ms ns

compact_message-Compacted : (m : ChatMessage) → Compacted m (compact_message m)
unfolding compact_message
compact_message-Compacted m = record {
  no_reasoning = refl;
  content = elim (Bool-cases (is_browser_result m)) [
    | inl browser ↦ inl (is_browser_result-IsPage m browser, rw browser)
    | inr other ↦ inr (other-IsPage m other, rw other)
  ];
  same_role = refl;
  same_calls = refl;
  same_answer = refl;
  same_function = refl;
}

-- Compacting keeps what the test for a browser tool reads.
is_browser_result-compact_message :
    (m : ChatMessage) → is_browser_result (compact_message m) ≡ is_browser_result m
unfolding compact_message is_browser_result
is_browser_result-compact_message m = refl

compact_message-twice : (m : ChatMessage) → compact_message (compact_message m) ≡ compact_message m
unfolding compact_message
compact_message-twice m = elim (Bool-cases (is_browser_result m)) [
  | inl browser ↦ rw (is_browser_result-compact_message m, browser) refl
  | inr other ↦ rw (is_browser_result-compact_message m, other) refl
]

all-Compacted : (ms : List ChatMessage) → CompactedAll ms (map compact_message ms)
all-Compacted [] = tt
all-Compacted (m ∷ ms) = (compact_message-Compacted m, all-Compacted ms)

all-twice :
    (ms : List ChatMessage) → map compact_message (map compact_message ms) ≡ map compact_message ms
all-twice [] = refl
all-twice (m ∷ ms) = cc (compact_message-twice m, all-twice ms)

-- `compact` keeps the messages one for one in their order: it removes the reasoning of each and the
-- content of tool results of `browser_view` and `browser_navigate` only, and leaves the rest of each as it was. Compacting again
-- changes nothing.
pub compact_lem :
    (memory : Memory)
    → CompactedAll memory.messages (compact memory).messages
      × (compact (compact memory) ≡ compact memory)
unfolding compact
compact_lem memory =
    (all-Compacted memory.messages, ap (λ ms. record { messages = ms }) (all-twice memory.messages))
