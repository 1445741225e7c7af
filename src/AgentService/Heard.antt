-- ===== src/AgentService/Heard.antt =====
-- app/application/services/agent_service.py: the events that a chat takes from the output stream of its
-- task and yields.
use mathlib.Core.List.{append_assoc, append-nil}
use boxify_agent.Prelude.{
  pos, String, ℕ, zero, suc, Bool, true, false, ◌≡◌, refl, ap, sym, ◌∙◌, Option, none, some, List,
  [], ◌∷◌, ◌++◌, map, if◌then◌else◌, Bool-cases, ◌⊎◌, inl, inr, arith, subst, Elem, All, ltb, ◌<◌,
  All-Elem,
}
use boxify_agent.Result.{Exec, Result, ok, err, Result-cases}
use boxify_agent.Event.{
  Event, EventBody, plan_event, title_event, step_event, message_event, tool_event, error_event,
  wait_event, done_event,
}
use boxify_agent.Store
use boxify_agent.Tasks
use boxify_agent.AgentService.{
  Outside, ChatState, Reading, nothing, blank, entry, paused, in_store, heard, deliver, listen,
  is_final,
}

-- The events that end a round: done, error and wait.
abbrev pub closes : EventBody → Bool
closes (plan_event p s) = false
closes (title_event t) = false
closes (step_event t s) = false
closes (message_event m) = false
closes (tool_event c) = false
closes (error_event t) = true
closes wait_event = true
closes done_event = true

closes-is_final : (i : String) (b : EventBody) → is_final (record { id = i; body = b }) ≡ closes b
unfolding is_final
closes-is_final i (plan_event p s) = refl
closes-is_final i (title_event t) = refl
closes-is_final i (step_event t s) = refl
closes-is_final i (message_event m) = refl
closes-is_final i (tool_event c) = refl
closes-is_final i (error_event t) = refl
closes-is_final i wait_event = refl
closes-is_final i done_event = refl

-- The entries of a stream from the first whose id is greater than the given one, or from the start. An id
-- is compared as a number, and need not be the id of an entry.
abbrev pub after : (String → ℕ) → Option String → List (String × Event) → List (String × Event)
after rank none es = es
after rank (some id) [] = []
after rank (some id) ((i, e) ∷ es) =
    if ltb (rank id) (rank i) then (i, e) ∷ es else after rank (some id) es

abbrev pub stamped : String × Event → Event
stamped (i, e) = record e { id = i }

-- The events up to the first that ends a round, with that one.
unfoldable pub until_final : List Event → List Event
until_final [] = []
until_final (e ∷ es) = e ∷ (if closes e.body then [] else until_final es)

-- An answer to a read that waits for as long as it takes: the first entry, read by pydantic or not.
abbrev pub Answers : Reading → List (String × Event) → Type 0
Answers nothing es = ⊥
Answers (blank i) es = ⊥
Answers (entry i (ok e)) es = (rest : List (String × Event)) × (es ≡ (i, e) ∷ rest)
Answers (entry i (err error)) es = Unit {0}

-- A run that began in one state has yielded the first of some events, and all of them if it ended while
-- the task went on.
pub record Delivered (task : String) (events : List Event) (st : ChatState)
    (r : Result Bool × ChatState) : Type 0 where
  pub news : List Event
  pub left : List Event
  pub yields : r.1.yielded ≡ st.yielded ++ news
  pub prefix : news ++ left ≡ events
  pub complete : r.0 ≡ ok true → (Tasks.done task r.1.tasks ≡ true) ⊎ (left ≡ [])

abbrev pub entry_ids : List (String × Event) → List String
entry_ids es = map (λ (x : String × Event). x.0) es

-- The ids of a stream grow.
abbrev pub Increasing : (String → ℕ) → List (String × Event) → Type 0
Increasing rank [] = Unit {0}
Increasing rank ((i, e) ∷ es) = All (λ k. rank i < rank k) (entry_ids es) × Increasing rank es

module _ (rank : String → ℕ) where
  after-greater :
      (i : String) (es : List (String × Event))
      → All (λ k. rank i < rank k) (entry_ids es)
      → after rank (some i) es ≡ es
  after-greater i [] h = refl
  after-greater i ((j, e) ∷ es) h = ground (arith, h.0)

  first-Elem :
      (i : String) (e : Event) (rest es : List (String × Event))
      → es ≡ (i, e) ∷ rest
      → Elem i (entry_ids es)
  first-Elem i e rest es h = subst (λ l. Elem i (entry_ids l)) (sym h) (inl refl)

  head-after-Elem :
      (start : Option String) (i : String) (e : Event) (rest es : List (String × Event))
      → after rank start es ≡ (i, e) ∷ rest
      → Elem i (entry_ids es)
  head-after-Elem none i e rest es h = first-Elem i e rest es h
  head-after-Elem (some s) i e rest [] h = cc h
  head-after-Elem (some s) i e rest ((j, e') ∷ es) h = elim (Bool-cases (ltb (rank s) (rank j))) [
    | inl here ↦ first-Elem i e rest ((j, e') ∷ es) (rw here at h)
    | inr there ↦ inr (head-after-Elem (some s) i e rest es (rw there at h))
  ]

  after-smaller :
      (i j : String) (e : Event) (es : List (String × Event))
      → rank j < rank i
      → after rank (some i) ((j, e) ∷ es) ≡ after rank (some i) es
  after-smaller i j e es h = ground (arith, h)

  after-first :
      (i : String) (e : Event) (rest es : List (String × Event))
      → Increasing rank es
      → es ≡ (i, e) ∷ rest
      → after rank (some i) es ≡ rest
  after-first i e rest es d h =
      let d' : Increasing rank ((i, e) ∷ rest) = subst (Increasing rank) h d in
      let all = after-greater i rest d'.0 in
      subst (λ l. after rank (some i) l ≡ rest) (sym h) (ground (arith, all))

  after-head :
      (start : Option String) (i : String) (e : Event) (rest es : List (String × Event))
      → Increasing rank es
      → after rank start es ≡ (i, e) ∷ rest
      → after rank (some i) es ≡ rest
  after-head none i e rest es d h = after-first i e rest es d h
  after-head (some s) i e rest [] d h = cc h
  after-head (some s) i e rest ((j, e') ∷ es) d h = elim (Bool-cases (ltb (rank s) (rank j))) [
    | inl here ↦ after-first i e rest ((j, e') ∷ es) d (rw here at h)
    | inr there ↦
        let next : after rank (some s) es ≡ (i, e) ∷ rest = rw there at h in
        after-smaller i j e' es
          (All-Elem (λ k. rank j < rank k) _ d.0 (head-after-Elem (some s) i e rest es next))
        ∙ after-head (some s) i e rest es d.1 next
  ]

module _ (task : String) where
  none-Delivered :
      (events : List Event) (st st' : ChatState) (r : Result Bool)
      → st'.yielded ≡ st.yielded
      → (r ≡ ok true → Tasks.done task st'.tasks ≡ true)
      → Delivered task events st (r, st')
  none-Delivered events st st' r same over = record {
    news = [];
    left = events;
    yields = same ∙ sym (append-nil st.yielded);
    prefix = refl;
    complete = λ t. inl (over t);
  }

  all-Delivered : (st : ChatState) → Delivered task [] st (ok true, st)
  all-Delivered st = record {
    news = [];
    left = [];
    yields = sym (append-nil st.yielded);
    prefix = refl;
    complete = λ t. inr refl;
  }

  paused-Delivered :
      (events : List Event) (st st' : ChatState) (r : Result Bool × ChatState)
      → st'.yielded ≡ st.yielded
      → Delivered task events st' r
      → Delivered task events st r
  paused-Delivered events st st' r same d = record {
    news = d.news;
    left = d.left;
    yields = d.yields ∙ ap (λ l. l ++ d.news) same;
    prefix = d.prefix;
    complete = d.complete;
  }

  more-Delivered :
      (e : Event) (events : List Event) (st st' : ChatState) (r : Result Bool × ChatState)
      → st'.yielded ≡ st.yielded ++ e ∷ []
      → Delivered task events st' r
      → Delivered task (e ∷ events) st r
  more-Delivered e events st st' r one d = record {
    news = e ∷ d.news;
    left = d.left;
    yields = d.yields ∙ ap (λ l. l ++ d.news) one ∙ append_assoc st.yielded (e ∷ []) d.news;
    prefix = ap (λ l. e ∷ l) d.prefix;
    complete = d.complete;
  }

module _ (user_id : String) (remembers : Bool) (outside : Outside) (id task : String)
    (rank : String → ℕ) (stream : List (String × Event)) (grows : Increasing rank stream)
    (reads : (n : ℕ) (start : Option String) (r : Reading)
      → outside.read_output n task start ≡ ok r
      → Answers r (after rank start stream)) where
  abbrev rest_of : Option String → List Event
  rest_of start = until_final (map stamped (after rank start stream))

  deliver-Delivered :
      (next : Option String → Exec ChatState Bool) (i : String) (e : Event) (events : List Event)
      (st : ChatState)
      → ((st' : ChatState) → Delivered task events st' (next (some i) st'))
      → Delivered task
          (e ∷ (if is_final e then [] else events))
          st
          (deliver user_id remembers outside id next i e st)
  deliver-Delivered next i e events st h =
      let r =
        in_store user_id remembers outside (Store.update_unread_message_count id (pos 0)) st in
      elim (Result-cases r.0) [
        | inr (error, failed) ↦
            rw failed (none-Delivered task _ st r.1 (err error) refl (λ t. cc t))
        | inl (u, done) ↦ elim (Bool-cases (is_final e)) [
          | inl final ↦
              rw (done, final) (more-Delivered task e [] st _ _ refl (all-Delivered task _))
          | inr other ↦ rw (done, other) (more-Delivered task e events st _ _ refl (h _))
        ]
      ]

  heard-Delivered :
      (next : Option String → Exec ChatState Bool) (start : Option String) (r : Reading)
      (st : ChatState)
      → Answers r (after rank start stream)
      → ((start' : Option String) (st' : ChatState)
          → Delivered task (rest_of start') st' (next start' st'))
      → Delivered task (rest_of start) st (heard user_id remembers outside id next r st)
  unfolding until_final
  heard-Delivered next start nothing st a h = absurd a
  heard-Delivered next start (blank i) st a h = absurd a
  heard-Delivered next start (entry i (err error)) st a h =
      none-Delivered task (rest_of start) st st (err error) refl (λ t. cc t)
  heard-Delivered next start (entry i (ok e)) st (rest, same) h =
      let e' : Event = record e { id = i } in
      let found : rest_of start ≡ e' ∷ (if is_final e' then [] else rest_of (some i)) =
        rw (same, after-head rank start i e rest stream grows same, closes-is_final i e.body)
          refl in
      subst (λ events. Delivered task events st (deliver user_id remembers outside id next i e' st))
        (sym found) (deliver-Delivered next i e' (rest_of (some i)) st (h (some i)))

  -- If the ids of the output stream grow, and every read of it raises or answers with the first entry whose id
  -- is greater than the given one, be it the id of an entry or not, the events that the loop of `chat`
  -- yields are the first of the entries after its start, each once, in order and with its id, none after the
  -- first done, error or wait event; if the loop ends while the task goes on, it has yielded all up to
  -- that event.
  pub listen-Delivered :
      (n : ℕ) (start : Option String) (st : ChatState)
      → Delivered task (rest_of start) st (listen user_id remembers outside id n task start st)
  unfolding listen
  listen-Delivered zero start st =
      none-Delivered task (rest_of start) st st (ok false) refl (λ t. cc t)
  listen-Delivered (suc n) start st = elim (Bool-cases (Tasks.done task st.tasks)) [
    | inl over ↦
        rw (over, listen) (none-Delivered task (rest_of start) st st (ok true) refl (λ t. over))
    | inr on ↦
        rw (on, listen)
          (elim (Result-cases (outside.read_output st.awaits task start)) [
            | inr (error, failed) ↦
                rw failed (none-Delivered task (rest_of start) st _ (err error) refl (λ t. cc t))
            | inl (r, answered) ↦ rw answered (
                paused-Delivered task (rest_of start) st (paused user_id remembers outside st) _
                  refl
                  (heard-Delivered (listen user_id remembers outside id n task) start r _
                    (reads st.awaits start r answered) (listen-Delivered n)))
          ])
  ]
