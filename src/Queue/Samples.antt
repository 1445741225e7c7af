-- ===== src/Queue/Samples.antt =====
-- redis_stream_message_queue.py on a small server: runs of two callers, and the theorems on runs at them.
use boxify_agent.Prelude.{
  String, ℕ, zero, suc, Bool, true, false, not, Option, none, some, List, [], ◌∷◌, ◌++◌, ◌≡◌, ◌≢◌,
  refl, ap, arith, eq_iff, ◌==◌, if◌then◌else◌, find, nat_eq,
}
use boxify_agent.Queue.{Entry, Redis, answered, lost_after, acquiring, locked, returned, run_pop}
use boxify_agent.Queue.System.{Act, produce, begin, step, expire, act, run, AllAllowed, value_of}
use boxify_agent.Queue.Fifo.{is_over, started, run_fifo, run_alone}
use boxify_agent.Queue.Pop.{Popped, run_pop_ends, run_pop_lem}

-- A server in memory: the stream, whose entries take their content for an id, and the lock.
pub record Memory : Type 0 where
  pub stream : List Entry
  pub key : Option String

abbrev drop_first : String → List Entry → List Entry
drop_first i [] = []
drop_first i (e ∷ es) = if e.id == i then es else e ∷ drop_first i es

abbrev set_if_free : String → List Entry → Option String → Bool × Memory
set_if_free v es none = (true, record { stream = es; key = some v })
set_if_free v es (some w) = (false, record { stream = es; key = some w })

set_if_free-none :
    (v : String) (s : Memory)
    → s.key ≡ none
    → ((set_if_free v s.stream s.key).0 ≡ true) × ((set_if_free v s.stream s.key).1.key ≡ some v)
set_if_free-none v s free = rw free (refl, refl)

set_if_free-some :
    (v w : String) (s : Memory)
    → s.key ≡ some w
    → ((set_if_free v s.stream s.key).0 ≡ false) × ((set_if_free v s.stream s.key).1.key ≡ some w)
set_if_free-some v w s held = rw held (refl, refl)

stream-set_if_free :
    (v : String) (es : List Entry) (o : Option String) → (set_if_free v es o).1.stream ≡ es
stream-set_if_free v es none = refl
stream-set_if_free v es (some w) = refl

drop_first-cons :
    (e : Entry) (rest : List Entry) (s : Memory)
    → s.stream ≡ e ∷ rest
    → drop_first e.id s.stream ≡ rest
drop_first-cons e rest s h = rw (h, (eq_iff e.id e.id).1 refl) refl

abbrev memory : Redis
memory = record {
  Server = Memory;
  entries = λ s. s.stream;
  lock = λ s. s.key;
  set_nx = λ v s. set_if_free v s.stream s.key;
  del = λ s. record s { key = none };
  xadd = λ d s. (d, record s { stream = s.stream ++ (record { id = d; content = d }) ∷ [] });
  xdel = λ i s. record s { stream = drop_first i s.stream };
  xtrim = λ s. record s { stream = [] };
  xread = λ i s. find (λ e. not (e.id == i)) s.stream;
  set_nx_free = set_if_free-none;
  set_nx_held = set_if_free-some;
  entries-set_nx = λ v s. stream-set_if_free v s.stream s.key;
  lock-del = λ s. refl;
  entries-del = λ s. refl;
  lock-xadd = λ d s. refl;
  entries-xadd = λ d s. refl;
  lock-xdel = λ i s. refl;
  entries-xdel = drop_first-cons;
}

abbrev empty : Memory
empty = record { stream = []; key = none }

abbrev one : Memory
one = record { stream = (record { id = "m"; content = "m" }) ∷ []; key = none }

-- Two messages, and a caller that takes the first one while another one waits for the lock.
abbrev two_callers : List Act
two_callers =
    produce "m"
    ∷ begin 0 "u" 50
    ∷ begin 1 "v" 50
    ∷ step 0 answered
    ∷ step 1 answered
    ∷ produce "n"
    ∷ step 0 answered
    ∷ step 0 answered
    ∷ step 0 answered
    ∷ step 1 answered
    ∷ []

abbrev m : Entry
m = record { id = "m"; content = "m" }

first_returned : (run memory two_callers (started memory empty)).callers 0 ≡ returned (some m)
unfolding run
first_returned = refl

second_locked : (run memory two_callers (started memory empty)).callers 1 ≡ locked "v"
unfolding run
second_locked = refl

-- If the lock expires while it is held, two callers return the same message.
abbrev expired : List Act
expired =
    produce "m"
    ∷ begin 0 "u" 50
    ∷ step 0 answered
    ∷ step 0 answered
    ∷ expire
    ∷ begin 1 "v" 50
    ∷ step 1 answered
    ∷ step 1 answered
    ∷ step 0 answered
    ∷ step 1 answered
    ∷ step 0 answered
    ∷ step 1 answered
    ∷ []

returned_twice :
    ((run memory expired (started memory empty)).callers 0 ≡ returned (some m))
    × ((run memory expired (started memory empty)).callers 1 ≡ returned (some m))
unfolding run
returned_twice = (refl, refl)

abbrev text_of : Option String → String
text_of none = ""
text_of (some s) = s

uuids_differ :
    (j : ℕ) → value_of (if nat_eq j 0 then acquiring "u" 50 else returned none) ≢ some "v"
uuids_differ zero e = cc ((eq_iff "u" "v").1 (ap text_of e))
uuids_differ (suc j) e = ground arith

two_callers-AllAllowed : AllAllowed memory two_callers (started memory empty)
unfolding act
two_callers-AllAllowed = (
  tt,
  ((refl, λ j e. cc e), ((refl, uuids_differ), (tt, (tt, (tt, (tt, (tt, (tt, (tt, tt))))))))),
)

run_fifo_example :
    (run memory two_callers (started memory empty)).added
    ≡ (run memory two_callers (started memory empty)).gone
      ++ (run memory two_callers (started memory empty)).server.stream
run_fifo_example = run_fifo memory two_callers empty two_callers-AllAllowed

run_alone_example : ◌≡◌ {A = ℕ} 1 1
unfolding run
run_alone_example = run_alone memory two_callers empty 1 1 "v" "v" two_callers-AllAllowed refl refl

run_pop_ends_example : is_over (run_pop memory (λ _. lost_after) 53 (acquiring "u" 50) one).0 ≡ true
run_pop_ends_example = run_pop_ends memory (λ _. lost_after) 50 "u" one

run_pop_lem_example :
    Popped memory (some m) [] (run_pop memory (λ _. answered) 4 (acquiring "u" 50) one)
run_pop_lem_example = run_pop_lem memory 49 "u" one refl
