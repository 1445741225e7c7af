-- ===== src/Store/Unread.antt =====
-- db_session_repository.py: the statements on the unread counter of a session.
use boxify_agent.Prelude.{
  String, ℕ, pos, zero, suc, ◌+◌, ◌-◌, ◌≡◌, refl, ap, ◌∙◌, greatest, pred_ℤ, succ_ℤ, arith, some,
  List, [], ◌∷◌, map, eq_iff,
}
use boxify_agent.Session.{Session}
use boxify_agent.Store.{
  Database, row_of, update_session_row, update_unread_message_count, increment_unread_message_count,
  decrement_unread_message_count,
}
use boxify_agent.Store.Tables.{row_of-update_rows}
use boxify_agent.Store.Calls.{Call, sets_unread, increments, decrements, run_call, run_calls}

-- The three statements on the counter, and what each makes of a count.
pub data Count : Type 0 where
  up down : Count
  reset : ℕ → Count

abbrev pub call_of : String → Count → Call
call_of id up = increments id
call_of id down = decrements id
call_of id (reset n) = sets_unread id (pos n)

pub count_after : List Count → ℕ → ℕ
count_after [] n = n
count_after (up ∷ cs) n = count_after cs (n + 1)
count_after (down ∷ cs) n = count_after cs (n - 1)
count_after (reset k ∷ cs) n = count_after cs k

update_session_row_self :
    (id : String) (change : Session → Session) (db : Database) (row : Session)
    → ((r : Session) → (change r).id ≡ r.id)
    → row_of id db.sessions ≡ some row
    → row_of id (update_session_row id change db).1.sessions ≡ some (change row)
unfolding update_session_row
update_session_row_self id change db row keeps e =
    rw e (rw (row_of-update_rows id id change db.sessions keeps, e, (eq_iff id id).1 refl))

-- An integer that is decremented and kept from falling below zero is a natural number that stops there.
greatest-pred_ℤ : (n : ℕ) → greatest (pred_ℤ (pos n)) (pos 0) ≡ pos (n - 1)
greatest-pred_ℤ zero = refl
greatest-pred_ℤ (suc n) = ground arith

-- Any increments, decrements and resets to natural numbers leave a session whose count is one with the
-- count of a natural number that stops at zero, so never a negative one, and with every other field as it was.
pub run_calls-unread :
    (id : String) (counts : List Count) (db : Database) (row : Session) (n : ℕ)
    → row_of id db.sessions ≡ some row
    → row.unread_message_count ≡ pos n
    → row_of id (run_calls (map (call_of id) counts) db).sessions
      ≡ some (record row { unread_message_count = pos (count_after counts n) })
unfolding run_calls run_call update_unread_message_count increment_unread_message_count
    decrement_unread_message_count count_after
run_calls-unread id [] db row n e c = e ∙ ap (λ k. some (record row { unread_message_count = k })) c
run_calls-unread id (up ∷ cs) db row n e c =
    run_calls-unread id cs _ _ (n + 1) (update_session_row_self id _ db row (λ r. refl) e)
      (ap succ_ℤ c ∙ ap pos (omega arith))
run_calls-unread id (down ∷ cs) db row n e c =
    run_calls-unread id cs _ _ (n - 1) (update_session_row_self id _ db row (λ r. refl) e)
      (ap (λ k. greatest (pred_ℤ k) (pos 0)) c ∙ greatest-pred_ℤ n)
run_calls-unread id (reset k ∷ cs) db row n e c =
    run_calls-unread id cs _ _ k (update_session_row_self id _ db row (λ r. refl) e) refl
