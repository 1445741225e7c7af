-- ===== src/Prelude/Int.antt =====
-- Integers over the native numbers, under the library's names, for a signed column of a table.
use Prim.Native.Nat.{ℕ, zero, suc}
use boxify_agent.Prelude.Tests.{leb, if◌then◌else◌}

-- `negsuc n` is -(n + 1).
pub data ℤ : Type 0 where
  pos negsuc : ℕ → ℤ

abbrev pub succ_ℤ : ℤ → ℤ
succ_ℤ (pos n) = pos (suc n)
succ_ℤ (negsuc zero) = pos 0
succ_ℤ (negsuc (suc n)) = negsuc n

abbrev pub pred_ℤ : ℤ → ℤ
pred_ℤ (pos zero) = negsuc 0
pred_ℤ (pos (suc n)) = pos n
pred_ℤ (negsuc n) = negsuc (suc n)

abbrev pub greatest : ℤ → ℤ → ℤ
greatest (pos m) (pos n) = if leb m n then pos n else pos m
greatest (pos m) (negsuc n) = pos m
greatest (negsuc m) (pos n) = pos n
greatest (negsuc m) (negsuc n) = if leb m n then negsuc m else negsuc n
