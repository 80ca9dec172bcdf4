-- ===== src/Int.antt =====
-- C's signed `int`, as far as the kernel uses it: return codes, of which the errors of inc/error.h
-- are negative.
use fos_v.Base.{ℕ, suc, Bool, false, ◌==◌}

-- `negsuc n` is -(n + 1).
pub data ℤ : Type 0 where
  pos : ℕ → ℤ
  negsuc : ℕ → ℤ

abbrev pub eq_int : ℤ → ℤ → Bool
eq_int (pos a) (pos b) = a == b
eq_int (negsuc a) (negsuc b) = a == b
eq_int (pos a) (negsuc b) = false
eq_int (negsuc a) (pos b) = false

abbrev pub is_negative : ℤ → Bool
is_negative (pos a) = false
is_negative (negsuc a) = Bool.true

-- unary minus
abbrev pub neg : ℤ → ℤ
neg (pos ℕ.zero) = pos 0
neg (pos (suc n)) = negsuc n
neg (negsuc n) = pos (suc n)

abbrev pub success : ℤ
success = pos 0

abbrev pub e_bad_env : ℤ
e_bad_env = negsuc 1

abbrev pub e_inval : ℤ
e_inval = negsuc 2

abbrev pub e_no_mem : ℤ
e_no_mem = negsuc 3

abbrev pub e_no_free_env : ℤ
e_no_free_env = negsuc 4
