-- ===== src/Plugin/Int32.antt =====
-- The int32_t of exercises/interoplab/plugin.h, as integers in a range.
use going_unmanaged.Prelude.{ℕ, zero, suc, ◌*◌, Bool, false, ltb}

pub data ℤ : Type 0 where
  pos : ℕ → ℤ
  negsuc : ℕ → ℤ

abbrev pub neg : ℕ → ℤ
neg zero = pos zero
neg (suc n) = negsuc n

unfoldable pub times : ℤ → ℤ → ℤ
times (pos a) (pos b) = pos (a * b)
times (pos a) (negsuc b) = neg (a * suc b)
times (negsuc a) (pos b) = neg (suc a * b)
times (negsuc a) (negsuc b) = pos (suc a * suc b)

unfoldable pub fits : ℤ → Bool
fits (pos n) = ltb n 0x80000000
fits (negsuc n) = ltb n 0x80000000

unfoldable pub is_positive : ℤ → Bool
is_positive (pos n) = ltb 0 n
is_positive (negsuc n) = false
