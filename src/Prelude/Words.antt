-- ===== src/Prelude/Words.antt =====
-- Machine words as native numbers: the wrap-around is written out.
use Prim.Native.Nat.{ℕ, ◌+◌, ◌-◌, ◌%◌, ◌^◌, ◌<◌}
use mathlib.Core.Path.{◌≡◌}
use native.Mathlib.Omega.{arith}

abbrev pub wrap16 : ℕ → ℕ
wrap16 n = n % 2 ^ 16

abbrev pub wrap32 : ℕ → ℕ
wrap32 n = n % 2 ^ 32

abbrev pub wrap64 : ℕ → ℕ
wrap64 n = n % 2 ^ 64

-- `a + b` and `a - b` of two `uint32_t`.
unfoldable pub add32 : ℕ → ℕ → ℕ
add32 a b = (a + b) % 2 ^ 32

unfoldable pub sub32 : ℕ → ℕ → ℕ
sub32 a b = (a + 2 ^ 32 - b % 2 ^ 32) % 2 ^ 32

pub add32-lt : (a b : ℕ) → add32 a b < 2 ^ 32
unfolding add32
add32-lt a b = omega arith

pub sub32-lt : (a b : ℕ) → sub32 a b < 2 ^ 32
unfolding sub32
sub32-lt a b = omega arith

-- Subtracting what was added gives the word back, whatever was added.
pub sub32-add32 : (a b : ℕ) → a < 2 ^ 32 → sub32 (add32 a b) b ≡ a
unfolding add32 sub32
sub32-add32 a b h = omega arith

pub add32-sub32 : (a b : ℕ) → a < 2 ^ 32 → add32 (sub32 a b) b ≡ a
unfolding add32 sub32
add32-sub32 a b h = omega arith

-- A sum that fits does not wrap.
pub add32-eq_add : (a b : ℕ) → a + b < 2 ^ 32 → add32 a b ≡ a + b
unfolding add32
add32-eq_add a b h = omega arith
