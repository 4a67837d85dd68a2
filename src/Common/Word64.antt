-- ===== src/Common/Word64.antt =====
-- Go's `int64` and `uint64`, as their bit patterns: numbers below 2 ^ 64, in two's complement. So a
-- conversion between the two types keeps the number, and -1 is 2 ^ 64 - 1.
use Prim.Native.Nat.{ℕ, ◌+◌, ◌-◌, ◌%◌, ◌^◌, ◌<◌}
use mathlib.Core.Path.{◌≡◌}
use native.Mathlib.Omega.{arith}

abbrev pub modulus : ℕ
modulus = 2 ^ 64

-- the pattern of -k, for 0 < k
abbrev pub minus : ℕ → ℕ
minus k = modulus - k

-- a + b, with its wrap-around
abbrev pub add64 : ℕ → ℕ → ℕ
add64 a b = (a + b) % modulus

pub add64-lt-modulus : (a b : ℕ) → add64 a b < modulus
add64-lt-modulus a b = omega arith

-- Two increments, one after the other.
pub add64_assoc : (a b c : ℕ) → add64 (add64 a b) c ≡ add64 a (b + c)
add64_assoc a b c = omega arith
