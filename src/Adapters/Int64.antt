-- ===== src/Adapters/Int64.antt =====
-- Go's int64, given by its bit pattern: a number below 2 ^ 64, of which the upper half is negative.
use chainplane.Prelude.{ℕ, ◌+◌, ◌-◌, ◌*◌, ◌%◌, ◌^◌, Bool, ltb, if◌then◌else◌}

-- The order of the signed values is that of these numbers.
abbrev pub signed : ℕ → ℕ
signed n = (n + 2 ^ 63) % 2 ^ 64

-- a < b
abbrev pub lt64 : ℕ → ℕ → Bool
lt64 a b = ltb (signed a) (signed b)

-- 0 < a
abbrev pub is_positive : ℕ → Bool
is_positive a = lt64 0 a

abbrev pub add64 : ℕ → ℕ → ℕ
add64 a b = (a + b) % 2 ^ 64

abbrev pub sub64 : ℕ → ℕ → ℕ
sub64 a b = (a + 2 ^ 64 - b % 2 ^ 64) % 2 ^ 64

abbrev pub minus_one : ℕ
minus_one = 2 ^ 64 - 1

-- int32(a), again by its bit pattern
abbrev pub to_int32 : ℕ → ℕ
to_int32 a = a % 2 ^ 32

-- int64(a) of an int32
abbrev pub sign_extend : ℕ → ℕ
sign_extend a = if ltb a (2 ^ 31) then a else a + (2 ^ 64 - 2 ^ 32)

abbrev pub mul64 : ℕ → ℕ → ℕ
mul64 a b = a * b % 2 ^ 64
