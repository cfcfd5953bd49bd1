-- ===== src/Words.antt =====
-- The integers of the kernel modules: `u32` and `u64` are numbers below their modulus; an `s64` is its
-- bit pattern, a number below 2^64, and its arithmetic wraps, as the kernel is compiled. An `int` that
-- `sysctl` sets is a `ℤ`.
use mq_ecn.Common.{ℕ, ◌+◌, ◌-◌, ◌*◌, ◌/◌, ◌%◌, ℤ, pos, negsuc, Bool, ltb, leb, if◌then◌else◌}

abbrev pub u32_mod : ℕ
u32_mod = 4294967296

abbrev pub u64_mod : ℕ
u64_mod = 18446744073709551616

-- The first bit pattern of a negative `s64`.
abbrev pub s64_min : ℕ
s64_min = 9223372036854775808

abbrev pub add32 : ℕ → ℕ → ℕ
add32 a b = (a + b) % u32_mod

abbrev pub sub32 : ℕ → ℕ → ℕ
sub32 a b = (a + u32_mod - b) % u32_mod

abbrev pub add64 : ℕ → ℕ → ℕ
add64 a b = (a + b) % u64_mod

abbrev pub sub64 : ℕ → ℕ → ℕ
sub64 a b = (a + u64_mod - b) % u64_mod

abbrev pub mul64 : ℕ → ℕ → ℕ
mul64 a b = (a * b) % u64_mod

abbrev pub is_negative : ℕ → Bool
is_negative a = leb s64_min a

-- `a < b` for `s64`: the sign bit turned round orders the patterns.
abbrev pub lt64 : ℕ → ℕ → Bool
lt64 a b = ltb ((a + s64_min) % u64_mod) ((b + s64_min) % u64_mod)

-- `min_t(s64, a, b)`.
abbrev pub min_s64 : ℕ → ℕ → ℕ
min_s64 a b = if lt64 a b then a else b

-- `a >> k` for `s64`, with `d` for 2^k: the sign is kept.
abbrev pub shr_s64 : ℕ → ℕ → ℕ
shr_s64 a d = if is_negative a then u64_mod - 1 - (u64_mod - 1 - a) / d else a / d

-- `div_s64(a, b)` for a positive `b`, towards zero.
abbrev pub div_s64 : ℕ → ℕ → ℕ
div_s64 a b = if is_negative a then (u64_mod - (u64_mod - a) / b) % u64_mod else a / b

-- An `int` where a `u32` is expected.
abbrev pub to_u32 : ℤ → ℕ
to_u32 (pos n) = n % u32_mod
to_u32 (negsuc n) = u32_mod - 1 - n % u32_mod

-- An `int` where a `u64` or an `s64` is expected.
abbrev pub to_u64 : ℤ → ℕ
to_u64 (pos n) = n % u64_mod
to_u64 (negsuc n) = u64_mod - 1 - n % u64_mod

abbrev pub is_positive : ℤ → Bool
is_positive (pos n) = ltb 0 n
is_positive (negsuc n) = Bool.false
