-- ===== src/Prelude/Words.antt =====
-- Arithmetic on machine words in a build with overflow checks (`overflow-checks = true` in
-- Cargo.toml): an operation whose result does not fit panics.
use Prim.Native.Nat.{ℕ, ◌+◌, ◌-◌, ◌*◌, ◌/◌, ◌^◌, ◌≤◌, ◌<◌}
use Prim.Native.String.{String}
use mathlib.Core.Path.{◌≡◌}
use native.Mathlib.Omega.{arith}
use cheddar.Prelude.Tests.{ltb, leb, ◌==◌, if◌then◌else◌}
use cheddar.Prelude.Results.{Result, ok, panic}

-- One more than the largest `u64`, `u128` and `U256`.
abbrev pub u64_limit : ℕ
u64_limit = 2 ^ 64

abbrev pub u128_limit : ℕ
u128_limit = 2 ^ 128

abbrev pub u256_limit : ℕ
u256_limit = 2 ^ 256

-- A value that has to fit below `limit`.
unfoldable pub fit : ℕ → String → ℕ → Result ℕ
fit limit message x = if ltb x limit then ok x else panic message

unfoldable pub add_u64 : ℕ → ℕ → Result ℕ
add_u64 a b = fit u64_limit "attempt to add with overflow" (a + b)

unfoldable pub mul_u64 : ℕ → ℕ → Result ℕ
mul_u64 a b = fit u64_limit "attempt to multiply with overflow" (a * b)

unfoldable pub add_u128 : ℕ → ℕ → Result ℕ
add_u128 a b = fit u128_limit "attempt to add with overflow" (a + b)

unfoldable pub mul_u128 : ℕ → ℕ → Result ℕ
mul_u128 a b = fit u128_limit "attempt to multiply with overflow" (a * b)

unfoldable pub mul_u256 : ℕ → ℕ → Result ℕ
mul_u256 a b = fit u256_limit "arithmetic operation overflow" (a * b)

-- `U256::as_u128`
unfoldable pub as_u128 : ℕ → Result ℕ
as_u128 x = fit u128_limit "Integer overflow when casting to u128" x

-- Subtraction and division are the same at every width.
unfoldable pub checked_sub : ℕ → ℕ → Result ℕ
checked_sub a b = if leb b a then ok (a - b) else panic "attempt to subtract with overflow"

unfoldable pub checked_div : ℕ → ℕ → Result ℕ
checked_div a b = if b == 0 then panic "attempt to divide by zero" else ok (a / b)

pub fit-ok : (limit : ℕ) (message : String) (x : ℕ) → x < limit → fit limit message x ≡ ok x
unfolding fit
fit-ok limit message x h = ground arith

pub fit_inv :
    (limit : ℕ) (message : String) (x : ℕ) {y : ℕ}
    → fit limit message x ≡ ok y
    → (x < limit) × (y ≡ x)
unfolding fit
fit_inv limit message x h = ground arith

pub add_u128-ok : (a b : ℕ) → a + b < u128_limit → add_u128 a b ≡ ok (a + b)
unfolding add_u128
add_u128-ok a b h = fit-ok _ _ _ h

pub add_u128_inv : (a b : ℕ) {c : ℕ} → add_u128 a b ≡ ok c → (a + b < u128_limit) × (c ≡ a + b)
unfolding add_u128
add_u128_inv a b h = fit_inv _ _ _ h

pub mul_u128_inv : (a b : ℕ) {c : ℕ} → mul_u128 a b ≡ ok c → (a * b < u128_limit) × (c ≡ a * b)
unfolding mul_u128
mul_u128_inv a b h = fit_inv _ _ _ h

pub mul_u128-ok : (a b : ℕ) → a * b < u128_limit → mul_u128 a b ≡ ok (a * b)
unfolding mul_u128
mul_u128-ok a b h = fit-ok _ _ _ h

pub mul_u256-ok : (a b : ℕ) → a * b < u256_limit → mul_u256 a b ≡ ok (a * b)
unfolding mul_u256
mul_u256-ok a b h = fit-ok _ _ _ h

pub checked_sub-ok : (a b : ℕ) → b ≤ a → checked_sub a b ≡ ok (a - b)
unfolding checked_sub
checked_sub-ok a b h = ground arith

pub checked_sub_inv : (a b : ℕ) {c : ℕ} → checked_sub a b ≡ ok c → (b ≤ a) × (a ≡ b + c)
unfolding checked_sub
checked_sub_inv a b h = ground arith

pub checked_div-ok : (a b : ℕ) → 0 < b → checked_div a b ≡ ok (a / b)
unfolding checked_div
checked_div-ok a b h = ground arith

pub checked_div_inv : (a b : ℕ) {c : ℕ} → checked_div a b ≡ ok c → (0 < b) × (c ≡ a / b)
unfolding checked_div
checked_div_inv a b h = ground arith
