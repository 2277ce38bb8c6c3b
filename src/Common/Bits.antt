-- ===== src/Common/Bits.antt =====
-- Single bits and low bits of `bit_or` and `bit_and`, by the recursion on digits that they mean.
use Prim.Native.Nat.{
  ℕ, zero, suc, ◌+◌, ◌*◌, ◌/◌, ◌%◌, ◌≤◌, ◌<◌, min, max, bit_and, bit_or, digits, bit_and-bitwise,
  bit_or-bitwise,
}
use mathlib.Core.Path.{◌≡◌, refl, ap}
use native.Mathlib.Omega.{arith}

-- The two operations for a number of digits.
abbrev join_bits : ℕ → ℕ → ℕ → ℕ
join_bits fuel a b = digits (λ left. left) max fuel a b

abbrev meet_bits : ℕ → ℕ → ℕ → ℕ
meet_bits fuel a b = digits (λ left. 0) min fuel a b

join_nothing : (a fuel : ℕ) → a ≤ fuel → join_bits fuel a 0 ≡ a
join_nothing zero zero enough = refl
join_nothing zero (suc fuel) enough = refl
join_nothing (suc a) zero enough = absurd (omega arith)
join_nothing (suc a) (suc fuel) enough = omega (arith, join_nothing (suc a / 2) fuel (omega arith))

meet_nothing : (a fuel : ℕ) → a ≤ fuel → meet_bits fuel a 0 ≡ 0
meet_nothing zero zero enough = refl
meet_nothing zero (suc fuel) enough = refl
meet_nothing (suc a) zero enough = absurd (omega arith)
meet_nothing (suc a) (suc fuel) enough = omega (arith, meet_nothing (suc a / 2) fuel (omega arith))

meet_lowest : (a fuel : ℕ) → a ≤ fuel → meet_bits fuel a 1 ≡ a % 2
meet_lowest zero zero enough = refl
meet_lowest zero (suc fuel) enough = refl
meet_lowest (suc a) zero enough = absurd (omega arith)
meet_lowest (suc a) (suc fuel) enough = omega (arith, meet_nothing (suc a / 2) fuel (omega arith))

-- The lowest bit set.
pub bit_or-one : (a : ℕ) → bit_or a 1 ≡ a / 2 * 2 + 1
bit_or-one zero = refl
bit_or-one (suc a) =
    omega (arith, bit_or-bitwise (suc a) 1, join_nothing (suc a / 2) a (omega arith))

-- The bit of 2 alone.
pub bit_and-two : (a : ℕ) → bit_and a 2 ≡ a / 2 % 2 * 2
bit_and-two zero = refl
bit_and-two (suc a) =
    omega (arith, bit_and-bitwise (suc a) 2, meet_lowest (suc a / 2) a (omega arith))

pub two-bit_and : (a : ℕ) → bit_and 2 a ≡ a / 2 % 2 * 2
two-bit_and a = omega (arith, bit_and-bitwise 2 a)

-- The bits of 1 and 4 set leave that of 2 as it is.
pub five-bit_or : (a : ℕ) → bit_or 5 a / 2 % 2 ≡ a / 2 % 2
five-bit_or a = omega (arith, bit_or-bitwise 5 a)

-- k binary zeros after x.
abbrev zeros_after : ℕ → ℕ → ℕ
zeros_after zero x = x
zeros_after (suc k) x = 2 * zeros_after k x

-- A number that ends in k zeros and one of k digits.
join_low :
    (k x a b fuel : ℕ)
    → a ≡ zeros_after k x
    → b < zeros_after k 1
    → a ≤ fuel
    → join_bits fuel a b ≡ a + b
join_low k x zero b zero same low enough = omega arith
join_low k x zero b (suc fuel) same low enough = omega arith
join_low k x (suc a) b zero same low enough = absurd (omega arith)
join_low zero x (suc a) zero (suc fuel) same low enough =
    omega (arith, join_nothing (suc a / 2) fuel (omega arith))
join_low zero x (suc a) (suc b) (suc fuel) same low enough = absurd (omega arith)
join_low (suc k) x (suc a) b (suc fuel) same low enough = omega (
  arith,
  same,
  join_low k x (suc a / 2) (b / 2) fuel (omega (arith, same)) (omega arith) (omega arith),
)

-- Below a multiple of 2^12, `bit_or` adds.
pub bit_or_page : (x b : ℕ) → b < 4096 → bit_or (x * 4096) b ≡ x * 4096 + b
bit_or_page x b low = omega (
  arith,
  bit_or-bitwise (x * 4096) b,
  join_low 12 x (x * 4096) b (x * 4096) (omega arith) (omega arith) (omega arith),
)

-- The bit j is 0.
abbrev ClearAt : ℕ → ℕ → Type 0
ClearAt zero a = a % 2 ≡ 0
ClearAt (suc j) a = ClearAt j (a / 2)

join_bit :
    (j a fuel : ℕ)
    → ClearAt j a
    → a ≤ fuel
    → join_bits fuel a (zeros_after j 1) ≡ a + zeros_after j 1
join_bit j zero zero clear enough = omega arith
join_bit j zero (suc fuel) clear enough = omega arith
join_bit j (suc a) zero clear enough = absurd (omega arith)
join_bit zero (suc a) (suc fuel) clear enough =
    omega (arith, clear, join_nothing (suc a / 2) fuel (omega arith))
join_bit (suc j) (suc a) (suc fuel) clear enough =
    let half : (2 * zeros_after j 1) / 2 ≡ zeros_after j 1 = omega arith in
    omega
      (arith, ap (join_bits fuel (suc a / 2)) half, join_bit j (suc a / 2) fuel clear (omega arith))

-- A bit that is 0 is added.
pub bit_or-two : (a : ℕ) → a % 4 < 2 → bit_or a 2 ≡ a + 2
bit_or-two a clear =
    omega (arith, bit_or-bitwise a 2, join_bit 1 a a (omega (arith, clear)) (omega arith))

pub bit_or-four : (a : ℕ) → a % 8 < 4 → bit_or a 4 ≡ a + 4
bit_or-four a clear =
    omega (arith, bit_or-bitwise a 4, join_bit 2 a a (omega (arith, clear)) (omega arith))

-- Below a multiple of 2^10, `bit_or` adds.
pub bit_or_slot : (x b : ℕ) → b < 1024 → bit_or (x * 1024) b ≡ x * 1024 + b
bit_or_slot x b low = omega (
  arith,
  bit_or-bitwise (x * 1024) b,
  join_low 10 x (x * 1024) b (x * 1024) (omega arith) (omega arith) (omega arith),
)

pub zero-bit_and : (a : ℕ) → bit_and 0 a ≡ 0
zero-bit_and a = omega (arith, bit_and-bitwise 0 a)
