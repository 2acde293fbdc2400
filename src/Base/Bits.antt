-- ===== src/Base/Bits.antt =====
-- Single bits of a word: what `x & (1 << i)` and `x |= 1 << i` do at a variable position `i`.
use Prim.Native.Nat.{
  ℕ, zero, suc, ◌+◌, ◌*◌, ◌/◌, ◌%◌, ◌^◌, ◌≤◌, min, max, bit_and, bit_or, digits, bit_and-bitwise,
  bit_or-bitwise,
}
use mathlib.Core.Path.{◌≡◌, refl, ap, ◌∙◌}
use mathlib.Core.Logic.{◌↔◌, inl, inr}
use mathlib.Core.Bool.{Bool, true, false, not}
use native.Mathlib.Nat.{pow-suc}
use native.Mathlib.Omega.{arith}
use usbpcap_ai.Base.Tests.{Bool-cases, ◌==◌, if◌then◌else◌}

-- The native operations recur on a count of digits. One digit more than enough adds nothing to
-- the result, and so no number of them does.
module _ (at_end : ℕ → ℕ) (combine : ℕ → ℕ → ℕ) where
  one_more :
      (x y count : ℕ)
      → x ≤ count
      → digits at_end combine (suc count) x y ≡ digits at_end combine count x y
  one_more zero y zero enough = refl
  one_more zero y (suc count) enough = refl
  one_more (suc x) y zero enough = absurd (omega arith)
  one_more (suc x) y (suc count) enough =
      let rest = one_more (suc x / 2) (y / 2) count (omega arith) in
      ap (λ higher. higher * 2 + combine (suc x % 2) (y % 2)) rest

  spare :
      (few x y many : ℕ)
      → x ≤ few
      → few ≤ many
      → digits at_end combine many x y ≡ digits at_end combine few x y
  spare few x y zero enough below =
      let same : zero ≡ few = omega arith in ap (λ k. digits at_end combine k x y) same
  spare few x y (suc many) enough below = elim (Bool-cases (few == suc many)) [
    | inl equal ↦
        let same : suc many ≡ few = ground (arith, equal) in
        ap (λ k. digits at_end combine k x y) same
    | inr less ↦
        one_more x y many (ground (arith, less, below, enough))
        ∙ spare few x y many enough (ground (arith, less, below))
  ]

bit_and-zero_left : (b : ℕ) → bit_and 0 b ≡ 0
bit_and-zero_left b = bit_and-bitwise 0 b

bit_or-zero_left : (b : ℕ) → bit_or 0 b ≡ b
bit_or-zero_left b = bit_or-bitwise 0 b

-- The lowest digit, and the rest.
bit_and_low : (a b : ℕ) → bit_and a b ≡ min (a % 2) (b % 2) + bit_and (a / 2) (b / 2) * 2
bit_and_low zero b = omega (arith, bit_and-zero_left b, bit_and-zero_left (b / 2))
bit_and_low (suc a) b = omega (
  arith,
  bit_and-bitwise (suc a) b,
  bit_and-bitwise (suc a / 2) (b / 2),
  spare (λ t. zero) min (suc a / 2) (suc a / 2) (b / 2) a (omega arith) (omega arith),
)

bit_or_low : (a b : ℕ) → bit_or a b ≡ max (a % 2) (b % 2) + bit_or (a / 2) (b / 2) * 2
bit_or_low zero b = omega (arith, bit_or-zero_left b, bit_or-zero_left (b / 2))
bit_or_low (suc a) b = omega (
  arith,
  bit_or-bitwise (suc a) b,
  bit_or-bitwise (suc a / 2) (b / 2),
  spare (λ t. t) max (suc a / 2) (suc a / 2) (b / 2) a (omega arith) (omega arith),
)

-- Two functions that agree at 0 and in how they go on from the halves agree.
module _ (u v : ℕ → ℕ) (low : ℕ → ℕ) where
  by_halves :
      (bound x : ℕ)
      → x ≤ bound
      → u 0 ≡ v 0
      → ((y : ℕ) → (u y ≡ low (y % 2) + u (y / 2) * 2) × (v y ≡ low (y % 2) + v (y / 2) * 2))
      → u x ≡ v x
  by_halves bound zero below start go = start
  by_halves zero (suc x) below start go = absurd (omega arith)
  by_halves (suc bound) (suc x) below start go =
      omega (arith, go (suc x), by_halves bound (suc x / 2) (omega arith) start go)

bit_and-zero_right : (x : ℕ) → bit_and x 0 ≡ 0
bit_and-zero_right x =
    by_halves (λ y. bit_and y 0) (λ y. 0) (λ d. 0) x x (omega arith) (bit_and-zero_left 0)
      (λ y. (omega (arith, bit_and_low y 0), omega arith))

bit_or-zero_right : (x : ℕ) → bit_or x 0 ≡ x
bit_or-zero_right x =
    by_halves (λ y. bit_or y 0) (λ y. y) (λ d. d) x x (omega arith) (bit_or-zero_left 0)
      (λ y. (omega (arith, bit_or_low y 0), omega arith))

-- The digit at position `i`.
pub digit : ℕ → ℕ → ℕ
digit a zero = a % 2
digit a (suc i) = digit (a / 2) i

two_pow : (i : ℕ) → (2 ^ suc i / 2 ≡ 2 ^ i) × (2 ^ suc i % 2 ≡ 0)
two_pow i = (omega (arith, pow-suc 2 i), omega (arith, pow-suc 2 i))

bit_and_mask : (a i : ℕ) → (bit_and a (2 ^ i) ≡ 0) ↔ (digit a i ≡ 0)
unfolding digit
bit_and_mask a zero = (
  λ h. omega (arith, bit_and_low a 1, bit_and-zero_right (a / 2)),
  λ h. omega (arith, bit_and_low a 1, bit_and-zero_right (a / 2)),
)
bit_and_mask a (suc i) = (
  λ h. (bit_and_mask (a / 2) i).0 (omega (arith, low)),
  λ h. omega (arith, low, (bit_and_mask (a / 2) i).1 h),
)
  where
    low : bit_and a (2 ^ suc i) ≡ bit_and (a / 2) (2 ^ i) * 2
    low =
        bit_and_low a (2 ^ suc i)
        ∙ omega (arith, (two_pow i).1, ap (λ t. bit_and (a / 2) t) (two_pow i).0)

digit-bit_or : (a i j : ℕ) → digit (bit_or a (2 ^ i)) j ≡ (if i == j then 1 else digit a j)
unfolding digit
digit-bit_or a zero zero = omega (arith, bit_or_low a 1)
digit-bit_or a zero (suc j) = ground (arith, ap (λ t. digit t j) half)
  where
    half : bit_or a 1 / 2 ≡ a / 2
    half = omega (arith, bit_or_low a 1, bit_or-zero_right (a / 2))
digit-bit_or a (suc i) zero = ground (arith, bit_or_low a (2 ^ suc i), (two_pow i).1)
digit-bit_or a (suc i) (suc j) = ground (arith, ap (λ t. digit t j) half, digit-bit_or (a / 2) i j)
  where
    half : bit_or a (2 ^ suc i) / 2 ≡ bit_or (a / 2) (2 ^ i)
    half =
        omega
          (arith, bit_or_low a (2 ^ suc i), (two_pow i).1, ap (λ t. bit_or (a / 2) t) (two_pow i).0)

-- `x & (1 << i)` is not zero.
unfoldable pub has_bit : ℕ → ℕ → Bool
has_bit x i = not (bit_and x (2 ^ i) == 0)

-- `x |= 1 << i`.
unfoldable pub set_bit : ℕ → ℕ → ℕ
set_bit x i = bit_or x (2 ^ i)

has_bit-digit : (x i : ℕ) → has_bit x i ≡ not (digit x i == 0)
unfolding has_bit
has_bit-digit x i = ground (arith, (bit_and_mask x i).0, (bit_and_mask x i).1)

-- Setting a bit sets it and leaves every other one as it was.
pub has_bit-set_bit : (x i j : ℕ) → has_bit (set_bit x i) j ≡ (if i == j then true else has_bit x j)
unfolding set_bit
has_bit-set_bit x i j =
    ground (arith, has_bit-digit (bit_or x (2 ^ i)) j, has_bit-digit x j, digit-bit_or x i j)

digit-zero : (i : ℕ) → digit 0 i ≡ 0
unfolding digit
digit-zero zero = refl
digit-zero (suc i) = digit-zero i

pub has_bit-zero : (i : ℕ) → has_bit 0 i ≡ false
has_bit-zero i = ground (arith, has_bit-digit 0 i, digit-zero i)
