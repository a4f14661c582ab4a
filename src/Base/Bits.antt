-- ===== src/Base/Bits.antt =====
-- The binary digits of words, and what `&` and `|` do to them.
use Prim.Native.Nat.{
  ℕ, zero, suc, ◌+◌, ◌-◌, ◌*◌, ◌/◌, ◌%◌, ◌^◌, ◌≤◌, ◌<◌, min, max, bit_and, bit_or, digits,
  bit_and-bitwise, bit_or-bitwise,
}
use mathlib.Core.Path.{◌≡◌, refl, sym, ◌∙◌, ap}
use mathlib.Core.Logic.{inl, inr}
use mathlib.Core.Bool.{Bool, true, false, not, ◌&&◌, ◌||◌}
use native.Mathlib.Omega.{arith}
use native.Mathlib.Nat.{pow-suc, div-div-eq-div-mul, mul_comm}
use eclipse32_gui.Base.Tests.{◌==◌, ==_iff, Bool-cases}

-- The digit at place `k`.
unfoldable pub bit : ℕ → ℕ → Bool
bit w zero = w % 2 == 1
bit w (suc k) = bit (w / 2) k

-- A law of every operation on digits: `z` answers once the first number has run out, as `f` would.
module _ (z : ℕ → ℕ) (f : ℕ → ℕ → ℕ) (agree : (b : ℕ) → z b ≡ z (b / 2) * 2 + f 0 (b % 2)) where
  digits-zero : (n b : ℕ) → digits z f n 0 b ≡ z b
  digits-zero zero b = refl
  digits-zero (suc n) b = refl

  digits_enough : (n a b m : ℕ) → a ≤ n → a ≤ m → digits z f n a b ≡ digits z f m a b
  digits_enough n zero b m p q = digits-zero n b ∙ sym (digits-zero m b)
  digits_enough zero (suc a) b m p q = absurd (omega arith)
  digits_enough (suc n) (suc a) b zero p q = absurd (omega arith)
  digits_enough (suc n) (suc a) b (suc m) p q =
      ap (λ d. d * 2 + f (suc a % 2) (b % 2))
        (digits_enough n (suc a / 2) (b / 2) m (omega arith) (omega arith))

  digits_halve :
      (a b : ℕ) → digits z f a a b ≡ digits z f (a / 2) (a / 2) (b / 2) * 2 + f (a % 2) (b % 2)
  digits_halve zero b = agree b
  digits_halve (suc a) b =
      ap (λ d. d * 2 + f (suc a % 2) (b % 2))
        (digits_enough a (suc a / 2) (b / 2) (suc a / 2) (omega arith) (omega arith))

pub bit_and_halve : (a b : ℕ) → bit_and a b ≡ bit_and (a / 2) (b / 2) * 2 + min (a % 2) (b % 2)
bit_and_halve a b =
    bit_and-bitwise a b
    ∙ (digits_halve (λ b. zero) min (λ b. omega arith) a b
        ∙ ap (λ d. d * 2 + min (a % 2) (b % 2)) (sym (bit_and-bitwise (a / 2) (b / 2))))

pub bit_or_halve : (a b : ℕ) → bit_or a b ≡ bit_or (a / 2) (b / 2) * 2 + max (a % 2) (b % 2)
bit_or_halve a b =
    bit_or-bitwise a b
    ∙ (digits_halve (λ b. b) max (λ b. omega arith) a b
        ∙ ap (λ d. d * 2 + max (a % 2) (b % 2)) (sym (bit_or-bitwise (a / 2) (b / 2))))

bit_or_low : (b : ℕ) → bit_or 0 b ≡ b
bit_or_low b = bit_or-bitwise 0 b

bit_and_low : (b : ℕ) → bit_and 0 b ≡ 0
bit_and_low b = bit_and-bitwise 0 b

half-bit_or : (a b : ℕ) → bit_or a b / 2 ≡ bit_or (a / 2) (b / 2)
half-bit_or a b = omega (arith, bit_or_halve a b)

half-bit_and : (a b : ℕ) → bit_and a b / 2 ≡ bit_and (a / 2) (b / 2)
half-bit_and a b = omega (arith, bit_and_halve a b)

pub bit-bit_or : (k a b : ℕ) → bit (bit_or a b) k ≡ (bit a k || bit b k)
unfolding bit
bit-bit_or zero a b = ground (arith, bit_or_halve a b)
bit-bit_or (suc k) a b = rw (half-bit_or a b) (bit-bit_or k (a / 2) (b / 2))

pub bit-bit_and : (k a b : ℕ) → bit (bit_and a b) k ≡ (bit a k && bit b k)
unfolding bit
bit-bit_and zero a b = ground (arith, bit_and_halve a b)
bit-bit_and (suc k) a b = rw (half-bit_and a b) (bit-bit_and k (a / 2) (b / 2))

pub bit-zero : (i : ℕ) → bit 0 i ≡ false
unfolding bit
bit-zero zero = refl
bit-zero (suc i) = bit-zero i

pub bit-pow : (k j : ℕ) → bit (2 ^ k) j ≡ (j == k)
unfolding bit
bit-pow zero zero = refl
bit-pow zero (suc j) = ground (arith, bit-zero j)
bit-pow (suc k) zero = ground (arith, pow-suc 2 k)
bit-pow (suc k) (suc j) = ground (arith, half, bit-pow k j)
  where
    half : 2 ^ suc k / 2 ≡ 2 ^ k
    half = omega (arith, pow-suc 2 k)

-- `(w >> k) & 1` is the digit.
pub bit-shift : (k w : ℕ) → bit w k ≡ ((w / 2 ^ k) % 2 == 1)
unfolding bit
bit-shift zero w = ground arith
bit-shift (suc k) w = bit-shift k (w / 2) ∙ ap (λ n. n % 2 == 1) same
  where
    same : w / 2 / 2 ^ k ≡ w / 2 ^ suc k
    same = rw (div-div-eq-div-mul w 2 (2 ^ k), pow-suc 2 k, mul_comm (2 ^ k) 2) refl

pub bit_or-lt : (n a b : ℕ) → a < 2 ^ n → b < 2 ^ n → bit_or a b < 2 ^ n
bit_or-lt zero a b h k = ground (arith, bit_or_low b)
bit_or-lt (suc n) a b h k = omega (
  arith,
  pow-suc 2 n,
  bit_or_halve a b,
  bit_or-lt n (a / 2) (b / 2) (omega (arith, pow-suc 2 n)) (omega (arith, pow-suc 2 n)),
)

pub bit_and-le : (n a b : ℕ) → a ≤ n → bit_and a b ≤ a
bit_and-le zero a b h = ground (arith, bit_and_low b)
bit_and-le (suc n) zero b h = omega (arith, bit_and_low b)
bit_and-le (suc n) (suc a) b h =
    omega (arith, bit_and_halve (suc a) b, bit_and-le n (suc a / 2) (b / 2) (omega arith))

-- A test that passes at each of the first `n` numbers, found by running it.
unfoldable pub passes_below : ℕ → (ℕ → Bool) → Bool
passes_below zero test = true
passes_below (suc n) test = passes_below n test && test n

pub passes_below-lt :
    (n : ℕ) (test : ℕ → Bool) (x : ℕ) → x < n → passes_below n test ≡ true → test x ≡ true
unfolding passes_below
passes_below-lt zero test x l h = absurd (omega arith)
passes_below-lt (suc n) test x l h = elim (Bool-cases (x == n)) [
  | inl e ↦ rw ((==_iff x n).0 e) (ground arith)
  | inr e ↦ passes_below-lt n test x (ground arith) (ground arith)
]

abbrev same_bool : Bool → Bool → Bool
same_bool true b = b
same_bool false b = not b

abbrev row : ℕ → ℕ → Bool
row k j = same_bool (bit (2 ^ 32 - 1 - 2 ^ k) j) (not (j == k))

abbrev rows : ℕ → Bool
rows k = passes_below 32 (row k)

mask_table : passes_below 32 rows ≡ true
unfolding passes_below bit
mask_table = refl

-- The digits of `~(1 << k)`.
pub bit-mask : (k j : ℕ) → k < 32 → j < 32 → bit (2 ^ 32 - 1 - 2 ^ k) j ≡ not (j == k)
bit-mask k j hk hj =
    ground (arith, passes_below-lt 32 (row k) j hj (passes_below-lt 32 rows k hk mask_table))

twice : (x : ℕ) → 2 * x / 2 ≡ x
twice x = omega arith

bit_or-zero_upto : (n a : ℕ) → a ≤ n → bit_or a 0 ≡ a
bit_or-zero_upto zero zero h = bit_or_low 0
bit_or-zero_upto zero (suc a) h = absurd (omega arith)
bit_or-zero_upto (suc n) zero h = bit_or_low 0
bit_or-zero_upto (suc n) (suc a) h =
    omega (arith, bit_or_halve (suc a) 0, bit_or-zero_upto n (suc a / 2) (omega arith))

-- `a` with `n` zero digits behind it.
abbrev pub shift_up : ℕ → ℕ → ℕ
shift_up zero a = a
shift_up (suc n) a = 2 * shift_up n a

pub bit_or-shift_up : (n a b : ℕ) → b < 2 ^ n → bit_or (shift_up n a) b ≡ shift_up n a + b
bit_or-shift_up zero a b h =
    let none_left : b ≡ 0 = omega arith in
    rw none_left (bit_or-zero_upto a a (omega arith) ∙ omega arith)
bit_or-shift_up (suc n) a b h = omega (
  arith,
  bit_or_halve (2 * shift_up n a) b,
  ap (λ x. bit_or x (b / 2)) (twice (shift_up n a)),
  bit_or-shift_up n a (b / 2) (omega (arith, pow-suc 2 n)),
)
