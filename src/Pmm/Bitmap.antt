-- ===== src/Pmm/Bitmap.antt =====
-- What the bit operations of kernel/mm/pmm.c do to each page's bit.
use Prim.Native.Nat.{bit_and, bit_or}
use native.Mathlib.Nat.{pow-suc}
use eclipse32_gui.Base.{
  ℕ, zero, suc, ◌-◌, ◌*◌, ◌/◌, ◌%◌, ◌^◌, ◌≤◌, ◌<◌, ◌≡◌, not, ◌&&◌, ◌||◌, List, [], ◌∷◌,
  if◌then◌else◌, ◌==◌, ltb, get_or, set, length, length-set, arith,
}
use eclipse32_gui.Base.Bits.{
  bit, bit-shift, bit-bit_or, bit-bit_and, bit-pow, bit-mask, bit_or-lt, bit_and-le,
}
use eclipse32_gui.Pmm.{u32, word, set_bit, clear_bit, test_bit}

module _ {ℓ} {A : Type ℓ} where
  pub get_or-set :
      (xs : List A) (i j : ℕ) (v d : A)
      → get_or (set xs i v) j d ≡ (if j == i && ltb i (length xs) then v else get_or xs j d)
  get_or-set [] i j v d = ground arith
  get_or-set (x ∷ xs) zero zero v d = ground arith
  get_or-set (x ∷ xs) zero (suc j) v d = ground arith
  get_or-set (x ∷ xs) (suc i) zero v d = ground arith
  get_or-set (x ∷ xs) (suc i) (suc j) v d = ground (arith, get_or-set xs i j v d)

pub test_bit-digit :
    (bm : List ℕ) (page : ℕ) → test_bit bm page ≡ bit (word bm (page / 32)) (page % 32)
unfolding test_bit
test_bit-digit bm page = ground (arith, bit-shift (page % 32) (word bm (page / 32)))

pub test_bit-set_bit :
    (bm : List ℕ) (p q : ℕ)
    → p < 32 * length bm
    → test_bit (set_bit bm p) q ≡ (test_bit bm q || q == p)
unfolding set_bit
test_bit-set_bit bm p q h = ground (
  arith,
  test_bit-digit bm q,
  test_bit-digit (set_bit bm p) q,
  get_or-set bm (p / 32) (q / 32) (bit_or (word bm (p / 32)) (2 ^ (p % 32))) (u32 - 1),
  bit-bit_or (q % 32) (word bm (p / 32)) (2 ^ (p % 32)),
  bit-pow (p % 32) (q % 32),
)

pub test_bit-clear_bit :
    (bm : List ℕ) (p q : ℕ)
    → p < 32 * length bm
    → test_bit (clear_bit bm p) q ≡ (test_bit bm q && not (q == p))
unfolding clear_bit
test_bit-clear_bit bm p q h = ground (
  arith,
  test_bit-digit bm q,
  test_bit-digit (clear_bit bm p) q,
  get_or-set bm (p / 32) (q / 32) (bit_and (word bm (p / 32)) (u32 - 1 - 2 ^ (p % 32))) (u32 - 1),
  bit-bit_and (q % 32) (word bm (p / 32)) (u32 - 1 - 2 ^ (p % 32)),
  bit-mask (p % 32) (q % 32),
)

pub length-set_bit : (bm : List ℕ) (p : ℕ) → length (set_bit bm p) ≡ length bm
unfolding set_bit
length-set_bit bm p = length-set bm (p / 32) (bit_or (word bm (p / 32)) (2 ^ (p % 32)))

pub length-clear_bit : (bm : List ℕ) (p : ℕ) → length (clear_bit bm p) ≡ length bm
unfolding clear_bit
length-clear_bit bm p = length-set bm (p / 32) (bit_and (word bm (p / 32)) (u32 - 1 - 2 ^ (p % 32)))

-- Every word fits in 32 bits.
abbrev pub AllWords : List ℕ → Type 0
AllWords [] = Unit {0}
AllWords (w ∷ bm) = (w < 2 ^ 32) × AllWords bm

pub word-lt : (bm : List ℕ) (i : ℕ) → AllWords bm → word bm i < 2 ^ 32
word-lt [] i a = omega arith
word-lt (w ∷ bm) zero a = a.0
word-lt (w ∷ bm) (suc i) a = word-lt bm i a.1

pub set-AllWords : (bm : List ℕ) (i v : ℕ) → AllWords bm → v < 2 ^ 32 → AllWords (set bm i v)
set-AllWords [] i v a h = tt
set-AllWords (w ∷ bm) zero v a h = (h, a.1)
set-AllWords (w ∷ bm) (suc i) v a h = (a.0, set-AllWords bm i v a.1 h)

pow_lt : (k : ℕ) → k < 32 → 2 ^ k < 2 ^ 32
pow_lt k h = pow_mono 31 k (omega arith)
  where
    pow_mono : (n k : ℕ) → k ≤ n → 2 ^ k < 2 ^ suc n
    pow_mono zero zero h = omega arith
    pow_mono zero (suc k) h = absurd (omega arith)
    pow_mono (suc n) zero h = omega (arith, pow-suc 2 (suc n), pow_mono n zero (omega arith))
    pow_mono (suc n) (suc k) h =
        omega (arith, pow-suc 2 (suc n), pow-suc 2 k, pow_mono n k (omega arith))

pub set_bit-AllWords : (bm : List ℕ) (p : ℕ) → AllWords bm → AllWords (set_bit bm p)
unfolding set_bit
set_bit-AllWords bm p a = set-AllWords bm (p / 32) (bit_or (word bm (p / 32)) (2 ^ (p % 32))) a (
    bit_or-lt 32 (word bm (p / 32)) (2 ^ (p % 32)) (word-lt bm (p / 32) a)
      (pow_lt (p % 32) (omega arith)))

pub clear_bit-AllWords : (bm : List ℕ) (p : ℕ) → AllWords bm → AllWords (clear_bit bm p)
unfolding clear_bit
clear_bit-AllWords bm p a =
    set-AllWords bm (p / 32) (bit_and (word bm (p / 32)) (u32 - 1 - 2 ^ (p % 32))) a (
      omega (
        arith,
        word-lt bm (p / 32) a,
        bit_and-le (word bm (p / 32)) (word bm (p / 32)) (u32 - 1 - 2 ^ (p % 32)) (omega arith),
      ))
