-- ===== src/Vga/Digits.antt =====
-- The numbers that `vga_printf` of kernel/drivers/vga/vga.c prints, read back.
use eclipse32_gui.Base.{
  ℕ, zero, suc, ◌+◌, ◌-◌, ◌*◌, ◌/◌, ◌%◌, ◌^◌, ◌≤◌, ◌<◌, ◌≡◌, ◌≢◌, refl, sym, ◌∙◌, ap, Bool, false,
  List, [], ◌∷◌, ◌++◌, if◌then◌else◌, ◌==◌, ltb, length, replicate, arith, Bool-cases, inl, inr,
  append_assoc,
}
use native.Mathlib.Nat.{mod-lt, div-add-mod, mul_comm, div-lt_iff_lt-mul, pow-suc, mul-le-mul_left}
use eclipse32_gui.Vga.Printf.{digit_char, digits_loop, reverse_onto, number_text}

-- The value of a digit, capital or small.
abbrev pub digit_value : ℕ → ℕ
digit_value c = if ltb c b'A' then c - b'0' else if ltb c b'a' then c - b'A' + 10 else c - b'a' + 10

-- The number that digits are read as, the highest first.
abbrev pub read_onto : ℕ → ℕ → List ℕ → ℕ
read_onto base n [] = n
read_onto base n (c ∷ cs) = read_onto base (n * base + digit_value c) cs

pub digit_value-digit_char : (upper : Bool) (d : ℕ) → d < 16 → digit_value (digit_char upper d) ≡ d
digit_value-digit_char upper d h = ground arith

read_onto-append :
    (base n : ℕ) (xs ys : List ℕ)
    → read_onto base n (xs ++ ys) ≡ read_onto base (read_onto base n xs) ys
read_onto-append base n [] ys = refl
read_onto-append base n (x ∷ xs) ys = read_onto-append base (n * base + digit_value x) xs ys

reverse_onto-append : (xs ys : List ℕ) → reverse_onto xs ys ≡ reverse_onto xs [] ++ ys
reverse_onto-append [] ys = refl
reverse_onto-append (x ∷ xs) ys =
    reverse_onto-append xs (x ∷ ys)
    ∙ (sym (append_assoc (reverse_onto xs []) (x ∷ []) ys)
        ∙ ap (◌++ ys) (sym (reverse_onto-append xs (x ∷ []))))

length-reverse_onto : (xs ys : List ℕ) → length (reverse_onto xs ys) ≡ length xs + length ys
length-reverse_onto [] ys = omega arith
length-reverse_onto (x ∷ xs) ys = omega (arith, length-reverse_onto xs (x ∷ ys))

div_base : (k base n : ℕ) → 2 ≤ base → n < 2 ^ suc k → n / base < 2 ^ k
div_base k base n h b =
    (div-lt_iff_lt-mul (omega arith)).1
      (omega (arith, pow-suc 2 k, mul-le-mul_left {m = 2} {n = base} (2 ^ k) h))

-- The digits that the loop leaves are the number's, when it has no more than there are rounds.
read-digits_loop :
    (k base : ℕ) (upper : Bool) (n : ℕ)
    → 2 ≤ base
    → base ≤ 16
    → n < 2 ^ k
    → read_onto base 0 (reverse_onto (digits_loop k base upper n) []) ≡ n
unfolding digits_loop
read-digits_loop zero base upper n h l b = omega arith
read-digits_loop (suc k) base upper n h l b = elim (Bool-cases (n == 0)) [
  | inl e ↦ rw e (ground arith)
  | inr e ↦
      let low = digit_char upper (n % base) in
      let high = digits_loop k base upper (n / base) in
      let r = mod-lt n {m = base} (omega arith) in
      rw
        (
          e,
          reverse_onto-append high (low ∷ []),
          read_onto-append base 0 (reverse_onto high []) (low ∷ []),
          digit_value-digit_char upper (n % base) (omega arith),
          read-digits_loop k base upper (n / base) h l (div_base k base n h b),
        )
        (omega (arith, div-add-mod n base, mul_comm base (n / base)))
]

reverse_onto-append_left :
    (xs ys zs : List ℕ) → reverse_onto (xs ++ ys) zs ≡ reverse_onto ys (reverse_onto xs zs)
reverse_onto-append_left [] ys zs = refl
reverse_onto-append_left (x ∷ xs) ys zs = reverse_onto-append_left xs ys (x ∷ zs)

replicate-cons : (n p : ℕ) (zs : List ℕ) → replicate n p ++ p ∷ zs ≡ p ∷ (replicate n p ++ zs)
replicate-cons zero p zs = refl
replicate-cons (suc n) p zs = ap (p ∷◌) (replicate-cons n p zs)

reverse_onto-replicate :
    (n p : ℕ) (zs : List ℕ) → reverse_onto (replicate n p) zs ≡ replicate n p ++ zs
reverse_onto-replicate zero p zs = refl
reverse_onto-replicate (suc n) p zs = reverse_onto-replicate n p (p ∷ zs) ∙ replicate-cons n p zs

digits_loop-pos :
    (k base : ℕ) (upper : Bool) (n : ℕ) → n ≢ 0 → 0 < length (digits_loop (suc k) base upper n)
unfolding digits_loop
digits_loop-pos k base upper n h = let e : (n == 0) ≡ false = ground arith in rw e (omega arith)

-- The digits of a number that the code leaves in its buffer, the lowest first.
abbrev low_first : ℕ → ℕ → Bool → List ℕ
low_first n base upper = if n == 0 then b'0' ∷ [] else digits_loop 32 base upper n

low_first_lem :
    (n base : ℕ) (upper : Bool)
    → 2 ≤ base
    → base ≤ 16
    → n < 2 ^ 32
    → (read_onto base 0 (reverse_onto (low_first n base upper) []) ≡ n)
      × (0 < length (low_first n base upper))
low_first_lem n base upper h l b = elim (Bool-cases (n == 0)) [
  | inl e ↦ rw e (ground arith, omega arith)
  | inr e ↦
      rw e (read-digits_loop 32 base upper n h l b, digits_loop-pos 31 base upper n (ground arith))
]

-- In a base from 2 to 16, what is printed for a word is padding and then one digit or more that read
-- back as the word, and the padding fills the width that the digits leave.
pub number_text-read :
    (n base : ℕ) (upper : Bool) (width pad : ℕ)
    → 2 ≤ base
    → base ≤ 16
    → n < 2 ^ 32
    → (digits : List ℕ) × (number_text n base upper width pad
        ≡ replicate (width - length digits) pad ++ digits)
      × (read_onto base 0 digits ≡ n)
      × (0 < length digits)
unfolding number_text
number_text-read n base upper width pad h l b =
    let low = low_first n base upper in
    let done = low_first_lem n base upper h l b in
    let len : length (reverse_onto low []) ≡ length low =
      omega (arith, length-reverse_onto low []) in
    (
      reverse_onto low [],
      reverse_onto-append_left low (replicate (width - length low) pad) []
          ∙ (reverse_onto-replicate (width - length low) pad (reverse_onto low [])
              ∙ ap (λ k. replicate (width - k) pad ++ reverse_onto low []) (sym len)),
      done.0,
      omega arith,
    )
