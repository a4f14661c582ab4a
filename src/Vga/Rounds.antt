-- ===== src/Vga/Rounds.antt =====
-- The rounds that the loop of `vga_printf` of kernel/drivers/vga/vga.c takes.
use eclipse32_gui.Base.{
  ℕ, zero, suc, ◌+◌, ◌-◌, ◌*◌, ◌≤◌, ◌≡◌, refl, ◌&&◌, List, [], ◌∷◌, ◌==◌, leb, length, arith,
  Bool-cases, inl, inr,
}
use eclipse32_gui.KString.{text}
use eclipse32_gui.Vga.{Vga, vga_putchar}
use eclipse32_gui.Vga.Printf.{
  Arg, printf_loop, read_width, skip_zero, after_char, char_of, pad_of, directive, vga_printf,
}

skip_zero-le : (fmt : List ℕ) → length (skip_zero fmt) ≤ length fmt
skip_zero-le [] = omega arith
skip_zero-le (c ∷ fmt) = ground arith

after_char-le : (fmt : List ℕ) → length (after_char fmt) ≤ length fmt
after_char-le [] = omega arith
after_char-le (c ∷ fmt) = omega arith

read_width-le : (width : ℕ) (fmt : List ℕ) → length (read_width width fmt).1 ≤ length fmt
unfolding read_width
read_width-le width [] = omega arith
read_width-le width (c ∷ fmt) = elim (Bool-cases (leb b'0' c && leb c b'9')) [
  | inl e ↦ rw e (omega (arith, read_width-le (width * 10 + (c - b'0')) fmt))
  | inr e ↦ rw e (omega arith)
]

-- Two numbers of rounds, each at least the length of the format, print the same.
pub printf_loop_enough :
    (n m : ℕ) (fmt : List ℕ) (args : List Arg) (s : Vga)
    → length fmt ≤ n
    → length fmt ≤ m
    → printf_loop n fmt args s ≡ printf_loop m fmt args s
unfolding printf_loop
printf_loop_enough zero zero fmt args s h k = refl
printf_loop_enough zero (suc m) [] args s h k = refl
printf_loop_enough (suc n) zero [] args s h k = refl
printf_loop_enough zero m (c ∷ fmt) args s h k = absurd (omega arith)
printf_loop_enough n zero (c ∷ fmt) args s h k = absurd (omega arith)
printf_loop_enough (suc n) (suc m) [] args s h k = refl
printf_loop_enough (suc n) (suc m) (c ∷ fmt) args s h k = elim (Bool-cases (c == b'%')) [
  | inr e ↦ rw e (printf_loop_enough n m fmt args (vga_putchar c s) (omega arith) (omega arith))
  | inl e ↦
      let (width, rest) = read_width 0 (skip_zero fmt) in
      let (t, args') = directive (char_of rest) width (pad_of fmt) args s in
      let shorter : length (after_char rest) ≤ length fmt =
        omega (arith, after_char-le rest, read_width-le 0 (skip_zero fmt), skip_zero-le fmt) in
      rw e (printf_loop_enough n m (after_char rest) args' t (omega arith) (omega arith))
]

-- A round for each byte of the format is enough: more rounds print the same.
pub printf_loop-vga_printf :
    (n : ℕ) (fmt : List ℕ) (args : List Arg) (s : Vga)
    → length (text fmt) ≤ n
    → printf_loop n (text fmt) args s ≡ vga_printf fmt args s
unfolding vga_printf
printf_loop-vga_printf n fmt args s h =
    printf_loop_enough n (length (text fmt)) (text fmt) args s h (omega arith)
