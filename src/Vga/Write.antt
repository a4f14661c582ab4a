-- ===== src/Vga/Write.antt =====
-- What `vga_puts` of kernel/drivers/vga/vga.c writes.
use eclipse32_gui.Base.{
  ℕ, zero, suc, ◌+◌, ◌*◌, ◌%◌, ◌^◌, ◌≤◌, ◌<◌, ◌≡◌, ◌≢◌, refl, ◌∙◌, ap, false, List, [], ◌∷◌,
  if◌then◌else◌, ◌==◌, leb, length, get_or, arith, Bool-cases, inl, inr,
}
use eclipse32_gui.Vga.{
  Vga, color_of, vga_entry, vga_putchar, vga_puts, vga_cursor_move, place, here,
}
use eclipse32_gui.Vga.Laws.{InScreen, SameBeyond, vga_putchar-InScreen}

-- A byte that is drawn as a cell: not a NUL, a tab, a backspace, or a line's end.
abbrev pub IsPlain : ℕ → Type 0
IsPlain c = (c ≢ 0) × (c ≢ 8) × (c ≢ 9) × (c ≢ 10) × (c ≢ 13)

abbrev pub AllPlain : List ℕ → Type 0
AllPlain [] = Unit
AllPlain (c ∷ cs) = IsPlain c × AllPlain cs

-- Whatever is printed, the position stays on the screen, and what is beyond the screen unchanged.
pub vga_puts-InScreen :
    (cs : List ℕ) (s : Vga) → InScreen s → InScreen (vga_puts cs s) × SameBeyond s (vga_puts cs s)
unfolding vga_puts
vga_puts-InScreen [] s h = (h, λ x k. refl)
vga_puts-InScreen (c ∷ cs) s h = elim (Bool-cases (c == 0)) [
  | inl e ↦ rw e (h, λ x k. refl)
  | inr e ↦
      let one = vga_putchar-InScreen c s h in
      let more = vga_puts-InScreen cs (vga_putchar c s) one.0 in
      rw e (more.0, λ x k. more.1 x k ∙ one.2 x k)
]

abbrev put_plain : ℕ → Vga → Vga
put_plain c s = record s {
  mem = λ x. if x == here s then vga_entry c (color_of s) else s.mem x;
  col = s.col + 1;
  cursor = here s + 1;
}

vga_putchar_plain :
    (c : ℕ) (s : Vga) → IsPlain c → s.col + 1 < 80 → s.row < 25 → vga_putchar c s ≡ put_plain c s
unfolding vga_putchar vga_cursor_move place
vga_putchar_plain c s h k l =
    let e8 : (c == 8) ≡ false = ground arith in
    let e9 : (c == 9) ≡ false = ground arith in
    let e10 : (c == 10) ≡ false = ground arith in
    let e13 : (c == 13) ≡ false = ground arith in
    let w : leb 80 (s.col + 1) ≡ false = ground arith in
    let r : leb 25 s.row ≡ false = ground arith in
    let m : (s.row * 80 + (s.col + 1)) % 2 ^ 16 ≡ here s + 1 = omega arith in
    rw (e10, e13, e9, e8, w, r, m) refl

-- The cells from `at` on show the bytes of a list.
abbrev pub Shows : (ℕ → ℕ) → ℕ → ℕ → List ℕ → Type 0
Shows mem at color cs = (i : ℕ) → i < length cs → mem (at + i) ≡ vga_entry (get_or cs i 0) color

cells_cons :
    (mem : ℕ → ℕ) (at next : ℕ)
    → next ≡ at + 1
    → (color c : ℕ) (cs : List ℕ) → mem at ≡ vga_entry c color
    → Shows mem next color cs
    → Shows mem at color (c ∷ cs)
cells_cons mem at next e color c cs h k zero q = ap mem (omega arith) ∙ h
cells_cons mem at next e color c cs h k (suc i) q = ap mem (omega arith) ∙ k i (omega arith)

-- Plain bytes that end before the row does: they stand at the position, one cell each, in the
-- current colour, no other cell changes, and the position is behind them in the same row.
pub vga_puts_row :
    (cs : List ℕ) (s : Vga)
    → AllPlain cs
    → s.col + length cs < 80
    → s.row < 25
    → Shows (vga_puts cs s).mem (here s) (color_of s) cs
      × ((x : ℕ) → x < here s → (vga_puts cs s).mem x ≡ s.mem x)
      × ((x : ℕ) → here s + length cs ≤ x → (vga_puts cs s).mem x ≡ s.mem x)
      × ((vga_puts cs s).col ≡ s.col + length cs)
      × ((vga_puts cs s).row ≡ s.row)
unfolding vga_puts
vga_puts_row [] s h k l = (λ i q. elim q [ ], λ x q. refl, λ x q. refl, omega arith, refl)
vga_puts_row (c ∷ cs) s h k l =
    let e : (c == 0) ≡ false = ground arith in
    let t = put_plain c s in
    let rest = vga_puts_row cs t h.1 (omega arith) l in
    rw (e, vga_putchar_plain c s h.0 (omega arith) l)
      (
        cells_cons (vga_puts cs t).mem (here s) (here t) (omega arith) (color_of s) c cs
            (rest.1 (here s) (omega arith) ∙ ground arith) rest.0,
        λ x q. rest.1 x (omega arith) ∙ ground arith,
        λ x q. rest.2 x (omega arith) ∙ ground arith,
        rest.3 ∙ omega arith,
        rest.4,
      )
