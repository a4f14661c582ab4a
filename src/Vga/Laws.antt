-- ===== src/Vga/Laws.antt =====
-- What the operations of kernel/drivers/vga/vga.c do to the screen memory and the position.
use eclipse32_gui.Base.{
  ℕ, zero, suc, ◌+◌, ◌*◌, ◌%◌, ◌^◌, ◌≤◌, ◌<◌, ◌≡◌, refl, ◌∙◌, ◌==◌, leb, arith, Bool-cases, inl,
  inr,
}
use eclipse32_gui.Vga.{
  Vga, put_cell, fill, copy_up, color_of, vga_entry, vga_scroll, vga_putchar, vga_cursor_move,
  place, here,
}

pub fill_out_low : (n i e : ℕ) (mem : ℕ → ℕ) (x : ℕ) → x < i → fill n i e mem x ≡ mem x
unfolding fill
fill_out_low zero i e mem x h = refl
fill_out_low (suc n) i e mem x h =
    ground (arith, fill_out_low n (i + 1) e (put_cell mem i e) x (omega arith))

pub fill_in : (n i e : ℕ) (mem : ℕ → ℕ) (x : ℕ) → i ≤ x → x < i + n → fill n i e mem x ≡ e
unfolding fill
fill_in zero i e mem x h k = absurd (omega arith)
fill_in (suc n) i e mem x h k = elim (Bool-cases (x == i)) [
  | inl q ↦ ground (arith, fill_out_low n (i + 1) e (put_cell mem i e) x (ground arith))
  | inr q ↦ fill_in n (i + 1) e (put_cell mem i e) x (ground arith) (ground arith)
]

pub fill_out : (n i e : ℕ) (mem : ℕ → ℕ) (x : ℕ) → i + n ≤ x → fill n i e mem x ≡ mem x
unfolding fill
fill_out zero i e mem x h = refl
fill_out (suc n) i e mem x h =
    ground (arith, fill_out n (i + 1) e (put_cell mem i e) x (omega arith))

copy_up_low : (n i : ℕ) (mem : ℕ → ℕ) (x : ℕ) → x < i → copy_up n i mem x ≡ mem x
unfolding copy_up
copy_up_low zero i mem x h = refl
copy_up_low (suc n) i mem x h =
    ground (arith, copy_up_low n (i + 1) (put_cell mem i (mem (i + 80))) x (omega arith))

copy_up_in : (n i : ℕ) (mem : ℕ → ℕ) (x : ℕ) → i ≤ x → x < i + n → copy_up n i mem x ≡ mem (x + 80)
unfolding copy_up
copy_up_in zero i mem x h k = absurd (omega arith)
copy_up_in (suc n) i mem x h k =
    let mem' = put_cell mem i (mem (i + 80)) in
    elim (Bool-cases (x == i)) [
      | inl q ↦ ground (arith, copy_up_low n (i + 1) mem' x (ground arith))
      | inr q ↦ ground (arith, copy_up_in n (i + 1) mem' x (ground arith) (ground arith))
    ]

copy_up_out : (n i : ℕ) (mem : ℕ → ℕ) (x : ℕ) → i + n ≤ x → copy_up n i mem x ≡ mem x
unfolding copy_up
copy_up_out zero i mem x h = refl
copy_up_out (suc n) i mem x h =
    ground (arith, copy_up_out n (i + 1) (put_cell mem i (mem (i + 80))) x (omega arith))

abbrev pub blank : Vga → ℕ
blank s = vga_entry 32 (color_of s)

-- A scroll moves each row up by one, blanks the last row with the current colour, and leaves what
-- is beyond the screen.
pub vga_scroll_lem :
    (s : Vga)
    → ((x : ℕ) → x < 1920 → (vga_scroll s).mem x ≡ s.mem (x + 80))
      × ((x : ℕ) → 1920 ≤ x → x < 2000 → (vga_scroll s).mem x ≡ blank s)
      × ((x : ℕ) → 2000 ≤ x → (vga_scroll s).mem x ≡ s.mem x)
unfolding vga_scroll
vga_scroll_lem s = (
  λ x h. fill_out_low 80 1920 (blank s) up x h ∙ copy_up_in 1920 0 s.mem x (omega arith) h,
  λ x h k. fill_in 80 1920 (blank s) up x h k,
  λ x h. fill_out 80 1920 (blank s) up x h ∙ copy_up_out 1920 0 s.mem x (omega arith),
)
  where
    up : ℕ → ℕ
    up = copy_up 1920 0 s.mem

-- The position is a cell of the screen.
abbrev pub InScreen : Vga → Type 0
InScreen s = (s.col < 80) × (s.row < 25)

-- The memory beyond the screen's 2000 cells is the same.
abbrev pub SameBeyond : Vga → Vga → Type 0
SameBeyond s t = (x : ℕ) → 2000 ≤ x → t.mem x ≡ s.mem x

-- A position that may have passed the last row.
abbrev AlmostIn : Vga → Type 0
AlmostIn s = (s.col < 80) × (s.row ≤ 25)

place-AlmostIn : (c : ℕ) (s : Vga) → InScreen s → AlmostIn (place c s)
unfolding place
place-AlmostIn c s h = ground arith

place-SameBeyond : (c : ℕ) (s : Vga) → InScreen s → SameBeyond s (place c s)
unfolding place
place-SameBeyond c s h x k = ground arith

scrolled-InScreen : (s : Vga) → s.col < 80 → InScreen (vga_scroll s)
unfolding vga_scroll
scrolled-InScreen s h = (h, omega arith)

scrolled-here :
    (s : Vga)
    → s.col < 80
    → ((vga_scroll s).row * 80 + (vga_scroll s).col) % 2 ^ 16 ≡ here (vga_scroll s)
unfolding vga_scroll
scrolled-here s h = omega arith

-- A character, be it a line's end, a tab or a backspace, leaves the position on the screen, the
-- cursor at it, and what is beyond the screen unchanged.
pub vga_putchar-InScreen :
    (c : ℕ) (s : Vga)
    → InScreen s
    → InScreen (vga_putchar c s)
      × ((vga_putchar c s).cursor ≡ here (vga_putchar c s))
      × SameBeyond s (vga_putchar c s)
unfolding vga_putchar vga_cursor_move
vga_putchar-InScreen c s h =
    let a = place-AlmostIn c s h in
    let b = place-SameBeyond c s h in
    elim (Bool-cases (leb 25 (place c s).row)) [
      | inl e ↦ rw e (
        scrolled-InScreen (place c s) a.0,
        scrolled-here (place c s) a.0,
        λ x k. (vga_scroll_lem (place c s)).2 x k ∙ b x k,
      )
      | inr e ↦ rw e (ground arith, ground arith, b)
    ]
