-- ===== src/Vga.antt =====
-- kernel/drivers/vga/vga.c, the text console of 80 columns and 25 rows.
--
-- The screen memory is a function from the index of a cell to its entry. The hardware cursor is the
-- last position that was sent to it.
pub mod Printf
pub mod Laws
pub mod Write
pub mod Digits
pub mod Rounds
mod Tests
use Prim.Native.Nat.{bit_or}
use eclipse32_gui.Base.{
  ℕ, zero, suc, ◌+◌, ◌-◌, ◌*◌, ◌/◌, ◌%◌, ◌^◌, Bool, true, false, ◌&&◌, List, [], ◌∷◌, if◌then◌else◌,
  ◌==◌, ltb, leb,
}

abbrev pub vga_width : ℕ
vga_width = 80

abbrev pub vga_height : ℕ
vga_height = 25

pub record Vga : Type 0 where
  pub mem : ℕ → ℕ
  pub fg : ℕ
  pub bg : ℕ
  pub col : ℕ
  pub row : ℕ
  pub cursor : ℕ

abbrev pub vga_entry : ℕ → ℕ → ℕ
vga_entry ch color = bit_or ch (color * 256 % 2 ^ 16)

-- `(vga_bg << 4) | vga_fg`, as a byte
abbrev pub color_of : Vga → ℕ
color_of s = bit_or (s.bg * 16) s.fg % 256

abbrev pub put_cell : (ℕ → ℕ) → ℕ → ℕ → ℕ → ℕ
put_cell mem i e x = if x == i then e else mem x

unfoldable pub vga_cursor_move : ℕ → ℕ → Vga → Vga
vga_cursor_move x y s = record s { cursor = (y * vga_width + x) % 2 ^ 16 }

-- `n` cells from the index `i` on are set.
unfoldable pub fill : ℕ → ℕ → ℕ → (ℕ → ℕ) → ℕ → ℕ
fill zero i e mem = mem
fill (suc n) i e mem = fill n (i + 1) e (put_cell mem i e)

-- `n` cells from the index `i` on are given the entries of the cells below them.
unfoldable pub copy_up : ℕ → ℕ → (ℕ → ℕ) → ℕ → ℕ
copy_up zero i mem = mem
copy_up (suc n) i mem = copy_up n (i + 1) (put_cell mem i (mem (i + vga_width)))

unfoldable pub vga_clear : Vga → Vga
vga_clear s = vga_cursor_move 0 0 (record s {
  mem = fill (vga_width * vga_height) 0 (vga_entry 32 (color_of s)) s.mem;
  col = 0;
  row = 0;
})

unfoldable pub vga_init : Vga → Vga
vga_init s = vga_clear (record s { col = 0; row = 0; fg = 7; bg = 0 })

unfoldable pub vga_set_color : ℕ → ℕ → Vga → Vga
vga_set_color fg bg s = record s { fg = fg; bg = bg }

-- The double loop over the rows but the last is one loop over their cells.
unfoldable pub vga_scroll : Vga → Vga
vga_scroll s = record s {
  mem =
      fill vga_width ((vga_height - 1) * vga_width) (vga_entry 32 (color_of s))
        (copy_up ((vga_height - 1) * vga_width) 0 s.mem);
  row = vga_height - 1;
}

-- The end of a row that was passed.
abbrev pub wrap : Vga → Vga
wrap s = if leb vga_width s.col then record s { col = 0; row = s.row + 1 } else s

abbrev pub here : Vga → ℕ
here s = s.row * vga_width + s.col

-- The character's own part of `vga_putchar`.
unfoldable pub place : ℕ → Vga → Vga
place c s =
    if c == 10
    then record s { col = 0; row = s.row + 1 }
    else if c == 13
    then record s { col = 0 }
    else if c == 9
    then wrap (record s { col = (s.col + 8) / 8 * 8 })
    else if c == 8
    then (if ltb 0 s.col
        then record s {
          col = s.col - 1;
          mem = put_cell s.mem (s.row * vga_width + (s.col - 1)) (vga_entry 32 (color_of s));
        }
        else s)
    else wrap
        (record s { mem = put_cell s.mem (here s) (vga_entry c (color_of s)); col = s.col + 1 })

unfoldable pub vga_putchar : ℕ → Vga → Vga
vga_putchar c s =
    let t = place c s in
    let u = if leb vga_height t.row then vga_scroll t else t in vga_cursor_move u.col u.row u

unfoldable pub vga_puts : List ℕ → Vga → Vga
vga_puts [] s = s
vga_puts (c ∷ cs) s = if c == 0 then s else vga_puts cs (vga_putchar c s)

unfoldable pub vga_put_at : ℕ → ℕ → ℕ → ℕ → Vga → Vga
vga_put_at x y c color s =
    if ltb x vga_width && ltb y vga_height
    then record s { mem = put_cell s.mem (y * vga_width + x) (vga_entry c color) }
    else s
