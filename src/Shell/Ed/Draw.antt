-- ===== src/Shell/Ed/Draw.antt =====
-- What the editor `ed` of shell/shell.c draws on the text console.
--
-- The limits of the code on the status line's buffer are never reached: what is written has at most
-- 67 bytes.
use eclipse32_gui.Base.{
  ℕ, zero, suc, ◌+◌, ◌-◌, List, [], ◌∷◌, ◌++◌, if◌then◌else◌, ◌==◌, ltb, length, take, get_or, min,
  replicate,
}
use eclipse32_gui.Vga.{Vga, vga_put_at, vga_set_color, vga_cursor_move}
use eclipse32_gui.Shell.Vars.{status_text}
use eclipse32_gui.Shell.Ed.{Ed}

-- `n` cells of a row from a column on are set.
unfoldable pub put_blank : ℕ → ℕ → ℕ → ℕ → Vga → Vga
put_blank zero x y color v = v
put_blank (suc n) x y color v = put_blank n (x + 1) y color (vga_put_at x y b' ' color v)

unfoldable pub put_text : ℕ → ℕ → List ℕ → ℕ → Vga → Vga
put_text x y [] color v = v
put_text x y (c ∷ cs) color v = put_text (x + 1) y cs color (vga_put_at x y c color v)

unfoldable pub ed_status : List ℕ → Vga → Vga
unfolding put_blank put_text
ed_status msg v = put_text 0 24 (take 79 msg) 7 (put_blank 80 0 24 7 v)

abbrev pub first_row : Ed → ℕ
first_row s =
    let start = s.row - 11 in if ltb (length s.rows) (start + 23) then length s.rows - 23 else start

-- The number of a line, right-aligned in four columns, and the line.
abbrev pub row_text : ℕ → List ℕ → List ℕ
row_text n l =
    let num = status_text n in take 80 (replicate (4 - length num) b' ' ++ num ++ b' ' ∷ l)

unfoldable pub draw_row : Ed → ℕ → ℕ → Vga → Vga
unfolding put_blank put_text
draw_row s i ln v =
    let color = if ln == s.row then 3 else 7 in
    let blank = put_blank 80 0 i color v in
    if ltb ln (length s.rows)
    then put_text 0 i (row_text (ln + 1) (get_or s.rows ln [])) color blank
    else vga_put_at 0 i b'~' 8 blank

unfoldable pub draw_rows : ℕ → ℕ → Ed → ℕ → Vga → Vga
unfolding draw_row
draw_rows zero i s start v = v
draw_rows (suc n) i s start v = draw_rows n (i + 1) s start (draw_row s i (start + i) v)

abbrev insert_text : List ℕ
insert_text = b'[' ∷ b'I' ∷ b'N' ∷ b'S' ∷ b'E' ∷ b'R' ∷ b'T' ∷ b']' ∷ []

abbrev normal_text : List ℕ
normal_text = b'[' ∷ b'N' ∷ b'O' ∷ b'R' ∷ b'M' ∷ b'A' ∷ b'L' ∷ b']' ∷ []

abbrev pub status_line : List ℕ → Ed → List ℕ
status_line file s =
    (if s.inserting then insert_text else normal_text)
    ++ b' ' ∷ take 46 file
    ++ (if s.modified then b' ' ∷ b'[' ∷ b'+' ∷ b']' ∷ [] else [])
    ++ b' ' ∷ status_text (s.row + 1)
    ++ b':' ∷ status_text (s.col + 1)

unfoldable pub ed_redraw : List ℕ → Ed → Vga → Vga
unfolding draw_rows ed_status
ed_redraw file s v =
    let start = first_row s in
    vga_cursor_move (min (s.col + 5) 79) (min (s.row - start) 22)
      (ed_status (status_line file s) (draw_rows 23 0 s start (vga_set_color 7 0 v)))
