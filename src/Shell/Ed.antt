-- ===== src/Shell/Ed.antt =====
-- The editor `ed` of shell/shell.c: its buffer and what a key does to it.
--
-- `rows` holds the lines in use, each without its NUL; a line has at most 255 bytes, so a copy of 255
-- bytes is the whole line. A key's character is below 128.
pub mod Draw
pub mod Keys
pub mod Inv
pub mod Keep
pub mod Press
pub mod Session
pub mod Quit
pub mod Undo
mod Tests
use eclipse32_gui.Base.{
  ℕ, zero, suc, ◌+◌, ◌-◌, ◌≤◌, Bool, true, false, not, ◌&&◌, ◌||◌, List, [], ◌∷◌, ◌++◌, Option,
  none, some, if◌then◌else◌, ◌==◌, ltb, leb, length, take, drop, get_or, set, min,
}

abbrev pub ed_max_lines : ℕ
ed_max_lines = 512

abbrev pub ed_line_len : ℕ
ed_line_len = 256

-- What the next key is read by: the main loop, the loop of `ed_colon` with what follows the colon, or
-- that of the key `r`.
pub data Mode : Type 0 where
  main : Mode
  colon : List ℕ → Mode
  replacing : Mode

pub record Ed : Type 0 where
  pub rows : List (List ℕ)
  pub row : ℕ
  pub col : ℕ
  pub modified : Bool
  pub yank : Option (List ℕ)
  pub inserting : Bool
  pub pending_d : Bool
  pub pending_y : Bool
  pub mode : Mode

abbrev pub line : Ed → List ℕ
line s = get_or s.rows s.row []

abbrev pub put_line : List ℕ → Ed → Ed
put_line l s = record s { rows = set s.rows s.row l }

abbrev pub insert_at : ℕ → List ℕ → List (List ℕ) → List (List ℕ)
insert_at zero l rows = l ∷ rows
insert_at (suc i) l [] = l ∷ []
insert_at (suc i) l (r ∷ rows) = r ∷ insert_at i l rows

abbrev pub remove_at : ℕ → List (List ℕ) → List (List ℕ)
remove_at i [] = []
remove_at zero (r ∷ rows) = rows
remove_at (suc i) (r ∷ rows) = r ∷ remove_at i rows

abbrev pub has_room : Ed → Bool
has_room s = ltb (length s.rows) (ed_max_lines - 1)

unfoldable pub ed_ins : ℕ → Ed → Ed
ed_ins c s =
    let l = line s in
    if leb (ed_line_len - 1) (length l)
    then s
    else record (put_line (take s.col l ++ c ∷ drop s.col l) s) { col = s.col + 1; modified = true }

unfoldable pub ed_delch : Ed → Ed
ed_delch s =
    let l = line s in
    if leb (length l) s.col
    then s
    else record (put_line (take s.col l ++ drop (suc s.col) l) s) { modified = true }

abbrev pub one_or_more : List (List ℕ) → List (List ℕ)
one_or_more [] = [] ∷ []
one_or_more (r ∷ rows) = r ∷ rows

unfoldable pub ed_delline : Ed → Ed
ed_delline s =
    let rows = one_or_more (remove_at s.row s.rows) in
    record s {
      yank = some (line s);
      rows = rows;
      row = min s.row (length rows - 1);
      col = 0;
      modified = true;
    }

unfoldable pub ed_split : Ed → Ed
ed_split s =
    let l = line s in
    if has_room s
    then record s {
      rows = insert_at (suc s.row) (drop s.col l) (set s.rows s.row (take s.col l));
      row = suc s.row;
      col = 0;
      modified = true;
    }
    else s

-- A line is put in below the current one: by `o` an empty one, by `p` the one that was cut.
unfoldable pub put_below : List ℕ → Ed → Ed
put_below l s =
    if has_room s
    then record s {
      rows = insert_at (suc s.row) l s.rows;
      row = suc s.row;
      col = 0;
      modified = true;
    }
    else s

abbrev pub ed_newbelow : Ed → Ed
ed_newbelow = put_below []

unfoldable pub open_above : Ed → Ed
open_above s =
    if has_room s
    then record s { rows = insert_at s.row [] s.rows; col = 0; modified = true; inserting = true }
    else s

unfoldable pub ed_clamp : Ed → Ed
ed_clamp s = record s { col = min s.col (length (line s)) }

-- Backspace at the start of a line: `none` where `kstrcat` would write past the row of the line above.
unfoldable pub join_above : Ed → Option Ed
join_above s =
    let above = get_or s.rows (s.row - 1) [] in
    let joined = above ++ line s in
    if s.row == 0
    then some s
    else if leb ed_line_len (length joined)
    then none
    else some (record s {
      rows = set (remove_at s.row s.rows) (s.row - 1) joined;
      row = s.row - 1;
      col = length above;
      modified = true;
    })

unfoldable pub rub_out : Ed → Option Ed
unfolding ed_delch
rub_out s = if ltb 0 s.col then some (ed_delch (record s { col = s.col - 1 })) else join_above s

unfoldable pub go_up : Ed → Ed
unfolding ed_clamp
go_up s = if ltb 0 s.row then ed_clamp (record s { row = s.row - 1 }) else s

unfoldable pub go_down : Ed → Ed
unfolding ed_clamp
go_down s = if ltb s.row (length s.rows - 1) then ed_clamp (record s { row = suc s.row }) else s

unfoldable pub go_left : Ed → Ed
go_left s = if ltb 0 s.col then record s { col = s.col - 1 } else s

unfoldable pub go_right : Ed → Ed
go_right s = if ltb s.col (length (line s)) then record s { col = s.col + 1 } else s

abbrev pub to_start : Ed → Ed
to_start s = record s { col = 0 }

abbrev pub to_end : Ed → Ed
to_end s = record s { col = length (line s) }
