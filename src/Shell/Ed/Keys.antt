-- ===== src/Shell/Ed/Keys.antt =====
-- The keys of the editor `ed` of shell/shell.c, but for what `:` reads.
use eclipse32_gui.Base.{
  ℕ, ◌-◌, Bool, true, false, ◌&&◌, ◌||◌, [], Option, none, some, if◌then◌else◌, ◌==◌, ltb, leb,
  length, take, set,
}
use eclipse32_gui.Keyboard.{
  KeyCode, KeyEvent, is_ascii, up, down, left, right, home, end_key, delete,
}
use eclipse32_gui.Shell.Ed.{
  Ed, main, colon, replacing, line, put_line, ed_ins, ed_delch, ed_delline, ed_split, put_below,
  ed_newbelow, open_above, rub_out, go_up, go_down, go_left, go_right, to_start, to_end,
}

-- The keys that move in either mode.
unfoldable pub move_key : KeyCode → Ed → Ed
move_key up s = go_up s
move_key down s = go_down s
move_key left s = go_left s
move_key right s = go_right s
move_key home s = to_start s
move_key end_key s = to_end s
move_key k s = s

unfoldable pub leave_insert : Ed → Ed
leave_insert s = record s { inserting = false; col = s.col - 1 }

-- A character in insert mode.
unfoldable pub insert_char : ℕ → Ed → Option Ed
insert_char c s =
    if c == 27
    then some (leave_insert s)
    else if c == 8 || c == 127
    then rub_out s
    else if c == 10 || c == 13
    then some (ed_split s)
    else if leb 32 c
    then some (ed_ins c s)
    else some s

abbrev pub clear_pending : Ed → Ed
clear_pending s = record s { pending_d = false; pending_y = false }

abbrev pub start_insert : Ed → Ed
start_insert s = record s { inserting = true }

abbrev pub delete_here : Ed → Ed
delete_here s = record (ed_delch s) { modified = true }

unfoldable pub key_d : Ed → Ed
key_d s =
    if s.pending_d
    then clear_pending (ed_delline s)
    else record s { pending_d = true; pending_y = false }

unfoldable pub key_y : Ed → Ed
key_y s =
    if s.pending_y
    then record s { yank = some (line s); pending_y = false }
    else record s { pending_y = true; pending_d = false }

unfoldable pub paste : Ed → Ed
paste s = elim s.yank [ none ↦ s | some l ↦ put_below l s ]

-- The `switch` on a character in normal mode.
unfoldable pub command_char : ℕ → Ed → Ed
command_char c s =
    if c == b'i'
    then start_insert s
    else if c == b'I'
    then start_insert (to_start s)
    else if c == b'a'
    then start_insert (go_right s)
    else if c == b'A'
    then start_insert (to_end s)
    else if c == b'o'
    then start_insert (ed_newbelow s)
    else if c == b'O'
    then open_above s
    else if c == b'x'
    then delete_here s
    else if c == b'D'
    then record (put_line (take s.col (line s)) s) { modified = true }
    else if c == b'p'
    then paste s
    else if c == b'G'
    then record s { row = length s.rows - 1; col = 0 }
    else if c == b'g'
    then record s { row = 0; col = 0 }
    else if c == b'j'
    then go_down s
    else if c == b'k'
    then go_up s
    else if c == b'h'
    then go_left s
    else if c == b'l'
    then go_right s
    else if c == b'0'
    then to_start s
    else if c == b'$'
    then record s { col = length (line s) - 1 }
    else if c == b'r'
    then record s { mode = replacing }
    else s

unfoldable pub normal_char : ℕ → Ed → Ed
normal_char c s =
    if c == b':'
    then record (clear_pending s) { mode = colon [] }
    else if c == b'd'
    then key_d s
    else if c == b'y'
    then key_y s
    else command_char c (clear_pending s)

unfoldable pub is_delete : KeyCode → Bool
is_delete delete = true
is_delete _ = false

unfoldable pub normal_key : KeyCode → Ed → Ed
normal_key k s = if is_delete k then delete_here s else move_key k s

-- The character that `r` waits for.
unfoldable pub replace_char : ℕ → Ed → Ed
replace_char c s =
    let t = record s { mode = main } in
    if leb 32 c && ltb s.col (length (line s))
    then record (put_line (set (line s) s.col c) t) { modified = true }
    else t

-- Escape in the main loop.
unfoldable pub escape : Ed → Ed
escape s = if s.inserting then clear_pending (leave_insert s) else s

-- A key in the main loop that is not Escape.
unfoldable pub main_key : KeyEvent → Ed → Option Ed
main_key ev s =
    if s.inserting
    then (if is_ascii ev.keycode then insert_char ev.char s else some (move_key ev.keycode s))
    else some (if is_ascii ev.keycode then normal_char ev.char s else normal_key ev.keycode s)
