-- ===== src/Shell/Readline.antt =====
-- `readline` of shell/shell.c, which edits a line on the text console of Vga. The GUI's terminal does
-- not call it, so what it prints goes to the console.
--
-- `buf` is what the memory from the code's buffer on holds before its NUL, so its length is `len`;
-- `past` is what it holds from the buffer's last byte on, up to a NUL. Nothing sets that byte before the
-- line first fills the buffer, and a line recalled from the history can then run on past the buffer's
-- end. What the code writes there is taken to change nothing else. A character of the
-- keyboard is below 128: a C `char` from 128 on would be negative.
pub mod Keeps
pub mod Bounds
pub mod Edits
pub mod Enter
mod Tests
use eclipse32_gui.Base.{
  ℕ, zero, suc, ◌+◌, ◌-◌, Bool, true, false, not, ◌&&◌, ◌||◌, List, [], ◌∷◌, ◌++◌, Option, none,
  some, if◌then◌else◌, ◌==◌, ltb, leb, length, take, drop, get_or, replicate,
}
use eclipse32_gui.Keyboard.{
  KeyCode, KeyEvent, is_ascii, up, down, left, right, home, end_key, delete, esc,
}
use eclipse32_gui.Vga.{Vga, vga_putchar, vga_puts, vga_clear, vga_set_color}
use eclipse32_gui.Shell.History.{History, history_prev, history_next}

pub record Reader : Type 0 where
  pub buf : List ℕ
  pub past : List ℕ
  pub cursor : ℕ
  pub history : History
  pub screen : Vga

-- The line is being edited, or it was entered.
pub data Outcome : Type 0 where
  editing : Reader → Outcome
  entered : List ℕ → Reader → Outcome

abbrev pub start_reader : List ℕ → History → Vga → Reader
start_reader past h v = record {
  buf = [];
  past = past;
  cursor = 0;
  history = record h { at = h.count };
  screen = v;
}

-- A loop of `vga_putchar`
unfoldable pub put_bytes : List ℕ → Vga → Vga
put_bytes [] v = v
put_bytes (c ∷ cs) v = put_bytes cs (vga_putchar c v)

abbrev pub draw : List ℕ → Reader → Reader
draw cs r = record r { screen = put_bytes cs r.screen }

abbrev pub backspaces : ℕ → List ℕ
backspaces n = replicate n 8

abbrev pub spaces : ℕ → List ℕ
spaces n = replicate n b' '

unfoldable pub rl_clear : ℕ → Vga → Vga
unfolding put_bytes
rl_clear n v = put_bytes (backspaces n) (put_bytes (spaces n) (put_bytes (backspaces n) v))

-- Ctrl-A and Home
unfoldable pub to_start : Reader → Reader
to_start r = record (draw (backspaces r.cursor) r) { cursor = 0 }

-- Ctrl-E and End
unfoldable pub to_end : Reader → Reader
to_end r = record (draw (drop r.cursor r.buf) r) { cursor = length r.buf }

-- Ctrl-K
unfoldable pub cut_end : Reader → Reader
cut_end r =
    let n = length r.buf - r.cursor in
    record (draw (spaces n ++ backspaces n) r) { buf = take r.cursor r.buf }

-- Ctrl-U
unfoldable pub cut_all : Reader → Reader
cut_all r =
    let n = length r.buf in
    record (draw (backspaces r.cursor ++ spaces n ++ backspaces n) r) { buf = []; cursor = 0 }

-- What is behind the cursor is drawn again, over the byte that was there before.
abbrev pub redraw_end : Reader → Reader
redraw_end r =
    let rest = drop r.cursor r.buf in draw (rest ++ b' ' ∷ backspaces (suc (length rest))) r

unfoldable pub erase_before : Reader → Reader
erase_before r =
    if ltb 0 r.cursor
    then redraw_end (record (draw (8 ∷ []) r) {
      buf = take (r.cursor - 1) r.buf ++ drop r.cursor r.buf;
      cursor = r.cursor - 1;
    })
    else r

unfoldable pub erase_at : Reader → Reader
erase_at r =
    if ltb r.cursor (length r.buf)
    then redraw_end (record r { buf = take r.cursor r.buf ++ drop (suc r.cursor) r.buf })
    else r

unfoldable pub insert_char : ℕ → ℕ → Reader → Reader
insert_char max c r =
    let rest = drop r.cursor r.buf in
    if leb 32 c && ltb (length r.buf) (max - 1)
    then record (draw (c ∷ rest ++ backspaces (length rest)) r) {
      buf = take r.cursor r.buf ++ c ∷ rest;
      cursor = r.cursor + 1;
    }
    else r

-- A line of the history takes the place of the line. `kstrncpy` puts no NUL behind a line that is cut
-- off, so `kstrlen` reads on.
unfoldable pub recall : ℕ → List ℕ → Reader → Reader
recall max line r =
    let buf = if ltb (length line) (max - 1) then line else take (max - 1) line ++ r.past in
    record r {
      buf = buf;
      cursor = length buf;
      screen = vga_puts buf (rl_clear (length r.buf) r.screen);
    }

unfoldable pub go_up : ℕ → Reader → Reader
go_up max r =
    let (line, h) = history_prev r.history in
    elim line [ none ↦ record r { history = h } | some l ↦ recall max l (record r { history = h }) ]

unfoldable pub go_down : ℕ → Reader → Reader
go_down max r = let (line, h) = history_next r.history in recall max line (record r { history = h })

unfoldable pub go_left : Reader → Reader
go_left r = if ltb 0 r.cursor then record (draw (8 ∷ []) r) { cursor = r.cursor - 1 } else r

unfoldable pub go_right : Reader → Reader
go_right r =
    if ltb r.cursor (length r.buf)
    then record (draw (get_or r.buf r.cursor 0 ∷ []) r) { cursor = r.cursor + 1 }
    else r

-- The letter with ctrl held, as a control character or as itself.
abbrev pub ctrl_key : ℕ → ℕ → KeyEvent → Bool
ctrl_key code letter ev =
    ev.ctrl && (ev.char == code || ev.char == letter || ev.char == letter - 32)

abbrev pub clear_screen : Reader → Reader
clear_screen r = record r { screen = vga_putchar 10 (vga_set_color 7 0 (vga_clear r.screen)) }

unfoldable pub on_char : ℕ → KeyEvent → Reader → Outcome
on_char max ev r =
    let c = ev.char in
    if c == 10 || c == 13
    then entered r.buf (draw (10 ∷ []) r)
    else if ctrl_key 3 b'c' ev
    then entered [] (record r { screen = vga_puts (b'^' ∷ b'C' ∷ 10 ∷ []) r.screen })
    else if ctrl_key 12 b'l' ev
    then entered [] (clear_screen r)
    else if ctrl_key 1 b'a' ev
    then editing (to_start r)
    else if ctrl_key 5 b'e' ev
    then editing (to_end r)
    else if ctrl_key 11 b'k' ev
    then editing (cut_end r)
    else if ctrl_key 21 b'u' ev
    then editing (cut_all r)
    else if c == 8 || c == 127
    then editing (erase_before r)
    else if c == 9
    then editing r
    else editing (insert_char max c r)

unfoldable pub on_key : ℕ → KeyCode → Reader → Reader
on_key max up r = go_up max r
on_key max down r = go_down max r
on_key max left r = go_left r
on_key max right r = go_right r
on_key max home r = to_start r
on_key max end_key r = to_end r
on_key max delete r = erase_at r
on_key max k r = r

unfoldable pub is_esc : KeyCode → Bool
is_esc esc = true
is_esc k = false

-- What stands from the buffer's last byte on: the end of a line that reaches it, or what stood there.
unfoldable pub settle : ℕ → Reader → Reader
settle max r = record r {
  past = if leb (max - 1) (length r.buf) then drop (max - 1) r.buf else r.past;
}

abbrev pub settled : ℕ → Outcome → Outcome
settled max (editing r) = editing (settle max r)
settled max (entered line r) = entered line r

-- One event of the loop.
unfoldable pub on_event : ℕ → KeyEvent → Reader → Outcome
on_event max ev r =
    if ev.released || is_esc ev.keycode
    then editing r
    else if is_ascii ev.keycode
    then settled max (on_char max ev r)
    else editing (settle max (on_key max ev.keycode r))

-- The loop on the events to come: `editing` where it waits for more.
unfoldable pub readline_loop : ℕ → List KeyEvent → Reader → Outcome
readline_loop max [] r = editing r
readline_loop max (ev ∷ evs) r = elim (on_event max ev r) [
  | editing r' ↦ readline_loop max evs r'
  | entered line r' ↦ entered line r'
]

-- The caller's buffer is not initialised; `past` is what it holds from its last byte on.
unfoldable pub readline : ℕ → List ℕ → List KeyEvent → History → Vga → Outcome
readline max past evs h v = readline_loop max evs (start_reader past h v)
