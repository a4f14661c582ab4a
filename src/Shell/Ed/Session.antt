-- ===== src/Shell/Ed/Session.antt =====
-- A session of the editor `ed` of shell/shell.c: the keys, the file and the console. `unset` is what
-- an entry that `fat32_open` does not set holds.
use eclipse32_gui.Base.{
  ℕ, zero, suc, ◌+◌, ◌-◌, ◌*◌, ◌%◌, ◌^◌, Bool, true, false, not, ◌&&◌, ◌||◌, List, [], ◌∷◌, ◌++◌,
  Option, none, some, if◌then◌else◌, ◌==◌, ltb, leb, length, take, min,
}
use eclipse32_gui.Base.Int.{ℤ, pos, ltb_ℤ}
use eclipse32_gui.Keyboard.{KeyEvent, is_ascii}
use eclipse32_gui.Fat.{Fs, M, pure, ◌>>=◌}
use eclipse32_gui.Fat.Dir.{Found}
use eclipse32_gui.Fat.Open.{fat32_open, fat32_close}
use eclipse32_gui.Fat.Transfer.{fat32_read, fat32_write}
use eclipse32_gui.Vga.{Vga, vga_clear, vga_set_color}
use eclipse32_gui.KString.{text}
use eclipse32_gui.Shell.{same_string}
use eclipse32_gui.Shell.Readline.{is_esc}
use eclipse32_gui.Shell.Ed.{Ed, Mode, main, colon, replacing, ed_max_lines, ed_line_len}
use eclipse32_gui.Shell.Ed.Keys.{main_key, escape, replace_char}
use eclipse32_gui.Shell.Ed.Draw.{ed_status, ed_redraw}

pub record Session : Type 0 where
  pub ed : Ed
  pub running : Bool
  pub file : List ℕ
  pub fs : Fs
  pub screen : Vga
  pub unset : Found

abbrev pub show : List ℕ → Session → Session
show msg s = record s { screen = ed_status msg s.screen }

abbrev pub redraw : Session → Session
redraw s = record s { screen = ed_redraw s.file s.ed s.screen }

-- The loop of `ed_save`
unfoldable pub write_rows : ℤ → List (List ℕ) → M (Unit {0})
write_rows fd [] = pure tt
write_rows fd (l ∷ rows) = do n ← fat32_write fd l; m ← fat32_write fd (10 ∷ []); write_rows fd rows

-- The flags of reading and writing, of creation and of truncation.
unfoldable pub save_rows : List ℕ → List (List ℕ) → Found → M Bool
unfolding write_rows
save_rows file rows unset = do
  fd ← fat32_open file 0x242 unset
  if ltb_ℤ fd (pos 0) then pure false else do w ← write_rows fd rows; c ← fat32_close fd; pure true

unfoldable pub ed_save : Session → Bool × Session
ed_save s =
    let (saved, fs) = save_rows s.file s.ed.rows s.unset s.fs in
    (saved, record s { fs = fs; ed = if saved then record s.ed { modified = false } else s.ed })

abbrev word_w : List ℕ
word_w = b'w' ∷ []

abbrev word_q : List ℕ
word_q = b'q' ∷ []

abbrev word_wq : List ℕ
word_wq = b'w' ∷ b'q' ∷ []

abbrev word_x : List ℕ
word_x = b'x' ∷ []

abbrev word_q_bang : List ℕ
word_q_bang = b'q' ∷ b'!' ∷ []

-- The digits that a command begins with, read onto a number.
unfoldable pub read_number : ℕ → List ℕ → ℕ
read_number n [] = n
read_number n (c ∷ s) =
    let more = read_number (n * 10 + (c - b'0')) s in if leb b'0' c && leb c b'9' then more else n

abbrev starts_digit : List ℕ → Bool
starts_digit [] = false
starts_digit (c ∷ s) = leb b'0' c && leb c b'9'

-- Going to a line. The number is a C `int`, which is negative from 2 ^ 31 on.
unfoldable pub go_to : ℕ → Ed → Ed
go_to n s =
    let t = n % 2 ^ 32 in
    record s {
      row = if t == 0 || ltb (2 ^ 31) t then 0 else min (t - 1) (length s.rows - 1);
      col = 0;
    }

-- `*quit = true`, where `builtin_ed` passes its `running`.
abbrev pub quit : Session → Session
quit s = record s { running = true }

-- The command behind the colon. The status line that it shows is drawn over at once, and left out.
unfoldable pub run_colon : List ℕ → Session → Session
unfolding ed_save
run_colon arg s =
    let (saved, t) = ed_save s in
    if same_string arg word_w
    then t
    else if same_string arg word_q
    then (if s.ed.modified then s else quit s)
    else if same_string arg word_wq || same_string arg word_x
    then quit t
    else if same_string arg word_q_bang
    then quit s
    else if starts_digit arg
    then record s { ed = go_to (read_number 0 arg) s.ed }
    else s

abbrev pub in_mode : Ed → Session → Session
in_mode e s = record s { ed = e }

-- The return from `ed_colon`
unfoldable pub end_colon : Session → Session
end_colon s =
    let t = record s { ed = record s.ed { mode = main } } in if t.running then redraw t else t

abbrev but_last : List ℕ → List ℕ
but_last cs = take (length cs - 1) cs

-- A character in the loop of `ed_colon`, where `cl` is one more than the length of what was read. A
-- backspace that has nothing to take off is read as a character.
unfoldable pub colon_char : ℕ → List ℕ → Session → Session
unfolding run_colon end_colon
colon_char c cs s =
    let more =
      if (c == 8 || c == 127) && ltb 0 (length cs)
      then but_last cs
      else if ltb (length cs) 62
      then cs ++ c ∷ []
      else cs in
    if c == 27
    then end_colon s
    else if c == 10 || c == 13
    then end_colon (if ltb 0 (length cs) then run_colon cs s else s)
    else show (b':' ∷ more) (record s { ed = record s.ed { mode = colon more } })

-- After a key of the main loop: what the key's own loop shows first, or the drawing of the text.
unfoldable pub after_key : Mode → Session → Session
after_key main s = redraw s
after_key (colon cs) s = show (b':' ∷ []) s
after_key replacing s = s

abbrev pub with_ed : Option Ed → Session → Option Session
with_ed none s = none
with_ed (some e) s = some (after_key e.mode (record s { ed = e }))

-- A key that is pressed. `none` is a write outside the editor's buffer.
unfoldable pub on_press : Mode → KeyEvent → Session → Option Session
unfolding after_key colon_char end_colon
on_press main ev s =
    if is_esc ev.keycode
    then some (redraw (record s { ed = escape s.ed }))
    else with_ed (main_key ev s.ed) s
on_press (colon cs) ev s = some (
    if is_esc ev.keycode
    then end_colon s
    else if is_ascii ev.keycode
    then colon_char ev.char cs s
    else s)
on_press replacing ev s =
    some (if is_ascii ev.keycode then redraw (record s { ed = replace_char ev.char s.ed }) else s)

abbrev pub leave : Session → Session
leave s = record s { screen = vga_set_color 7 0 (vga_clear s.screen) }

-- The loop on the events to come, while the editor is running.
unfoldable pub ed_loop : List KeyEvent → Session → Option Session
unfolding on_press
ed_loop [] s = some s
ed_loop (ev ∷ evs) s =
    let skip = ed_loop evs s in
    let press : Option Session = elim (on_press s.ed.mode ev s) [
      | none ↦ none
      | some t ↦ ed_loop evs t
    ] in
    if not s.running then some (leave s) else if ev.released then skip else press

-- The lines that are read from the file, and the bytes of the one that is not complete.
pub record Loading : Type 0 where
  pub rows : List (List ℕ)
  pub part : List ℕ

-- A byte of the file; `none` is a write past the last of the 512 rows. A NUL ends its line.
unfoldable pub load_byte : ℕ → Loading → Option Loading
load_byte c l =
    if c == 10
    then (if ltb (length l.rows) ed_max_lines
        then some (record { rows = l.rows ++ text l.part ∷ []; part = [] })
        else none)
    else if leb (ed_line_len - 1) (length l.part)
    then some l
    else if ltb (length l.rows) ed_max_lines
    then some (record l { part = l.part ++ c ∷ [] })
    else none

unfoldable pub load_chunk : List ℕ → Loading → Option Loading
load_chunk [] l = some l
load_chunk (c ∷ cs) l = elim (load_byte c l) [ none ↦ none | some k ↦ load_chunk cs k ]

-- The loop over chunks of 512 bytes. A round reads a byte or more of a file of less than 2 ^ 32 bytes.
unfoldable pub load_loop : ℕ → ℤ → Loading → M (Option Loading)
load_loop zero fd l = pure (some l)
load_loop (suc n) fd l = do
  (count, bytes) ← fat32_read fd 512
  if not (ltb_ℤ (pos 0) count) || leb ed_max_lines (length l.rows)
      then pure (some l)
      else elim (load_chunk bytes l) [ none ↦ pure none | some k ↦ load_loop n fd k ]

abbrev pub at_least_one : List (List ℕ) → List (List ℕ)
at_least_one [] = [] ∷ []
at_least_one (r ∷ rows) = r ∷ rows

unfoldable pub loaded_rows : Loading → List (List ℕ)
loaded_rows l = at_least_one (
    if ltb 0 (length l.part) && ltb (length l.rows) ed_max_lines
    then l.rows ++ text l.part ∷ []
    else l.rows)

abbrev empty_loading : Loading
empty_loading = record { rows = []; part = [] }

-- The start of `builtin_ed`: `none` is a write outside the buffer.
unfoldable pub load_rows : List ℕ → Found → M (Option (List (List ℕ)))
unfolding load_loop loaded_rows
load_rows file unset = do
  fd ← fat32_open file 0 unset
  if ltb_ℤ fd (pos 0) then pure (some (loaded_rows empty_loading)) else do
    r ← load_loop (2 ^ 32) fd empty_loading
    elim r [ none ↦ pure none | some l ↦ (do c ← fat32_close fd; pure (some (loaded_rows l))) ]

abbrev pub start_ed : List (List ℕ) → Ed
start_ed rows = record {
  rows = rows;
  row = 0;
  col = 0;
  modified = false;
  yank = none;
  inserting = false;
  pending_d = false;
  pending_y = false;
  mode = main;
}

-- `builtin_ed` once the path is resolved.
unfoldable pub run_ed : List KeyEvent → List ℕ → Found → Vga → Fs → Option Session
unfolding load_rows ed_loop
run_ed evs file unset v fs =
    let (rows, fs') = load_rows file unset fs in
    elim rows [
      | none ↦ none
      | some rs ↦ ed_loop evs (
          redraw (record {
            ed = start_ed rs;
            running = true;
            file = file;
            fs = fs';
            screen = vga_clear v;
            unset = unset;
          }))
    ]
