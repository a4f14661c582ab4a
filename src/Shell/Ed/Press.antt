-- ===== src/Shell/Ed/Press.antt =====
-- That a key of the editor `ed` of shell/shell.c keeps the invariant of its buffer.
use eclipse32_gui.Base.{
  ℕ, ◌-◌, Bool, true, false, ◌||◌, List, [], Option, none, some, if◌then◌else◌, ◌==◌, leb, length,
  take, set, length-set, length-take, arith, Bool-cases, inl, inr,
}
use eclipse32_gui.Keyboard.{KeyCode, KeyEvent, is_ascii, up, down, left, right, home, end_key}
use eclipse32_gui.Shell.Ed.{Ed, line, put_line, put_below, to_start, to_end}
use eclipse32_gui.Shell.Ed.Keys.{
  move_key, leave_insert, insert_char, clear_pending, key_d, key_y, paste, command_char,
  normal_char, normal_key, replace_char, escape, main_key,
}
use eclipse32_gui.Shell.Ed.Inv.{
  IsBuffer, IsEd, YankShort, line-short, ed_ins-IsEd, ed_delch-IsEd, put_line-IsEd,
}
use eclipse32_gui.Shell.Ed.Keep.{
  Overflows, KeptUnless, at_row-IsBuffer, ed_delline-IsEd, ed_split-IsEd, put_below-IsEd,
  open_above-IsEd, go_up-IsEd, go_down-IsEd, go_left-IsEd, go_right-IsEd, rub_out-IsEd,
}

to_start-IsEd : (s : Ed) → IsEd s → IsEd (to_start s)
to_start-IsEd s h = at_row-IsBuffer s s.row 0 h h.some_row (omega arith)

to_end-IsEd : (s : Ed) → IsEd s → IsEd (to_end s)
to_end-IsEd s h = at_row-IsBuffer s s.row (length (line s)) h h.some_row (omega arith)

move_key-IsEd : (k : KeyCode) (s : Ed) → IsEd s → IsEd (move_key k s)
unfolding move_key
move_key-IsEd up s h = go_up-IsEd s h
move_key-IsEd down s h = go_down-IsEd s h
move_key-IsEd left s h = go_left-IsEd s h
move_key-IsEd right s h = go_right-IsEd s h
move_key-IsEd home s h = to_start-IsEd s h
move_key-IsEd end_key s h = to_end-IsEd s h
move_key-IsEd k s h = h

leave_insert-IsEd : (s : Ed) → IsEd s → IsEd (leave_insert s)
unfolding leave_insert
leave_insert-IsEd s h = at_row-IsBuffer s s.row (s.col - 1) h h.some_row (omega (arith, h.in_line))

insert_char-IsEd : (c : ℕ) (s : Ed) → IsEd s → KeptUnless (Overflows s) (insert_char c s)
unfolding insert_char
insert_char-IsEd c s h = elim (Bool-cases (c == 27)) [
  | inl e ↦ rw e (leave_insert-IsEd s h)
  | inr e ↦ elim (Bool-cases (c == 8 || c == 127)) [
    | inl f ↦ rw (e, f) (rub_out-IsEd s h)
    | inr f ↦ elim (Bool-cases (c == 10 || c == 13)) [
      | inl g ↦ rw (e, f, g) (ed_split-IsEd s h)
      | inr g ↦ elim (Bool-cases (leb 32 c)) [
        | inl p ↦ rw (e, f, g, p) (ed_ins-IsEd c s h)
        | inr p ↦ rw (e, f, g, p) h
      ]
    ]
  ]
]

cut-IsEd : (s : Ed) → IsEd s → IsEd (record (put_line (take s.col (line s)) s) { modified = true })
cut-IsEd s h =
    put_line-IsEd s (take s.col (line s)) s.col true h
      (omega (arith, length-take s.col (line s), line-short s h))
      (omega (arith, length-take s.col (line s), h.in_line))

pasted-IsEd :
    (s : Ed) (o : Option (List ℕ))
    → YankShort o
    → IsEd s
    → IsEd (elim o [ none ↦ s | some l ↦ put_below l s ])
pasted-IsEd s none k h = h
pasted-IsEd s (some l) k h = put_below-IsEd l s k h

paste-IsEd : (s : Ed) → IsEd s → IsEd (paste s)
unfolding paste
paste-IsEd s h = pasted-IsEd s s.yank h.yank_short h

bottom-IsEd : (s : Ed) → IsEd s → IsEd (record s { row = length s.rows - 1; col = 0 })
bottom-IsEd s h =
    at_row-IsBuffer s (length s.rows - 1) 0 h (omega (arith, h.some_row)) (omega arith)

top-IsEd : (s : Ed) → IsEd s → IsEd (record s { row = 0; col = 0 })
top-IsEd s h = at_row-IsBuffer s 0 0 h (omega (arith, h.some_row)) (omega arith)

last-IsEd : (s : Ed) → IsEd s → IsEd (record s { col = length (line s) - 1 })
last-IsEd s h = at_row-IsBuffer s s.row (length (line s) - 1) h h.some_row (omega arith)

command_char-IsEd : (c : ℕ) (s : Ed) → IsEd s → IsEd (command_char c s)
unfolding command_char
command_char-IsEd c s h = ground (
  arith,
  to_start-IsEd s h,
  to_end-IsEd s h,
  go_right-IsEd s h,
  go_left-IsEd s h,
  go_up-IsEd s h,
  go_down-IsEd s h,
  put_below-IsEd [] s (omega arith) h,
  open_above-IsEd s h,
  ed_delch-IsEd s h,
  cut-IsEd s h,
  paste-IsEd s h,
  bottom-IsEd s h,
  top-IsEd s h,
  last-IsEd s h,
)

key_d-IsEd : (s : Ed) → IsEd s → IsEd (key_d s)
unfolding key_d
key_d-IsEd s h = ground (arith, ed_delline-IsEd s h)

yanked-IsEd : (s : Ed) → IsEd s → IsBuffer s.rows s.row s.col (some (line s))
yanked-IsEd s h = record {
  some_row = h.some_row;
  few_rows = h.few_rows;
  in_line = h.in_line;
  short = h.short;
  yank_short = line-short s h;
}

key_y-IsEd : (s : Ed) → IsEd s → IsEd (key_y s)
unfolding key_y
key_y-IsEd s h = ground (arith, yanked-IsEd s h)

normal_char-IsEd : (c : ℕ) (s : Ed) → IsEd s → IsEd (normal_char c s)
unfolding normal_char
normal_char-IsEd c s h =
    ground (arith, key_d-IsEd s h, key_y-IsEd s h, command_char-IsEd c (clear_pending s) h)

normal_key-IsEd : (k : KeyCode) (s : Ed) → IsEd s → IsEd (normal_key k s)
unfolding normal_key
normal_key-IsEd k s h = ground (arith, ed_delch-IsEd s h, move_key-IsEd k s h)

pub replace_char-IsEd : (c : ℕ) (s : Ed) → IsEd s → IsEd (replace_char c s)
unfolding replace_char
replace_char-IsEd c s h =
    let len = length-set (line s) s.col c in
    ground (
      arith,
      put_line-IsEd s (set (line s) s.col c) s.col true h (omega (arith, len, line-short s h))
          (omega (arith, len, h.in_line)),
    )

pub escape-IsEd : (s : Ed) → IsEd s → IsEd (escape s)
unfolding escape
escape-IsEd s h = ground (arith, leave_insert-IsEd s h)

kept_branch :
    (P : Type 0) (b : Bool) (x y : Option Ed)
    → KeptUnless P x
    → KeptUnless P y
    → KeptUnless P (if b then x else y)
kept_branch P true x y h k = h
kept_branch P false x y h k = k

normal-IsEd :
    (b : Bool) (ev : KeyEvent) (s : Ed)
    → IsEd s
    → IsEd (if b then normal_char ev.char s else normal_key ev.keycode s)
normal-IsEd true ev s h = normal_char-IsEd ev.char s h
normal-IsEd false ev s h = normal_key-IsEd ev.keycode s h

pub main_key-IsEd : (ev : KeyEvent) (s : Ed) → IsEd s → KeptUnless (Overflows s) (main_key ev s)
unfolding main_key
main_key-IsEd ev s h =
    let b = is_ascii ev.keycode in
    let typed = insert_char ev.char s in
    let moved = some (move_key ev.keycode s) in
    kept_branch (Overflows s) s.inserting (if b then typed else moved)
      (some (if b then normal_char ev.char s else normal_key ev.keycode s))
      (kept_branch (Overflows s) b typed moved (insert_char-IsEd ev.char s h)
        (move_key-IsEd ev.keycode s h))
      (normal-IsEd b ev s h)
