-- ===== src/Shell/Readline/Keeps.antt =====
-- The edits of `readline` of shell/shell.c keep a line in its buffer.
use eclipse32_gui.Base.{
  ℕ, zero, suc, ◌%◌, ◌⊎◌, some, if◌then◌else◌, subst, ◌+◌, ◌-◌, ◌≤◌, ◌<◌, ◌≡◌, min, ◌&&◌, List, [],
  ◌∷◌, ◌++◌, ◌==◌, ltb, leb, length, take, drop, get_or, ltb→lt, length-take, length-drop,
  length-append, arith, Bool-cases, inl, inr, Option-cases,
}
use mathlib.Core.Option
use eclipse32_gui.Keyboard.{KeyCode, up, down, left, right, home, end_key, delete}
use eclipse32_gui.Vga.{Vga, vga_putchar, vga_clear, vga_set_color, vga_cursor_move}
use eclipse32_gui.Vga.Laws.{InScreen, vga_putchar-InScreen}
use eclipse32_gui.Vga.Write.{vga_puts-InScreen}
use eclipse32_gui.Shell.History.{History, shell_max_history, line_at, history_prev, history_next}
use eclipse32_gui.Shell.Readline.{
  Reader, put_bytes, rl_clear, to_start, to_end, cut_end, cut_all, erase_before, erase_at,
  insert_char, recall, go_up, go_down, go_left, go_right, on_key, backspaces, spaces, draw,
  redraw_end,
}

-- Every line is shorter than `n` bytes.
abbrev pub AllShorter : ℕ → List (List ℕ) → Type 0
AllShorter n [] = Unit
AllShorter n (l ∷ ls) = (length l < n) × AllShorter n ls

-- The buffer's last byte is a NUL, or the history has no line that reaches it.
abbrev pub IsSafe : ℕ → List ℕ → History → Type 0
IsSafe max past h = (past ≡ []) ⊎ (AllShorter (max - 1) h.lines × (1 < max))

-- The line and its NUL fit the buffer, the cursor is in the line or behind it, the console's position
-- is on the screen, and no line recalled will run past the buffer.
abbrev pub IsReader : ℕ → Reader → Type 0
IsReader max r =
    (r.cursor ≤ length r.buf)
    × (length r.buf < max)
    × InScreen r.screen
    × IsSafe max r.past r.history

pub get_or-shorter :
    (n i : ℕ) (ls : List (List ℕ)) → 0 < n → AllShorter n ls → length (get_or ls i []) < n
get_or-shorter n i [] l h = l
get_or-shorter n zero (x ∷ ls) l h = h.0
get_or-shorter n (suc i) (x ∷ ls) l h = get_or-shorter n i ls l h.1

-- A line that is recalled: it ends in the buffer, or the buffer ends in a NUL.
abbrev pub IsRecalled : ℕ → List ℕ → List ℕ → Type 0
IsRecalled max past line = (past ≡ []) ⊎ (length line < max - 1)

pub line_at-IsRecalled :
    (max i : ℕ) (past : List ℕ) (h : History)
    → IsSafe max past h
    → IsRecalled max past (line_at h i)
line_at-IsRecalled max i past h (inl e) = inl e
line_at-IsRecalled max i past h (inr k) =
    inr (get_or-shorter (max - 1) (i % shell_max_history) h.lines (omega (arith, k.1)) k.0)

pub empty-IsRecalled :
    (max : ℕ) (past : List ℕ) (h : History) → IsSafe max past h → IsRecalled max past []
empty-IsRecalled max past h (inl e) = inl e
empty-IsRecalled max past h (inr k) = inr (omega (arith, k.1))

pub put_bytes-InScreen : (cs : List ℕ) (v : Vga) → InScreen v → InScreen (put_bytes cs v)
unfolding put_bytes
put_bytes-InScreen [] v h = h
put_bytes-InScreen (c ∷ cs) v h =
    put_bytes-InScreen cs (vga_putchar c v) (vga_putchar-InScreen c v h).0

pub rl_clear-InScreen : (n : ℕ) (v : Vga) → InScreen v → InScreen (rl_clear n v)
unfolding rl_clear
rl_clear-InScreen n v h =
    put_bytes-InScreen (backspaces n) (put_bytes (spaces n) (put_bytes (backspaces n) v)) (
      put_bytes-InScreen (spaces n) (put_bytes (backspaces n) v)
        (put_bytes-InScreen (backspaces n) v h))

pub to_start-IsReader : (max : ℕ) (r : Reader) → IsReader max r → IsReader max (to_start r)
unfolding to_start
to_start-IsReader max r h =
    (omega arith, h.1, put_bytes-InScreen (backspaces r.cursor) r.screen h.2, h.3)

pub to_end-IsReader : (max : ℕ) (r : Reader) → IsReader max r → IsReader max (to_end r)
unfolding to_end
to_end-IsReader max r h =
    (omega arith, h.1, put_bytes-InScreen (drop r.cursor r.buf) r.screen h.2, h.3)

pub cut_end-IsReader : (max : ℕ) (r : Reader) → IsReader max r → IsReader max (cut_end r)
unfolding cut_end
cut_end-IsReader max r h =
    let n = length r.buf - r.cursor in
    (
      omega (arith, length-take r.cursor r.buf),
      omega (arith, length-take r.cursor r.buf),
      put_bytes-InScreen (spaces n ++ backspaces n) r.screen h.2,
      h.3,
    )

pub cut_all-IsReader : (max : ℕ) (r : Reader) → IsReader max r → IsReader max (cut_all r)
unfolding cut_all
cut_all-IsReader max r h =
    let n = length r.buf in
    (
      omega arith,
      omega arith,
      put_bytes-InScreen (backspaces r.cursor ++ spaces n ++ backspaces n) r.screen h.2,
      h.3,
    )

pub draw-IsReader : (max : ℕ) (cs : List ℕ) (r : Reader) → IsReader max r → IsReader max (draw cs r)
draw-IsReader max cs r h = (h.0, h.1, put_bytes-InScreen cs r.screen h.2, h.3)

pub redraw_end-IsReader : (max : ℕ) (r : Reader) → IsReader max r → IsReader max (redraw_end r)
redraw_end-IsReader max r h =
    let rest = drop r.cursor r.buf in
    draw-IsReader max (rest ++ b' ' ∷ backspaces (suc (length rest))) r h

pub length-splice :
    (n m : ℕ) (xs : List ℕ) → length (take n xs ++ drop m xs) ≡ min n (length xs) + (length xs - m)
length-splice n m xs =
    omega (arith, length-append (take n xs) (drop m xs), length-take n xs, length-drop m xs)

pub erase_before-IsReader : (max : ℕ) (r : Reader) → IsReader max r → IsReader max (erase_before r)
unfolding erase_before
erase_before-IsReader max r h = elim (Bool-cases (ltb 0 r.cursor)) [
  | inr e ↦ rw e h
  | inl e ↦
      let shorter = record (draw (8 ∷ []) r) {
        buf = take (r.cursor - 1) r.buf ++ drop r.cursor r.buf;
        cursor = r.cursor - 1;
      } in
      let len = length-splice (r.cursor - 1) r.cursor r.buf in
      rw e (
        redraw_end-IsReader max shorter
          (omega (arith, len), omega (arith, len), put_bytes-InScreen (8 ∷ []) r.screen h.2, h.3))
]

pub erase_at-IsReader : (max : ℕ) (r : Reader) → IsReader max r → IsReader max (erase_at r)
unfolding erase_at
erase_at-IsReader max r h = elim (Bool-cases (ltb r.cursor (length r.buf))) [
  | inr e ↦ rw e h
  | inl e ↦
      let shorter = record r { buf = take r.cursor r.buf ++ drop (suc r.cursor) r.buf } in
      let len = length-splice r.cursor (suc r.cursor) r.buf in
      let inside = ltb→lt r.cursor (length r.buf) e in
      rw e (redraw_end-IsReader max shorter (omega (arith, len), omega (arith, len), h.2, h.3))
]

pub insert_char-IsReader :
    (max c : ℕ) (r : Reader) → IsReader max r → IsReader max (insert_char max c r)
unfolding insert_char
insert_char-IsReader max c r h =
    let rest = drop r.cursor r.buf in
    let len = length-append (take r.cursor r.buf) (c ∷ rest) in
    elim (Bool-cases (leb 32 c && ltb (length r.buf) (max - 1))) [
      | inr e ↦ rw e h
      | inl e ↦
          let room : length r.buf < max - 1 = ground arith in
          rw e (
            omega (arith, len, length-take r.cursor r.buf),
            omega (arith, len, length-take r.cursor r.buf, length-drop r.cursor r.buf),
            put_bytes-InScreen (c ∷ rest ++ backspaces (length rest)) r.screen h.2,
            h.3,
          )
    ]

pub recalled_short :
    (max : ℕ) (line past : List ℕ)
    → 0 < max
    → IsRecalled max past line
    → length (if ltb (length line) (max - 1) then line else take (max - 1) line ++ past) < max
recalled_short max line past l (inl n) = elim (Bool-cases (ltb (length line) (max - 1))) [
  | inl e ↦ rw e (ground (arith, e))
  | inr e ↦
      rw (e, n)
        (omega (arith, l, length-append (take (max - 1) line) [], length-take (max - 1) line))
]
recalled_short max line past l (inr n) = ground (arith, n)

pub recall-IsReader :
    (max : ℕ) (line : List ℕ) (r : Reader)
    → IsReader max r
    → IsRecalled max r.past line
    → IsReader max (recall max line r)
unfolding recall
recall-IsReader max line r h k =
    let buf = if ltb (length line) (max - 1) then line else take (max - 1) line ++ r.past in
    (
      omega arith,
      recalled_short max line r.past (omega (arith, h.1)) k,
      (vga_puts-InScreen buf (rl_clear (length r.buf) r.screen)
          (rl_clear-InScreen (length r.buf) r.screen h.2)).0,
      h.3,
    )

-- The position in the history moves, and its lines stay.
pub history_prev-recalls :
    (max : ℕ) (past : List ℕ) (h : History)
    → IsSafe max past h
    → IsSafe max past (history_prev h).1
      × ((l : List ℕ) → (history_prev h).0 ≡ some l → IsRecalled max past l)
unfolding history_prev
history_prev-recalls max past h s = elim (Bool-cases (h.at == 0)) [
  | inl e ↦ rw e (s, λ l k. absurd (ground (arith, k)))
  | inr e ↦ rw e (
    s,
    λ l k.
        subst (IsRecalled max past) (Option.some-injective _ _ k)
          (line_at-IsRecalled max (h.at - 1) past h s),
  )
]

pub history_next-recalls :
    (max : ℕ) (past : List ℕ) (h : History)
    → IsSafe max past h
    → IsSafe max past (history_next h).1 × IsRecalled max past (history_next h).0
unfolding history_next
history_next-recalls max past h s = elim (Bool-cases (leb h.count h.at)) [
  | inl e ↦ rw e (s, empty-IsRecalled max past h s)
  | inr e ↦ rw e (elim (Bool-cases (leb h.count (h.at + 1))) [
    | inl k ↦ rw k (s, empty-IsRecalled max past h s)
    | inr k ↦ rw k (s, line_at-IsRecalled max (h.at + 1) past h s)
  ])
]

pub go_up-IsReader : (max : ℕ) (r : Reader) → IsReader max r → IsReader max (go_up max r)
unfolding go_up
go_up-IsReader max r h =
    let (safe, recalls) = history_prev-recalls max r.past r.history h.3 in
    let moved : IsReader max (record r { history = (history_prev r.history).1 }) =
      (h.0, h.1, h.2, safe) in
    elim (Option-cases (history_prev r.history).0) [
      | inl n ↦ rw (n, go_up) moved
      | inr (l, e) ↦
          rw (e, go_up)
            (recall-IsReader max l (record r { history = (history_prev r.history).1 }) moved
              (recalls l e))
    ]

pub go_down-IsReader : (max : ℕ) (r : Reader) → IsReader max r → IsReader max (go_down max r)
unfolding go_down
go_down-IsReader max r h =
    let (safe, recalls) = history_next-recalls max r.past r.history h.3 in
    recall-IsReader max (history_next r.history).0
      (record r { history = (history_next r.history).1 }) (h.0, h.1, h.2, safe) recalls

pub go_left-IsReader : (max : ℕ) (r : Reader) → IsReader max r → IsReader max (go_left r)
unfolding go_left
go_left-IsReader max r h = elim (Bool-cases (ltb 0 r.cursor)) [
  | inr e ↦ rw e h
  | inl e ↦ rw e (omega arith, h.1, put_bytes-InScreen (8 ∷ []) r.screen h.2, h.3)
]

pub go_right-IsReader : (max : ℕ) (r : Reader) → IsReader max r → IsReader max (go_right r)
unfolding go_right
go_right-IsReader max r h = elim (Bool-cases (ltb r.cursor (length r.buf))) [
  | inr e ↦ rw e h
  | inl e ↦
      let inside = ltb→lt r.cursor (length r.buf) e in
      rw e (omega arith, h.1, put_bytes-InScreen (get_or r.buf r.cursor 0 ∷ []) r.screen h.2, h.3)
]

pub on_key-IsReader :
    (max : ℕ) (k : KeyCode) (r : Reader) → IsReader max r → IsReader max (on_key max k r)
unfolding on_key
on_key-IsReader max up r h = go_up-IsReader max r h
on_key-IsReader max down r h = go_down-IsReader max r h
on_key-IsReader max left r h = go_left-IsReader max r h
on_key-IsReader max right r h = go_right-IsReader max r h
on_key-IsReader max home r h = to_start-IsReader max r h
on_key-IsReader max end_key r h = to_end-IsReader max r h
on_key-IsReader max delete r h = erase_at-IsReader max r h
on_key-IsReader max k r h = h

pub cleared-InScreen : (v : Vga) → InScreen (vga_set_color 7 0 (vga_clear v))
unfolding vga_set_color vga_clear vga_cursor_move
cleared-InScreen v = (omega arith, omega arith)
