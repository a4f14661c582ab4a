-- ===== src/Shell/Readline/Bounds.antt =====
-- The bounds that `readline` of shell/shell.c keeps to.
use eclipse32_gui.Base.{
  ℕ, ◌-◌, ◌≤◌, ◌<◌, ◌||◌, List, [], ◌∷◌, ◌==◌, leb, length, arith, Bool-cases, inl, inr, drop_all,
}
use eclipse32_gui.Keyboard.{KeyEvent, is_ascii}
use eclipse32_gui.Vga.{Vga, vga_clear, vga_set_color}
use eclipse32_gui.Vga.Laws.{InScreen, vga_putchar-InScreen}
use eclipse32_gui.Vga.Write.{vga_puts-InScreen}
use eclipse32_gui.Shell.History.{History}
use eclipse32_gui.Shell.Readline.{
  Reader, Outcome, editing, entered, start_reader, settle, settled, ctrl_key, on_char, on_key,
  is_esc, on_event, readline_loop, readline,
}
use eclipse32_gui.Shell.Readline.Keeps.{
  IsSafe, IsReader, put_bytes-InScreen, to_start-IsReader, to_end-IsReader, cut_end-IsReader,
  cut_all-IsReader, erase_before-IsReader, insert_char-IsReader, on_key-IsReader, cleared-InScreen,
}

unfoldable pub IsOutcome : ℕ → Outcome → Type 0
IsOutcome max (editing r) = IsReader max r
IsOutcome max (entered line r) = (length line < max) × InScreen r.screen

on_char-IsOutcome :
    (max : ℕ) (ev : KeyEvent) (r : Reader) → IsReader max r → IsOutcome max (on_char max ev r)
unfolding on_char IsOutcome
on_char-IsOutcome max ev r h =
    let c = ev.char in
    let blank = vga_set_color 7 0 (vga_clear r.screen) in
    elim (Bool-cases (c == 10 || c == 13)) [
      | inl y ↦ rw y (h.1, put_bytes-InScreen (10 ∷ []) r.screen h.2)
      | inr n1 ↦ elim (Bool-cases (ctrl_key 3 b'c' ev)) [
        | inl y ↦
            rw (n1, y) (omega arith, (vga_puts-InScreen (b'^' ∷ b'C' ∷ 10 ∷ []) r.screen h.2).0)
        | inr n2 ↦ elim (Bool-cases (ctrl_key 12 b'l' ev)) [
          | inl y ↦
              rw (n1, n2, y)
                (omega arith, (vga_putchar-InScreen 10 blank (cleared-InScreen r.screen)).0)
          | inr n3 ↦ elim (Bool-cases (ctrl_key 1 b'a' ev)) [
            | inl y ↦ rw (n1, n2, n3, y) (to_start-IsReader max r h)
            | inr n4 ↦ elim (Bool-cases (ctrl_key 5 b'e' ev)) [
              | inl y ↦ rw (n1, n2, n3, n4, y) (to_end-IsReader max r h)
              | inr n5 ↦ elim (Bool-cases (ctrl_key 11 b'k' ev)) [
                | inl y ↦ rw (n1, n2, n3, n4, n5, y) (cut_end-IsReader max r h)
                | inr n6 ↦ elim (Bool-cases (ctrl_key 21 b'u' ev)) [
                  | inl y ↦ rw (n1, n2, n3, n4, n5, n6, y) (cut_all-IsReader max r h)
                  | inr n7 ↦ elim (Bool-cases (c == 8 || c == 127)) [
                    | inl y ↦ rw (n1, n2, n3, n4, n5, n6, n7, y) (erase_before-IsReader max r h)
                    | inr n8 ↦ elim (Bool-cases (c == 9)) [
                      | inl y ↦ rw (n1, n2, n3, n4, n5, n6, n7, n8, y) h
                      | inr n9 ↦
                          rw (n1, n2, n3, n4, n5, n6, n7, n8, n9) (insert_char-IsReader max c r h)
                    ]
                  ]
                ]
              ]
            ]
          ]
        ]
      ]
    ]

settle-IsReader : (max : ℕ) (r : Reader) → IsReader max r → IsReader max (settle max r)
unfolding settle
settle-IsReader max r h = elim (Bool-cases (leb (max - 1) (length r.buf))) [
  | inl e ↦
      let whole : length r.buf ≤ max - 1 = omega (arith, h.1) in
      rw e (h.0, h.1, h.2, inl (drop_all (max - 1) r.buf whole))
  | inr e ↦ rw e h
]

settled-IsOutcome : (max : ℕ) (o : Outcome) → IsOutcome max o → IsOutcome max (settled max o)
unfolding IsOutcome
settled-IsOutcome max (editing r) h = settle-IsReader max r h
settled-IsOutcome max (entered line r) h = h

on_event-IsOutcome :
    (max : ℕ) (ev : KeyEvent) (r : Reader) → IsReader max r → IsOutcome max (on_event max ev r)
unfolding on_event IsOutcome
on_event-IsOutcome max ev r h = elim (Bool-cases (ev.released || is_esc ev.keycode)) [
  | inl e ↦ rw e h
  | inr e ↦ elim (Bool-cases (is_ascii ev.keycode)) [
    | inl f ↦ rw (e, f) (settled-IsOutcome max (on_char max ev r) (on_char-IsOutcome max ev r h))
    | inr f ↦
        rw (e, f)
          (settle-IsReader max (on_key max ev.keycode r) (on_key-IsReader max ev.keycode r h))
  ]
]

continue_lem :
    (max : ℕ) (evs : List KeyEvent) (o : Outcome)
    → IsOutcome max o
    → ((r : Reader) → IsReader max r → IsOutcome max (readline_loop max evs r))
    → IsOutcome max
        (elim o [ editing r ↦ readline_loop max evs r | entered line r ↦ entered line r ])
unfolding IsOutcome
continue_lem max evs (editing r) h k = k r h
continue_lem max evs (entered line r) h k = h

readline_loop-IsOutcome :
    (max : ℕ) (evs : List KeyEvent) (r : Reader)
    → IsReader max r
    → IsOutcome max (readline_loop max evs r)
unfolding readline_loop IsOutcome
readline_loop-IsOutcome max [] r h = h
readline_loop-IsOutcome max (ev ∷ evs) r h =
    continue_lem max evs (on_event max ev r) (on_event-IsOutcome max ev r h)
      (λ r' k. readline_loop-IsOutcome max evs r' k)

-- Where the buffer's last byte is a NUL, or no line of the history has `max - 1` bytes or more and `max`
-- is at least 2: whatever keys come, the line being edited and the line that is entered leave a byte of
-- the buffer's `max` for the NUL, the cursor is in the line or behind it, and the console stays in order.
pub readline-IsOutcome :
    (max : ℕ) (past : List ℕ) (evs : List KeyEvent) (h : History) (v : Vga)
    → 0 < max
    → InScreen v
    → IsSafe max past h
    → IsOutcome max (readline max past evs h v)
unfolding readline IsOutcome
readline-IsOutcome max past evs h v l k s =
    readline_loop-IsOutcome max evs (start_reader past h v) (omega arith, l, k, s)
