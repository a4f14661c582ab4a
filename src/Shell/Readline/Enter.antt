-- ===== src/Shell/Readline/Enter.antt =====
-- That `readline` of shell/shell.c returns.
use eclipse32_gui.Base.{ℕ, ◌≡◌, ◌⊎◌, true, false, ◌||◌, List, [], ◌∷◌, ◌++◌, ◌==◌, arith}
use eclipse32_gui.Keyboard.{KeyEvent, ascii}
use eclipse32_gui.Vga.{Vga}
use eclipse32_gui.Shell.History.{History}
use eclipse32_gui.Shell.Readline.{
  Reader, Outcome, editing, entered, start_reader, on_char, on_event, readline_loop, readline,
  is_esc,
}

-- A press of Enter.
abbrev pub IsEnter : KeyEvent → Type 0
IsEnter ev = (ev.keycode ≡ ascii) × (ev.released ≡ false) × ((ev.char ≡ 10) ⊎ (ev.char ≡ 13))

abbrev pub IsEntered : Outcome → Type 0
IsEntered (editing r) = ⊥
IsEntered (entered line r) = Unit

on_event-IsEntered :
    (max : ℕ) (ev : KeyEvent) (r : Reader) → IsEnter ev → IsEntered (on_event max ev r)
unfolding on_event is_esc on_char
on_event-IsEntered max ev r h =
    let ends : (ev.char == 10 || ev.char == 13) ≡ true = ground arith in rw (h.0, h.1, ends) tt

continued :
    (max : ℕ) (evs : List KeyEvent) (o : Outcome)
    → ((r : Reader) → IsEntered (readline_loop max evs r))
    → IsEntered (elim o [ editing r ↦ readline_loop max evs r | entered line r ↦ entered line r ])
continued max evs (editing r) h = h r
continued max evs (entered line r) h = tt

stopped :
    (max : ℕ) (evs : List KeyEvent) (o : Outcome)
    → IsEntered o
    → IsEntered (elim o [ editing r ↦ readline_loop max evs r | entered line r ↦ entered line r ])
stopped max evs (editing r) h = absurd h
stopped max evs (entered line r) h = tt

loop-IsEntered :
    (max : ℕ) (before after : List KeyEvent) (ev : KeyEvent)
    → IsEnter ev
    → (r : Reader) → IsEntered (readline_loop max (before ++ ev ∷ after) r)
unfolding readline_loop
loop-IsEntered max [] after ev h r =
    stopped max after (on_event max ev r) (on_event-IsEntered max ev r h)
loop-IsEntered max (e ∷ before) after ev h r =
    continued max (before ++ ev ∷ after) (on_event max e r) (loop-IsEntered max before after ev h)

-- Whatever keys come before it and whatever the buffer holds, a press of Enter ends the reading of a line, if nothing did before.
pub readline-IsEntered :
    (max : ℕ) (past : List ℕ) (before after : List KeyEvent) (ev : KeyEvent) (h : History) (v : Vga)
    → IsEnter ev
    → IsEntered (readline max past (before ++ ev ∷ after) h v)
unfolding readline
readline-IsEntered max past before after ev h v k =
    loop-IsEntered max before after ev k (start_reader past h v)
