-- ===== src/Shell/Readline/Tests.antt =====
-- Keys that shell/shell.c reads a line from.
use eclipse32_gui.Base.{
  ℕ, zero, suc, replicate, inr, ◌≡◌, refl, inl, false, List, [], ◌∷◌, ◌++◌, arith,
}
use eclipse32_gui.Keyboard.{KeyCode, KeyEvent, ascii, left, delete}
use eclipse32_gui.Vga.{Vga}
use eclipse32_gui.Shell.History.{initial_history}
use eclipse32_gui.Shell.Readline.{
  recall, settle, Reader, Outcome, editing, entered, readline, readline_loop, on_event, on_char,
  on_key, is_esc, insert_char, erase_before, erase_at, go_left, go_right, cut_end,
}
use eclipse32_gui.Shell.Readline.Keeps.{AllShorter}
use eclipse32_gui.Shell.Readline.Bounds.{IsOutcome, readline-IsOutcome}
use eclipse32_gui.Shell.Readline.Edits.{
  sides, add_left, drop_left, drop_right, move_left, move_right, sides_lem,
}
use eclipse32_gui.Shell.Readline.Enter.{IsEntered, readline-IsEntered}

abbrev key : KeyCode → ℕ → KeyEvent
key k c = record {
  keycode = k;
  char = c;
  released = false;
  shift = false;
  ctrl = false;
  alt = false;
  caps = false;
}

abbrev typed : List ℕ → List KeyEvent
typed [] = []
typed (c ∷ cs) = key ascii c ∷ typed cs

abbrev console : Vga
console = record { mem = λ x. 0; fg = 7; bg = 0; col = 2; row = 24; cursor = 1922 }

abbrev line_of : Outcome → List ℕ
line_of (editing r) = r.buf
line_of (entered line r) = line

-- `lx`, left, delete, `s`, Enter
abbrev keys : List KeyEvent
keys = typed (b'l' ∷ b'x' ∷ []) ++ key left 0 ∷ key delete 0 ∷ typed (b's' ∷ 10 ∷ [])

readline_test : line_of (readline 80 [] keys initial_history console) ≡ b'l' ∷ b's' ∷ []
unfolding readline readline_loop on_event settle on_char on_key is_esc insert_char erase_at go_left
readline_test = refl

-- A buffer that is not initialised, and a history of empty lines.
initial-AllShorter : AllShorter 79 initial_history.lines
initial-AllShorter = replicated 128
  where
    replicated : (n : ℕ) → AllShorter 79 (replicate n [])
    replicated zero = tt
    replicated (suc n) = (omega arith, replicated n)

readline-IsOutcome_example : IsOutcome 80 (readline 80 (b'?' ∷ []) keys initial_history console)
readline-IsOutcome_example =
    readline-IsOutcome 80 (b'?' ∷ []) keys initial_history console (omega arith)
      (omega arith, omega arith) (inr (initial-AllShorter, omega arith))

abbrev overran : Reader
overran = record {
  buf = [];
  past = b'?' ∷ [];
  cursor = 0;
  history = initial_history;
  screen = console;
}

-- A line of three bytes is recalled into a buffer of four whose last byte is not a NUL.
overrun_test : (recall 4 (b'a' ∷ b'b' ∷ b'c' ∷ []) overran).buf ≡ b'a' ∷ b'b' ∷ b'c' ∷ b'?' ∷ []
unfolding recall
overrun_test = refl

-- `ab` with the cursor on the `b`
abbrev reader : Reader
reader = record {
  buf = b'a' ∷ b'b' ∷ [];
  past = [];
  cursor = 1;
  history = initial_history;
  screen = console;
}

sides_lem_example :
    (sides (insert_char 80 b'x' reader) ≡ add_left b'x' (sides reader))
    × (sides (erase_before reader) ≡ drop_left (sides reader))
    × (sides (erase_at reader) ≡ drop_right (sides reader))
    × (sides (go_left reader) ≡ move_left (sides reader))
    × (sides (go_right reader) ≡ move_right (sides reader))
    × (sides (cut_end reader) ≡ ((sides reader).0, []))
sides_lem_example = sides_lem reader 80 b'x' (omega arith)

readline-IsEntered_example : IsEntered (
    readline 80 (b'?' ∷ []) (typed (b'l' ∷ b's' ∷ []) ++ key ascii 10 ∷ []) initial_history console)
readline-IsEntered_example =
    readline-IsEntered 80 (b'?' ∷ []) (typed (b'l' ∷ b's' ∷ [])) [] (key ascii 10) initial_history
      console (refl, refl, inl refl)
