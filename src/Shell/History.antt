-- ===== src/Shell/History.antt =====
-- The history of shell/shell.c, a ring of 128 lines. The position counts lines from the first one
-- that was added.
pub mod Recent
mod Tests
use eclipse32_gui.Base.{
  ℕ, zero, suc, ◌+◌, ◌-◌, ◌%◌, Bool, true, false, ◌&&◌, List, [], ◌∷◌, Option, none, some,
  if◌then◌else◌, ◌==◌, ltb, leb, get_or, set, take, replicate,
}
use eclipse32_gui.Shell.{shell_max_line, same_string, is_empty}

abbrev pub shell_max_history : ℕ
shell_max_history = 128

pub record History : Type 0 where
  pub lines : List (List ℕ)
  pub count : ℕ
  pub at : ℕ

abbrev pub initial_history : History
initial_history = record { lines = replicate shell_max_history []; count = 0; at = 0 }

-- `history[i % SHELL_MAX_HISTORY].line`
abbrev pub line_at : History → ℕ → List ℕ
line_at h i = get_or h.lines (i % shell_max_history) []

unfoldable pub push_line : List ℕ → History → History
push_line line h = record {
  lines = set h.lines (h.count % shell_max_history) (take (shell_max_line - 1) line);
  count = h.count + 1;
  at = h.count + 1;
}

unfoldable pub history_add : List ℕ → History → History
history_add line h =
    if is_empty line
    then h
    else if ltb 0 h.count && same_string (line_at h (h.count - 1)) line
    then h
    else push_line line h

-- `none` is the code's NULL.
unfoldable pub history_prev : History → Option (List ℕ) × History
history_prev h =
    if h.at == 0 then (none, h) else (some (line_at h (h.at - 1)), record h { at = h.at - 1 })

unfoldable pub history_next : History → List ℕ × History
history_next h =
    if leb h.count h.at
    then ([], h)
    else let t = record h { at = h.at + 1 } in
      if leb t.count t.at then ([], t) else (line_at t t.at, t)
