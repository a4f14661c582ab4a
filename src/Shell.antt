-- ===== src/Shell.antt =====
-- shell/shell.c, the Eclipse shell.
--
-- A string of the shell is the list of its bytes before the NUL. A buffer of n bytes that only
-- `kstrncpy(..., n - 1)` writes ends in a NUL, so it is the string it holds, which such a copy cuts
-- off at n - 1 bytes.
pub mod Path
pub mod History
pub mod Vars
pub mod Tokens
pub mod Readline
pub mod Ed
use eclipse32_gui.Base.{ℕ, Bool, true, false, List, [], ◌∷◌}
use eclipse32_gui.KString.{is_zero, kstrcmp}

abbrev pub shell_max_line : ℕ
shell_max_line = 1024

-- `kstrcmp(a, b) == 0`
abbrev pub same_string : List ℕ → List ℕ → Bool
same_string a b = is_zero (kstrcmp a b)

-- `!s[0]`
abbrev pub is_empty : List ℕ → Bool
is_empty [] = true
is_empty (c ∷ s) = false
