-- ===== src/Shell/Vars.antt =====
-- The variables and the aliases of shell/shell.c, two tables of pairs, and the expansion of a line.
--
-- The exit status is a number: the code's digits for a negative one are no digits.
pub mod Table
pub mod Expand
pub mod Rounds
mod Tests
use eclipse32_gui.Base.{
  ℕ, zero, suc, ◌+◌, ◌-◌, ◌/◌, ◌%◌, Bool, true, false, ◌&&◌, ◌||◌, List, [], ◌∷◌, ◌++◌, Option,
  none, some, if◌then◌else◌, ◌==◌, ltb, leb, take, length,
}
use eclipse32_gui.KString.{text}
use eclipse32_gui.Env.{EnvTable, env_get}
use eclipse32_gui.Shell.{shell_max_line, same_string}

abbrev pub shell_max_vars : ℕ
shell_max_vars = 64

abbrev pub shell_max_aliases : ℕ
shell_max_aliases = 32

-- `shell_var_t` and `alias_t`, the slots that are in use
pub record Pair : Type 0 where
  pub name : List ℕ
  pub value : List ℕ

-- The search of `var_set` and `alias_set`: `none` when no slot has the name.
unfoldable pub replace_value : List ℕ → List ℕ → List Pair → Option (List Pair)
replace_value name value [] = none
replace_value name value (p ∷ t) =
    if same_string p.name name
    then some (record p { value = take (shell_max_line - 1) value } ∷ t)
    else elim (replace_value name value t) [ none ↦ none | some r ↦ some (p ∷ r) ]

abbrev pub new_pair : List ℕ → List ℕ → Pair
new_pair name value = record { name = take 63 name; value = take (shell_max_line - 1) value }

-- What both do, but for the number of slots.
unfoldable pub set_pair : ℕ → List ℕ → List ℕ → List Pair → List Pair
set_pair limit name value t = elim (replace_value name value t) [
  | some r ↦ r
  | none ↦ if ltb (length t) limit then t ++ new_pair name value ∷ [] else t
]

-- The search of `var_get`, and `alias_get`.
unfoldable pub get_pair : List ℕ → List Pair → Option (List ℕ)
get_pair name [] = none
get_pair name (p ∷ t) = if same_string p.name name then some p.value else get_pair name t

abbrev pub var_set : List ℕ → List ℕ → List Pair → List Pair
var_set = set_pair shell_max_vars

abbrev pub alias_set : List ℕ → List ℕ → List Pair → List Pair
alias_set = set_pair shell_max_aliases

abbrev pub alias_get : List ℕ → List Pair → Option (List ℕ)
alias_get = get_pair

unfoldable pub var_get : EnvTable → List ℕ → List Pair → Option (List ℕ)
var_get env name vars = elim (get_pair name vars) [
  | some value ↦ some value
  | none ↦ elim (env_get env name) [ none ↦ none | some value ↦ some (text value) ]
]

abbrev pub is_name_char : ℕ → Bool
is_name_char c =
    (leb b'a' c && leb c b'z')
    || (leb b'A' c && leb c b'Z')
    || (leb b'0' c && leb c b'9')
    || c == b'_'

-- A variable's name of at most `n` bytes, and what follows it.
unfoldable pub read_name : ℕ → List ℕ → List ℕ × List ℕ
read_name zero s = ([], s)
read_name (suc n) [] = ([], [])
read_name (suc n) (c ∷ s) =
    let (name, rest) = read_name n s in if is_name_char c then (c ∷ name, rest) else ([], c ∷ s)

abbrev pub skip_byte : ℕ → List ℕ → List ℕ
skip_byte b [] = []
skip_byte b (c ∷ s) = if c == b then s else c ∷ s

abbrev starts_with : ℕ → List ℕ → Bool
starts_with b [] = false
starts_with b (c ∷ s) = c == b

-- The name behind a `$`, in braces or not.
unfoldable pub read_reference : List ℕ → List ℕ × List ℕ
read_reference s =
    let (name, rest) = read_name 63 (skip_byte b'{' s) in
    if starts_with b'{' s then (name, skip_byte b'}' rest) else (name, rest)

-- The digits of the status; a number of 32 bits has no more than ten.
unfoldable pub status_digits : ℕ → ℕ → List ℕ
status_digits zero n = []
status_digits (suc k) n = if n == 0 then [] else status_digits k (n / 10) ++ (b'0' + n % 10) ∷ []

abbrev pub status_text : ℕ → List ℕ
status_text n = if n == 0 then b'0' ∷ [] else status_digits 10 n

-- The bytes that stand for a backslash and the byte behind it.
abbrev pub escaped : ℕ → List ℕ
escaped c =
    if c == b'n'
    then 10 ∷ []
    else if c == b't'
    then 9 ∷ []
    else if c == b'\\'
    then b'\\' ∷ []
    else if c == b'$'
    then b'$' ∷ []
    else b'\\' ∷ c ∷ []

module _ (value_of : List ℕ → List ℕ) (status : ℕ) where
  -- What the line's first piece expands to, and what is left of the line.
  unfoldable pub expand_piece : ℕ → List ℕ → List ℕ × List ℕ
  expand_piece c [] = if c == b'$' then (value_of [], []) else (c ∷ [], [])
  expand_piece c (d ∷ s) =
      if c == b'$'
      then (if d == b'?'
          then (status_text status, s)
          else (let (name, rest) = read_reference (d ∷ s) in (value_of name, rest)))
      else if c == b'\\'
      then (escaped d, s)
      else (c ∷ [], d ∷ s)

  -- `room` is what is left of the output: max - 1 - o.
  unfoldable pub expand_loop : ℕ → List ℕ → ℕ → List ℕ
  expand_loop zero s room = []
  expand_loop (suc n) [] room = []
  expand_loop (suc n) (c ∷ s) room =
      let (out, rest) = expand_piece c s in
      let more = expand_loop n rest (room - length (take room out)) in
      if room == 0 then [] else take room out ++ more

abbrev pub or_empty : Option (List ℕ) → List ℕ
or_empty none = []
or_empty (some s) = s

-- A variable that is not set is empty.
abbrev pub value_in : EnvTable → List Pair → List ℕ → List ℕ
value_in env vars name = or_empty (var_get env name vars)

-- A round reads a byte or more of the line.
unfoldable pub expand_vars : EnvTable → List Pair → ℕ → ℕ → List ℕ → List ℕ
expand_vars env vars status max s = expand_loop (value_in env vars) status (length s) s (max - 1)
