-- ===== src/Shell/Tokens.antt =====
-- `tokenize` of shell/shell.c. The code cuts the line up in place: a pointer into the line becomes the
-- string from there to the byte that the code overwrites with a NUL, or to the line's end.
pub mod Words
pub mod Rounds
mod Tests
use eclipse32_gui.Base.{
  ℕ, zero, suc, ◌+◌, ◌-◌, Bool, true, false, ◌&&◌, ◌||◌, List, [], ◌∷◌, ◌++◌, Option, none, some,
  if◌then◌else◌, ◌==◌, ltb, length,
}

abbrev pub shell_max_args : ℕ
shell_max_args = 64

-- `cmd_t`; `argc` is the number of `args`.
pub record Cmd : Type 0 where
  pub args : List (List ℕ)
  pub redir_in : Option (List ℕ)
  pub redir_out : Option (List ℕ)
  pub redir_out_append : Option (List ℕ)
  pub background : Bool

abbrev pub empty_cmd : Cmd
empty_cmd = record {
  args = [];
  redir_in = none;
  redir_out = none;
  redir_out_append = none;
  background = false;
}

abbrev pub is_blank : ℕ → Bool
is_blank c = c == b' ' || c == b'\t'

-- The end of a file's name.
abbrev pub ends_file : ℕ → Bool
ends_file c = c == b' ' || c == b'\t' || c == b'>' || c == b'<'

-- The end of a plain argument.
abbrev pub ends_word : ℕ → Bool
ends_word c = ends_file c || c == b'&'

-- `while (*p && !stop(*p)) p++`: the bytes that are passed, and the rest.
unfoldable pub span_until : (ℕ → Bool) → List ℕ → List ℕ × List ℕ
span_until stop [] = ([], [])
span_until stop (c ∷ s) =
    let (word, rest) = span_until stop s in if stop c then ([], c ∷ s) else (c ∷ word, rest)

-- `if (*p) *p++ = 0`
abbrev pub skip_one : List ℕ → List ℕ
skip_one [] = []
skip_one (c ∷ s) = s

unfoldable pub skip_spaces : List ℕ → List ℕ
skip_spaces [] = []
skip_spaces (c ∷ s) = let rest = skip_spaces s in if c == b' ' then rest else c ∷ s

-- An argument is dropped when 63 are there.
unfoldable pub add_arg : List ℕ → Cmd → Cmd
add_arg word cmd =
    if ltb (length cmd.args) (shell_max_args - 1)
    then record cmd { args = cmd.args ++ word ∷ [] }
    else cmd

-- A round at a byte that is no blank: the command, and the line that is left.
unfoldable pub read_file_in : List ℕ → Cmd → Cmd × List ℕ
read_file_in s cmd =
    let (file, rest) = span_until ends_file (skip_spaces s) in
    (record cmd { redir_in = some file }, skip_one rest)

unfoldable pub read_append : List ℕ → Cmd → Cmd × List ℕ
read_append s cmd =
    let (file, rest) = span_until ends_file (skip_spaces s) in
    (record cmd { redir_out_append = some file }, skip_one rest)

unfoldable pub read_over : List ℕ → Cmd → Cmd × List ℕ
read_over s cmd =
    let (file, rest) = span_until ends_file (skip_spaces s) in
    (record cmd { redir_out = some file }, skip_one rest)

unfoldable pub read_file_out : List ℕ → Cmd → Cmd × List ℕ
read_file_out [] cmd = read_over [] cmd
read_file_out (c ∷ s) cmd = if c == b'>' then read_append s cmd else read_over (c ∷ s) cmd

unfoldable pub read_quoted : ℕ → List ℕ → Cmd → Cmd × List ℕ
read_quoted q s cmd =
    let (word, rest) = span_until (λ c. c == q) s in (add_arg word cmd, skip_one rest)

abbrev starts_background : List ℕ → Bool
starts_background [] = false
starts_background (c ∷ s) = c == b'&'

unfoldable pub read_word : List ℕ → Cmd → Cmd × List ℕ
read_word s cmd =
    let (word, rest) = span_until ends_word s in
    let more = add_arg word cmd in
    (if starts_background rest then record more { background = true } else more, skip_one rest)

unfoldable pub read_token : ℕ → List ℕ → Cmd → Cmd × List ℕ
read_token c s cmd =
    if c == b'&'
    then (record cmd { background = true }, s)
    else if c == b'<'
    then read_file_in s cmd
    else if c == b'>'
    then read_file_out s cmd
    else if c == b'"' || c == b'\''
    then read_quoted c s cmd
    else read_word (c ∷ s) cmd

-- The loop, which passes a blank in a round of its own. A round reads a byte or more.
unfoldable pub tokens_loop : ℕ → List ℕ → Cmd → Cmd
tokens_loop zero s cmd = cmd
tokens_loop (suc n) [] cmd = cmd
tokens_loop (suc n) (c ∷ s) cmd =
    let (cmd', rest) = read_token c s cmd in
    let blank = tokens_loop n s cmd in
    let token = tokens_loop n rest cmd' in if is_blank c then blank else token

unfoldable pub tokenize : List ℕ → Cmd
tokenize line = tokens_loop (length line) line empty_cmd
