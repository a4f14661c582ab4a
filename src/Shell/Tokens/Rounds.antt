-- ===== src/Shell/Tokens/Rounds.antt =====
-- The rounds of `tokenize` of shell/shell.c, and the number of arguments that it keeps.
use eclipse32_gui.Base.{
  ℕ, zero, suc, ◌≤◌, ◌<◌, ◌≡◌, refl, ap₂, Bool, ◌||◌, List, [], ◌∷◌, if◌then◌else◌, ◌==◌, length,
  length-append, arith, Bool-cases, inl, inr,
}
use eclipse32_gui.Shell.Tokens.{
  Cmd, empty_cmd, add_arg, span_until, skip_one, skip_spaces, read_file_in, read_file_out,
  read_append, read_over, read_quoted, read_word, read_token, tokens_loop, tokenize, is_blank,
  ends_file, ends_word,
}

span_until-le : (stop : ℕ → Bool) (s : List ℕ) → length (span_until stop s).1 ≤ length s
unfolding span_until
span_until-le stop [] = omega arith
span_until-le stop (c ∷ s) = elim (Bool-cases (stop c)) [
  | inl e ↦ rw e (omega arith)
  | inr e ↦ rw e (omega (arith, span_until-le stop s))
]

pub skip_one-le : (s : List ℕ) → length (skip_one s) ≤ length s
skip_one-le [] = omega arith
skip_one-le (c ∷ s) = omega arith

skip_spaces-le : (s : List ℕ) → length (skip_spaces s) ≤ length s
unfolding skip_spaces
skip_spaces-le [] = omega arith
skip_spaces-le (c ∷ s) = ground (arith, skip_spaces-le s)

file-le : (s : List ℕ) → length (skip_one (span_until ends_file (skip_spaces s)).1) ≤ length s
file-le s = omega (
  arith,
  skip_spaces-le s,
  span_until-le ends_file (skip_spaces s),
  skip_one-le (span_until ends_file (skip_spaces s)).1,
)

file_out-le : (s : List ℕ) (cmd : Cmd) → length (read_file_out s cmd).1 ≤ length s
unfolding read_file_out read_append read_over
file_out-le [] cmd = file-le []
file_out-le (c ∷ s) cmd = elim (Bool-cases (c == b'>')) [
  | inl e ↦ rw e (omega (arith, file-le s))
  | inr e ↦ rw e (file-le (c ∷ s))
]

-- A word has a byte or more, so it leaves less than the line.
word-le : (c : ℕ) (s : List ℕ) → length (skip_one (span_until ends_word (c ∷ s)).1) ≤ length s
unfolding span_until
word-le c s = elim (Bool-cases (ends_word c)) [
  | inl e ↦ rw e (omega arith)
  | inr e ↦ rw e (omega (arith, span_until-le ends_word s, skip_one-le (span_until ends_word s).1))
]

quoted-le : (q : ℕ) (s : List ℕ) → length (skip_one (span_until (λ c. c == q) s).1) ≤ length s
quoted-le q s =
    omega (arith, span_until-le (λ c. c == q) s, skip_one-le (span_until (λ c. c == q) s).1)

pub read_token-le : (c : ℕ) (s : List ℕ) (cmd : Cmd) → length (read_token c s cmd).1 ≤ length s
unfolding read_token read_file_in read_quoted read_word
read_token-le c s cmd = elim (Bool-cases (c == b'&')) [
  | inl e ↦ rw e (omega arith)
  | inr e ↦ elim (Bool-cases (c == b'<')) [
    | inl f ↦ rw (e, f) (file-le s)
    | inr f ↦ elim (Bool-cases (c == b'>')) [
      | inl g ↦ rw (e, f, g) (file_out-le s cmd)
      | inr g ↦ elim (Bool-cases (c == b'"' || c == b'\'')) [
        | inl h ↦ rw (e, f, g, h) (quoted-le c s)
        | inr h ↦ rw (e, f, g, h) (word-le c s)
      ]
    ]
  ]
]

-- Two numbers of rounds, each at least the length of the line, read the same.
pub tokens_loop_enough :
    (n m : ℕ) (s : List ℕ) (cmd : Cmd)
    → length s ≤ n
    → length s ≤ m
    → tokens_loop n s cmd ≡ tokens_loop m s cmd
unfolding tokens_loop
tokens_loop_enough zero zero s cmd h k = refl
tokens_loop_enough zero (suc m) [] cmd h k = refl
tokens_loop_enough (suc n) zero [] cmd h k = refl
tokens_loop_enough (suc n) (suc m) [] cmd h k = refl
tokens_loop_enough zero m (c ∷ s) cmd h k = absurd (omega arith)
tokens_loop_enough n zero (c ∷ s) cmd h k = absurd (omega arith)
tokens_loop_enough (suc n) (suc m) (c ∷ s) cmd h k =
    let (cmd', rest) = read_token c s cmd in
    let shorter = read_token-le c s cmd in
    ap₂ (λ blank token. if is_blank c then blank else token)
      (tokens_loop_enough n m s cmd (omega arith) (omega arith))
      (tokens_loop_enough n m rest cmd' (omega arith) (omega arith))

-- The arguments, and the NULL that follows them, fit the command's 64.
abbrev pub ArgsFit : Cmd → Type 0
ArgsFit cmd = length cmd.args < 64

add_arg-ArgsFit : (word : List ℕ) (cmd : Cmd) → ArgsFit cmd → ArgsFit (add_arg word cmd)
unfolding add_arg
add_arg-ArgsFit word cmd h = ground (arith, length-append cmd.args (word ∷ []))

word-ArgsFit : (s : List ℕ) (cmd : Cmd) → ArgsFit cmd → ArgsFit (read_word s cmd).0
unfolding read_word
word-ArgsFit s cmd h = ground (arith, add_arg-ArgsFit (span_until ends_word s).0 cmd h)

file_out-ArgsFit : (s : List ℕ) (cmd : Cmd) → ArgsFit cmd → ArgsFit (read_file_out s cmd).0
unfolding read_file_out read_append read_over
file_out-ArgsFit [] cmd h = h
file_out-ArgsFit (c ∷ s) cmd h = elim (Bool-cases (c == b'>')) [ inl e ↦ rw e h | inr e ↦ rw e h ]

read_token-ArgsFit : (c : ℕ) (s : List ℕ) (cmd : Cmd) → ArgsFit cmd → ArgsFit (read_token c s cmd).0
unfolding read_token read_file_in read_quoted
read_token-ArgsFit c s cmd h = ground (
  arith,
  file_out-ArgsFit s cmd h,
  word-ArgsFit (c ∷ s) cmd h,
  add_arg-ArgsFit (span_until (λ d. d == c) s).0 cmd h,
)

tokens_loop-ArgsFit : (n : ℕ) (s : List ℕ) (cmd : Cmd) → ArgsFit cmd → ArgsFit (tokens_loop n s cmd)
unfolding tokens_loop
tokens_loop-ArgsFit zero s cmd h = h
tokens_loop-ArgsFit (suc n) [] cmd h = h
tokens_loop-ArgsFit (suc n) (c ∷ s) cmd h = elim (Bool-cases (is_blank c)) [
  | inl e ↦ rw e (tokens_loop-ArgsFit n s cmd h)
  | inr e ↦
      let (cmd', rest) = read_token c s cmd in
      rw e (tokens_loop-ArgsFit n rest cmd' (read_token-ArgsFit c s cmd h))
]

-- Whatever the line, there are at most 63 arguments.
pub tokenize-ArgsFit : (line : List ℕ) → ArgsFit (tokenize line)
unfolding tokenize
tokenize-ArgsFit line = tokens_loop-ArgsFit (length line) line empty_cmd (omega arith)
