-- ===== src/Shell/Tokens/Words.antt =====
-- `tokenize` of shell/shell.c on a command that is written out.
use eclipse32_gui.Base.{
  ℕ, ◌+◌, ◌<◌, ◌≡◌, refl, ◌∙◌, ap, Bool, true, false, ◌||◌, List, [], ◌∷◌, ◌++◌, some, ◌==◌, ltb,
  length, length-append, append_assoc, arith,
}
use eclipse32_gui.Shell.Tokens.{
  Cmd, empty_cmd, add_arg, span_until, skip_one, skip_spaces, read_file_out, read_over, read_word,
  read_token, tokens_loop, tokenize, is_blank, ends_file, ends_word,
}
use eclipse32_gui.Shell.Tokens.Rounds.{tokens_loop_enough, skip_one-le}

abbrev pub NoneOf : (ℕ → Bool) → List ℕ → Type 0
NoneOf stop [] = Unit
NoneOf stop (c ∷ s) = (stop c ≡ false) × NoneOf stop s

abbrev pub is_quote : ℕ → Bool
is_quote c = c == b'"' || c == b'\''

-- A word that needs no quotes.
abbrev pub IsWord : List ℕ → Type 0
IsWord [] = ⊥
IsWord (c ∷ s) = (is_quote c ≡ false) × NoneOf ends_word (c ∷ s)

abbrev pub AllWords : List (List ℕ) → Type 0
AllWords [] = Unit
AllWords (w ∷ ws) = IsWord w × AllWords ws

-- The words with a space between each two, and a tail.
abbrev pub line_of : List ℕ → List (List ℕ) → List ℕ → List ℕ
line_of w [] tail = w ++ tail
line_of w (v ∷ ws) tail = w ++ b' ' ∷ line_of v ws tail

abbrev pub with_args : List (List ℕ) → Cmd
with_args ws = record empty_cmd { args = ws }

-- The end of the line, or a space.
abbrev pub IsApart : List ℕ → Type 0
IsApart [] = Unit
IsApart (c ∷ s) = c ≡ b' '

span_until_end : (stop : ℕ → Bool) (w : List ℕ) → NoneOf stop w → span_until stop w ≡ (w, [])
unfolding span_until
span_until_end stop [] h = refl
span_until_end stop (c ∷ w) h = rw (h.0, span_until_end stop w h.1) refl

span_until_apart :
    (w rest : List ℕ)
    → NoneOf ends_word w
    → IsApart rest
    → span_until ends_word (w ++ rest) ≡ (w, rest)
unfolding span_until
span_until_apart [] [] h a = refl
span_until_apart [] (c ∷ rest) h a = rw a refl
span_until_apart (c ∷ w) rest h a = rw (h.0, span_until_apart w rest h.1 a) refl

add_arg_lem :
    (w : List ℕ) (us : List (List ℕ))
    → length us < 63
    → add_arg w (with_args us) ≡ with_args (us ++ w ∷ [])
unfolding add_arg
add_arg_lem w us h = let free : ltb (length us) 63 ≡ true = ground arith in rw free refl

read_token_word :
    (c : ℕ) (s rest : List ℕ) (us : List (List ℕ))
    → IsWord (c ∷ s)
    → IsApart rest
    → length us < 63
    → read_token c (s ++ rest) (with_args us) ≡ (with_args (us ++ (c ∷ s) ∷ []), skip_one rest)
unfolding read_token read_word
read_token_word c s [] us h a l =
    let amp : (c == b'&') ≡ false = ground arith in
    let less : (c == b'<') ≡ false = ground arith in
    let more : (c == b'>') ≡ false = ground arith in
    rw (amp, less, more, h.0, span_until_apart (c ∷ s) [] h.1 a, add_arg_lem (c ∷ s) us l) refl
read_token_word c s (d ∷ rest) us h a l =
    let amp : (c == b'&') ≡ false = ground arith in
    let less : (c == b'<') ≡ false = ground arith in
    let more : (c == b'>') ≡ false = ground arith in
    rw
      (amp, less, more, h.0, span_until_apart (c ∷ s) (d ∷ rest) h.1 a, add_arg_lem (c ∷ s) us l, a)
      refl

loop_nil : (cmd : Cmd) → tokens_loop 0 [] cmd ≡ cmd
unfolding tokens_loop
loop_nil cmd = refl

-- A word at the head of the line becomes the next argument.
loop_word :
    (w rest : List ℕ) (us : List (List ℕ))
    → IsWord w
    → IsApart rest
    → length us < 63
    → tokens_loop (length (w ++ rest)) (w ++ rest) (with_args us)
      ≡ tokens_loop (length (skip_one rest)) (skip_one rest) (with_args (us ++ w ∷ []))
unfolding tokens_loop
loop_word [] rest us h a l = absurd h
loop_word (c ∷ s) rest us h a l =
    let dense : is_blank c ≡ false = ground arith in
    rw (dense, read_token_word c s rest us h a l)
      (tokens_loop_enough (length (s ++ rest)) (length (skip_one rest)) (skip_one rest)
        (with_args (us ++ (c ∷ s) ∷ [])) (omega (arith, length-append s rest, skip_one-le rest))
        (omega arith))

loop_line :
    (w : List ℕ) (ws : List (List ℕ)) (tail : List ℕ) (us : List (List ℕ))
    → AllWords (w ∷ ws)
    → IsApart tail
    → length us + length ws < 63
    → tokens_loop (length (line_of w ws tail)) (line_of w ws tail) (with_args us)
      ≡ tokens_loop (length (skip_one tail)) (skip_one tail) (with_args (us ++ w ∷ ws))
loop_line w [] tail us h a l = loop_word w tail us h.0 a (omega arith)
loop_line w (v ∷ ws) tail us h a l =
    loop_word w (b' ' ∷ line_of v ws tail) us h.0 refl (omega arith)
    ∙ (loop_line v ws tail (us ++ w ∷ []) h.1 a (omega (arith, length-append us (w ∷ [])))
        ∙ ap (λ args. tokens_loop (length (skip_one tail)) (skip_one tail) (with_args args))
            (append_assoc us (w ∷ []) (v ∷ ws)))

-- The name of a file that a redirection takes: no space, tab, `<` or `>` in it, and not empty.
abbrev pub IsFile : List ℕ → Type 0
IsFile [] = ⊥
IsFile (c ∷ s) = NoneOf ends_file (c ∷ s)

abbrev pub over_file : List ℕ → List ℕ
over_file file = b' ' ∷ b'>' ∷ b' ' ∷ file

read_token_over :
    (file : List ℕ) (cmd : Cmd)
    → IsFile file
    → read_token b'>' (b' ' ∷ file) cmd ≡ (record cmd { redir_out = some file }, [])
unfolding read_token read_file_out read_over skip_spaces
read_token_over [] cmd h = absurd h
read_token_over (c ∷ file) cmd h =
    let dense : (c == b' ') ≡ false = ground arith in
    rw (dense, span_until_end ends_file (c ∷ file) h) refl

loop_over :
    (file : List ℕ) (cmd : Cmd)
    → IsFile file
    → tokens_loop (length (b'>' ∷ b' ' ∷ file)) (b'>' ∷ b' ' ∷ file) cmd
      ≡ record cmd { redir_out = some file }
unfolding tokens_loop
loop_over file cmd h = rw (read_token_over file cmd h) refl

-- Up to 63 words with a space between each two are read as the arguments, in order and nothing else;
-- and a `>` with a file behind them as the file that the output goes to.
pub tokenize-line_of :
    (w : List ℕ) (ws : List (List ℕ)) (file : List ℕ)
    → AllWords (w ∷ ws)
    → length ws < 63
    → IsFile file
    → (tokenize (line_of w ws []) ≡ with_args (w ∷ ws))
      × (tokenize (line_of w ws (over_file file))
          ≡ record empty_cmd { args = w ∷ ws; redir_out = some file })
unfolding tokenize
tokenize-line_of w ws file h l f = (
  loop_line w ws [] [] h tt (omega arith) ∙ loop_nil (with_args (w ∷ ws)),
  loop_line w ws (over_file file) [] h refl (omega arith) ∙ loop_over file (with_args (w ∷ ws)) f,
)
