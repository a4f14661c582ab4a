-- ===== src/Shell/Tokens/Tests.antt =====
-- Lines that shell/shell.c cuts into words.
use eclipse32_gui.Base.{ℕ, ◌≡◌, refl, true, List, [], ◌∷◌, none, some, arith}
use eclipse32_gui.Shell.Tokens.{
  empty_cmd, tokenize, tokens_loop, add_arg, span_until, skip_spaces, read_token, read_file_in,
  read_file_out, read_append, read_over, read_quoted, read_word,
}
use eclipse32_gui.Shell.Tokens.Words.{with_args, line_of, over_file, tokenize-line_of}

abbrev rm : List ℕ
rm = b'r' ∷ b'm' ∷ []

abbrev ab : List ℕ
ab = b'a' ∷ b'b' ∷ []

-- `rm "a b" <ab >>rm &`
quoted_test :
    tokenize (
      b'r' ∷ b'm' ∷ b' ' ∷ b'"' ∷ b'a' ∷ b' ' ∷ b'b' ∷ b'"' ∷ b' ' ∷ b'<' ∷ b'a' ∷ b'b' ∷ b' '
      ∷ b'>' ∷ b'>' ∷ b'r' ∷ b'm' ∷ b' ' ∷ b'&' ∷ [])
    ≡ record {
      args = rm ∷ (b'a' ∷ b' ' ∷ b'b' ∷ []) ∷ [];
      redir_in = some ab;
      redir_out = none;
      redir_out_append = some rm;
      background = true;
    }
unfolding tokenize tokens_loop add_arg span_until skip_spaces read_token read_file_in read_file_out
    read_append read_over read_quoted read_word
quoted_test = refl

-- `rm>ab`: the word ends at the `>`, which is overwritten, so the file becomes an argument.
glued_test : tokenize (b'r' ∷ b'm' ∷ b'>' ∷ b'a' ∷ b'b' ∷ []) ≡ with_args (rm ∷ ab ∷ [])
unfolding tokenize tokens_loop add_arg span_until skip_spaces read_token read_word
glued_test = refl

tokenize-line_of_example :
    (tokenize (line_of rm (ab ∷ []) []) ≡ with_args (rm ∷ ab ∷ []))
    × (tokenize (line_of rm (ab ∷ []) (over_file rm))
        ≡ record empty_cmd { args = rm ∷ ab ∷ []; redir_out = some rm })
tokenize-line_of_example =
    tokenize-line_of rm (ab ∷ []) rm ((refl, (refl, (refl, tt))), ((refl, (refl, (refl, tt))), tt))
      (omega arith) (refl, (refl, tt))
