-- ===== src/Shell/Vars/Expand.antt =====
-- What `expand_vars` of shell/shell.c makes of a line.
use eclipse32_gui.Base.{
  ℕ, zero, suc, ◌+◌, ◌-◌, ◌≤◌, ◌<◌, ◌≡◌, refl, sym, ◌∙◌, ap, subst, Bool, true, false, List, [],
  ◌∷◌, ◌++◌, ◌⊎◌, ◌==◌, take_all, length, length-append, append_nil, arith, inl, inr,
}
use eclipse32_gui.Env.{EnvTable}
use eclipse32_gui.Shell.Vars.{
  Pair, expand_loop, expand_piece, expand_vars, value_in, read_name, read_reference, is_name_char,
}
use eclipse32_gui.Shell.Vars.Rounds.{expand_loop_enough}

-- Bytes that stand for themselves.
abbrev pub IsVerbatim : List ℕ → Type 0
IsVerbatim [] = Unit
IsVerbatim (c ∷ s) = ((c == b'$') ≡ false) × ((c == b'\\') ≡ false) × IsVerbatim s

-- Bytes of a name.
abbrev pub AllNameChars : List ℕ → Type 0
AllNameChars [] = Unit
AllNameChars (c ∷ s) = (is_name_char c ≡ true) × AllNameChars s

-- A name ends before this.
abbrev pub EndsName : List ℕ → Type 0
EndsName [] = Unit
EndsName (c ∷ s) = is_name_char c ≡ false

read_name_lem :
    (n : ℕ) (name rest : List ℕ)
    → length name ≤ n
    → AllNameChars name
    → EndsName rest
    → read_name n (name ++ rest) ≡ (name, rest)
unfolding read_name
read_name_lem zero [] rest h k e = refl
read_name_lem zero (c ∷ name) rest h k e = absurd (omega arith)
read_name_lem (suc n) [] [] h k e = refl
read_name_lem (suc n) [] (c ∷ rest) h k e = rw e refl
read_name_lem (suc n) (c ∷ name) rest h k e =
    rw (k.0, read_name_lem n name rest (omega arith) k.1 e) refl

-- A reference to a name, in braces or not, and what stands behind it.
abbrev pub reference : Bool → List ℕ → List ℕ → List ℕ
reference true name rest = b'{' ∷ (name ++ b'}' ∷ rest)
reference false name rest = name ++ rest

reference-le :
    (braces : Bool) (name rest : List ℕ) → length rest ≤ length (reference braces name rest)
reference-le true name rest = omega (arith, length-append name (b'}' ∷ rest))
reference-le false name rest = omega (arith, length-append name rest)

read_reference_lem :
    (braces : Bool) (c : ℕ) (name rest : List ℕ)
    → length name < 63
    → AllNameChars (c ∷ name)
    → (braces ≡ true) ⊎ EndsName rest
    → read_reference (reference braces (c ∷ name) rest) ≡ (c ∷ name, rest)
unfolding read_reference
read_reference_lem true c name rest h k e =
    rw (read_name_lem 63 (c ∷ name) (b'}' ∷ rest) h k refl) refl
read_reference_lem false c name rest h k (inl e) = ground arith
read_reference_lem false c name rest h k (inr e) =
    let no_brace : (c == b'{') ≡ false = ground arith in
    rw (no_brace, read_name_lem 63 (c ∷ name) rest h k e) refl

module _ (value_of : List ℕ → List ℕ) (status : ℕ) where
  expand_piece_plain :
      (c : ℕ) (s : List ℕ)
      → (c == b'$') ≡ false
      → (c == b'\\') ≡ false
      → expand_piece value_of status c s ≡ (c ∷ [], s)
  unfolding expand_piece
  expand_piece_plain c [] h k = rw h refl
  expand_piece_plain c (d ∷ s) h k = rw (h, k) refl

  -- Not the exit status: a name does not begin with `?`.
  expand_piece-reference :
      (braces : Bool) (c : ℕ) (name rest : List ℕ)
      → length name < 63
      → AllNameChars (c ∷ name)
      → (braces ≡ true) ⊎ EndsName rest
      → expand_piece value_of status b'$' (reference braces (c ∷ name) rest)
        ≡ (value_of (c ∷ name), rest)
  unfolding expand_piece
  expand_piece-reference true c name rest h k e =
      rw (read_reference_lem true c name rest h k e) refl
  expand_piece-reference false c name rest h k e =
      let no_status : (c == b'?') ≡ false = ground arith in
      rw (no_status, read_reference_lem false c name rest h k e) refl

  expand_loop_full : (n : ℕ) (s : List ℕ) → expand_loop value_of status n s 0 ≡ []
  unfolding expand_loop
  expand_loop_full zero s = refl
  expand_loop_full (suc n) [] = refl
  expand_loop_full (suc n) (c ∷ s) = refl

  expand_step :
      (n c : ℕ) (s out rest : List ℕ) (room : ℕ)
      → expand_piece value_of status c s ≡ (out, rest)
      → length out ≤ room
      → expand_loop value_of status (suc n) (c ∷ s) room
        ≡ out ++ expand_loop value_of status n rest (room - length out)
  unfolding expand_loop
  expand_step n c s [] rest zero e h = sym (expand_loop_full n rest)
  expand_step n c s (o ∷ out) rest zero e h = absurd (omega arith)
  expand_step n c s out rest (suc room) e h =
      let has_room : (suc room == 0) ≡ false = ground arith in
      rw (e, take_all (suc room) out h, has_room) refl

  expand_verbatim :
      (pre s : List ℕ) (room : ℕ)
      → IsVerbatim pre
      → length pre ≤ room
      → expand_loop value_of status (length (pre ++ s)) (pre ++ s) room
        ≡ pre ++ expand_loop value_of status (length s) s (room - length pre)
  expand_verbatim [] s room h l =
      ap (expand_loop value_of status (length s) s) {x = room} {y = room - 0} (omega arith)
  expand_verbatim (c ∷ pre) s room h l =
      expand_step (length (pre ++ s)) c (pre ++ s) (c ∷ []) (pre ++ s) room
        (expand_piece_plain c (pre ++ s) h.0 h.1) (omega arith)
      ∙ ap (c ∷◌) (
          expand_verbatim pre s (room - 1) h.2 (omega arith)
          ∙ ap (λ r. pre ++ expand_loop value_of status (length s) s r) {x = room - 1 - length pre}
              {y = room - suc (length pre)} (omega arith))

  expand_verbatim_nil :
      (s : List ℕ) (room : ℕ)
      → IsVerbatim s
      → length s ≤ room
      → expand_loop value_of status (length (s ++ [])) (s ++ []) room ≡ s ++ []
  unfolding expand_loop
  expand_verbatim_nil s room h l = expand_verbatim s [] room h l

  expand_verbatim_all :
      (s : List ℕ) (room : ℕ)
      → IsVerbatim s
      → length s ≤ room
      → expand_loop value_of status (length s) s room ≡ s
  expand_verbatim_all s room h l =
      subst (λ t. expand_loop value_of status (length t) t room ≡ t) (append_nil s)
        (expand_verbatim_nil s room h l)

-- A reference to a variable in a line that otherwise stands for itself is replaced by the variable's
-- value, if the name has 1 to 63 letters, digits and underscores, and is in braces or ends before
-- what follows, and the output has the room.
pub expand_vars-reference :
    (env : EnvTable) (vars : List Pair) (status max : ℕ) (braces : Bool)
    → (pre : List ℕ) (c : ℕ) (name post : List ℕ) → IsVerbatim pre
    → IsVerbatim post
    → length name < 63
    → AllNameChars (c ∷ name)
    → (braces ≡ true) ⊎ EndsName post
    → length pre + length (value_in env vars (c ∷ name)) + length post < max
    → expand_vars env vars status max (pre ++ b'$' ∷ reference braces (c ∷ name) post)
      ≡ pre ++ (value_in env vars (c ∷ name) ++ post)
unfolding expand_vars
expand_vars-reference env vars status max braces pre c name post v w h k e room =
    let value = value_in env vars in
    let behind = reference braces (c ∷ name) post in
    let left = max - 1 - length pre in
    expand_verbatim value status pre (b'$' ∷ behind) (max - 1) v (omega arith)
    ∙ ap (pre ++◌) (
        expand_step value status (length behind) b'$' behind (value (c ∷ name)) post left
          (expand_piece-reference value status braces c name post h k e) (omega arith)
        ∙ ap (value (c ∷ name) ++◌) (
            expand_loop_enough value status (length behind) (length post) post
              (left - length (value (c ∷ name))) (reference-le braces (c ∷ name) post) (omega arith)
            ∙ expand_verbatim_all value status post (left - length (value (c ∷ name))) w
                (omega arith)))
