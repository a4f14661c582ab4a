-- ===== src/Shell/Vars/Rounds.antt =====
-- The rounds of `expand_vars` of shell/shell.c, and the room that its output takes.
use eclipse32_gui.Base.{
  ℕ, zero, suc, ◌-◌, ◌≤◌, ◌<◌, ◌≡◌, refl, ap, List, [], ◌∷◌, ◌++◌, if◌then◌else◌, ◌==◌, take,
  length, length-take, length-append, arith, Bool-cases, inl, inr,
}
use eclipse32_gui.Env.{EnvTable}
use eclipse32_gui.Shell.Vars.{
  Pair, expand_loop, expand_piece, expand_vars, value_in, read_name, read_reference, skip_byte,
  is_name_char,
}

pub skip_byte-le : (b : ℕ) (s : List ℕ) → length (skip_byte b s) ≤ length s
skip_byte-le b [] = omega arith
skip_byte-le b (c ∷ s) = ground arith

pub read_name-le : (n : ℕ) (s : List ℕ) → length (read_name n s).1 ≤ length s
unfolding read_name
read_name-le zero s = omega arith
read_name-le (suc n) [] = omega arith
read_name-le (suc n) (c ∷ s) = elim (Bool-cases (is_name_char c)) [
  | inl e ↦ rw e (omega (arith, read_name-le n s))
  | inr e ↦ rw e (omega arith)
]

read_reference-le : (s : List ℕ) → length (read_reference s).1 ≤ length s
unfolding read_reference
read_reference-le s = ground (
  arith,
  read_name-le 63 (skip_byte b'{' s),
  skip_byte-le b'{' s,
  skip_byte-le b'}' (read_name 63 (skip_byte b'{' s)).1,
)

module _ (value_of : List ℕ → List ℕ) (status : ℕ) where
  expand_piece-le : (c : ℕ) (s : List ℕ) → length (expand_piece value_of status c s).1 ≤ length s
  unfolding expand_piece
  expand_piece-le c [] = ground arith
  expand_piece-le c (d ∷ s) = ground (arith, read_reference-le (d ∷ s))

  -- The output stays within the room.
  pub length-expand_loop :
      (n : ℕ) (s : List ℕ) (room : ℕ) → length (expand_loop value_of status n s room) ≤ room
  unfolding expand_loop
  length-expand_loop zero s room = omega arith
  length-expand_loop (suc n) [] room = omega arith
  length-expand_loop (suc n) (c ∷ s) room =
      let (out, rest) = expand_piece value_of status c s in
      let left = room - length (take room out) in
      elim (Bool-cases (room == 0)) [
        | inl e ↦ rw e (omega arith)
        | inr e ↦ rw e (
            omega (
              arith,
              length-append (take room out) (expand_loop value_of status n rest left),
              length-take room out,
              length-expand_loop n rest left,
            ))
      ]

  pub expand_loop_enough :
      (n m : ℕ) (s : List ℕ) (room : ℕ)
      → length s ≤ n
      → length s ≤ m
      → expand_loop value_of status n s room ≡ expand_loop value_of status m s room
  unfolding expand_loop
  expand_loop_enough zero zero s room h k = refl
  expand_loop_enough zero (suc m) [] room h k = refl
  expand_loop_enough (suc n) zero [] room h k = refl
  expand_loop_enough (suc n) (suc m) [] room h k = refl
  expand_loop_enough zero m (c ∷ s) room h k = absurd (omega arith)
  expand_loop_enough n zero (c ∷ s) room h k = absurd (omega arith)
  expand_loop_enough (suc n) (suc m) (c ∷ s) room h k =
      let (out, rest) = expand_piece value_of status c s in
      let shorter = expand_piece-le c s in
      let more =
        expand_loop_enough n m rest (room - length (take room out)) (omega arith) (omega arith) in
      ap (λ t. if room == 0 then [] else take room out ++ t) more

-- What a line expands to leaves a byte of the output's `max` for the NUL.
pub length-expand_vars :
    (env : EnvTable) (vars : List Pair) (status max : ℕ) (s : List ℕ)
    → 0 < max
    → length (expand_vars env vars status max s) < max
unfolding expand_vars
length-expand_vars env vars status max s h =
    omega (arith, length-expand_loop (value_in env vars) status (length s) s (max - 1))
