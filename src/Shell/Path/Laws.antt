-- ===== src/Shell/Path/Laws.antt =====
-- What `path_resolve` of shell/shell.c gives.
use eclipse32_gui.Base.{
  ℕ, suc, ◌+◌, ◌-◌, ◌≤◌, ◌<◌, ◌≡◌, refl, ◌∙◌, true, false, not, ◌&&◌, List, [], ◌∷◌, ◌++◌, ◌==◌,
  ltb, length, take, arith, Bool-cases, inl, inr, length-append, length-take,
}
use eclipse32_gui.Shell.Path.{
  last_byte, with_slash, is_absolute, full_path, split_loop, stack_loop, bottom_up, join_loop,
  path_resolve,
}
use eclipse32_gui.Shell.Path.Split.{
  AllNames, split_loop-AllSegments, split_loop-budget, budget-le, length-split_loop,
}
use eclipse32_gui.Shell.Path.Render.{
  render, weight, stack_loop-AllNames, bottom_up-AllNames, weight-stack_loop, weight-bottom_up,
  length-stack_loop, length-bottom_up, join_loop-render,
}

-- The path of at most 64 names, none empty, `.` or `..` or with a slash in it.
abbrev pub IsCanonical : List ℕ → Type 0
IsCanonical p = (ws : List (List ℕ)) × AllNames ws × (length ws ≤ 64) × (p ≡ render ws)

abbrev pub names_of : List ℕ → List (List ℕ)
names_of s = bottom_up (stack_loop (split_loop (length s) 64 s) []) []

length-with_slash : (cwd : List ℕ) → length (with_slash cwd) ≤ suc (length cwd)
unfolding with_slash
length-with_slash cwd = elim (Bool-cases (ltb 0 (length cwd) && not (last_byte cwd 0 == b'/'))) [
  | inl e ↦ rw e (omega (arith, length-append cwd (b'/' ∷ [])))
  | inr e ↦ rw e (omega arith)
]

length-full_path :
    (cwd input : List ℕ) → length (full_path cwd input) ≤ suc (length cwd + length input)
unfolding full_path
length-full_path cwd input = elim (Bool-cases (is_absolute input)) [
  | inl e ↦ rw e (omega (arith, length-take 255 input))
  | inr e ↦
      let base = with_slash (take 255 cwd) in
      rw e (
        omega (
          arith,
          length-append base (take (255 - length base) input),
          length-take (255 - length base) input,
          length-take 255 cwd,
          length-with_slash (take 255 cwd),
        ))
]

is_absolute-append : (a b : List ℕ) → is_absolute a ≡ true → is_absolute (a ++ b) ≡ true
is_absolute-append [] b h = ground (arith, h)
is_absolute-append (c ∷ a) b h = h

is_absolute-take : (n : ℕ) (s : List ℕ) → is_absolute s ≡ true → is_absolute (take (suc n) s) ≡ true
is_absolute-take n [] h = h
is_absolute-take n (c ∷ s) h = h

is_absolute-with_slash :
    (cwd : List ℕ) → is_absolute cwd ≡ true → is_absolute (with_slash cwd) ≡ true
unfolding with_slash
is_absolute-with_slash cwd h =
    elim (Bool-cases (ltb 0 (length cwd) && not (last_byte cwd 0 == b'/'))) [
      | inl e ↦ rw e (is_absolute-append cwd (b'/' ∷ []) h)
      | inr e ↦ rw e h
    ]

is_absolute-full_path :
    (cwd input : List ℕ) → is_absolute cwd ≡ true → is_absolute (full_path cwd input) ≡ true
unfolding full_path
is_absolute-full_path cwd input h = elim (Bool-cases (is_absolute input)) [
  | inl e ↦ rw e (is_absolute-take 254 input e)
  | inr e ↦ rw e (
      is_absolute-append (with_slash (take 255 cwd)) _
        (is_absolute-with_slash (take 255 cwd) (is_absolute-take 254 cwd h)))
]

pub path_resolve-names_of :
    (beyond cwd input : List ℕ)
    → length (full_path cwd input) < 255
    → path_resolve beyond cwd input ≡ join_loop (b'/' ∷ []) (names_of (full_path cwd input))
unfolding path_resolve
path_resolve-names_of beyond cwd input h =
    let shorter : (length (full_path cwd input) == 255) ≡ false = ground (arith, h) in
    rw shorter refl

names_of-AllNames : (s : List ℕ) → AllNames (names_of s)
names_of-AllNames s =
    bottom_up-AllNames _ []
      (stack_loop-AllNames (split_loop (length s) 64 s) [] (split_loop-AllSegments (length s) 64 s)
        tt)
      tt

-- A path that starts with a slash has a round of the loop to spare.
weight-split_loop_absolute :
    (s : List ℕ) → is_absolute s ≡ true → weight (split_loop (length s) 64 s) ≤ length s
unfolding split_loop
weight-split_loop_absolute [] h = omega arith
weight-split_loop_absolute (c ∷ s) h =
    rw h (omega (arith, split_loop-budget (length s) 64 s, budget-le s))

weight-names_of : (s : List ℕ) → is_absolute s ≡ true → weight (names_of s) ≤ length s
weight-names_of s h = omega (
  arith,
  weight-bottom_up (stack_loop (split_loop (length s) 64 s) []) [],
  weight-stack_loop (split_loop (length s) 64 s) [],
  weight-split_loop_absolute s h,
)

length-names_of : (s : List ℕ) → length (names_of s) ≤ 64
length-names_of s = omega (
  arith,
  length-bottom_up (stack_loop (split_loop (length s) 64 s) []) [],
  length-stack_loop (split_loop (length s) 64 s) [],
  length-split_loop (length s) 64 s,
)

-- From an absolute working directory, a path that with it has fewer than 254 bytes resolves to a
-- canonical one, whatever it holds.
pub path_resolve-IsCanonical :
    (beyond cwd input : List ℕ)
    → is_absolute cwd ≡ true
    → length cwd + length input < 254
    → IsCanonical (path_resolve beyond cwd input)
path_resolve-IsCanonical beyond cwd input a h =
    let s = full_path cwd input in
    let fits : length s < 255 = omega (arith, length-full_path cwd input) in
    (
      names_of s,
      names_of-AllNames s,
      length-names_of s,
      path_resolve-names_of beyond cwd input fits
          ∙ join_loop-render (names_of s) (names_of-AllNames s)
              (omega (arith, weight-names_of s (is_absolute-full_path cwd input a))),
    )
