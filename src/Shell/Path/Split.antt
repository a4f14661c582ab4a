-- ===== src/Shell/Path/Split.antt =====
-- The segments that `path_resolve` of shell/shell.c cuts a path into.
use eclipse32_gui.Base.{
  ℕ, zero, suc, ◌+◌, ◌≤◌, ◌<◌, ◌≡◌, refl, ap, ap₂, ◌∙◌, false, List, [], ◌∷◌, ◌++◌, ◌==◌, length,
  arith, Bool-cases, inl, inr, length-append,
}
use eclipse32_gui.Shell.Path.{is_dot, is_dot_dot, before_slash, after_slash, split_loop}

abbrev pub NoSlash : List ℕ → Type 0
NoSlash [] = Unit
NoSlash (c ∷ s) = ((c == b'/') ≡ false) × NoSlash s

-- A segment: a byte or more, none a slash.
abbrev pub IsSegment : List ℕ → Type 0
IsSegment w = (0 < length w) × NoSlash w

-- A segment that names a file or a directory.
abbrev pub IsName : List ℕ → Type 0
IsName w = IsSegment w × (is_dot w ≡ false) × (is_dot_dot w ≡ false)

abbrev pub AllNames : List (List ℕ) → Type 0
AllNames [] = Unit
AllNames (w ∷ ws) = IsName w × AllNames ws

abbrev pub AllSegments : List (List ℕ) → Type 0
AllSegments [] = Unit
AllSegments (w ∷ ws) = IsSegment w × AllSegments ws

-- Each segment behind a slash.
abbrev pub slashed : List (List ℕ) → List ℕ
slashed [] = []
slashed (w ∷ ws) = b'/' ∷ (w ++ slashed ws)

before_slash-NoSlash : (s : List ℕ) → NoSlash (before_slash s)
unfolding before_slash
before_slash-NoSlash [] = tt
before_slash-NoSlash (c ∷ s) = elim (Bool-cases (c == b'/')) [
  | inl e ↦ rw e tt
  | inr e ↦ rw e (e, before_slash-NoSlash s)
]

-- The room that a path needs with a slash before each segment.
abbrev pub budget : List ℕ → ℕ
budget [] = 0
budget (c ∷ s) = suc (suc (length s))

pub budget-le : (s : List ℕ) → budget s ≤ suc (length s)
budget-le [] = omega arith
budget-le (c ∷ s) = omega arith

before_slash-budget : (s : List ℕ) → length (before_slash s) + budget (after_slash s) ≤ length s
unfolding before_slash after_slash
before_slash-budget [] = omega arith
before_slash-budget (c ∷ []) = elim (Bool-cases (c == b'/')) [
  | inl e ↦ rw e (omega arith)
  | inr e ↦ rw e (omega arith)
]
before_slash-budget (c ∷ d ∷ s) = elim (Bool-cases (c == b'/')) [
  | inl e ↦ rw e (omega arith)
  | inr e ↦ rw e (omega (arith, before_slash-budget (d ∷ s)))
]

pub split_loop-AllSegments : (n room : ℕ) (s : List ℕ) → AllSegments (split_loop n room s)
unfolding split_loop before_slash
split_loop-AllSegments zero room s = tt
split_loop-AllSegments (suc n) zero s = tt
split_loop-AllSegments (suc n) (suc room) [] = tt
split_loop-AllSegments (suc n) (suc room) (c ∷ s) = elim (Bool-cases (c == b'/')) [
  | inl e ↦ rw e (split_loop-AllSegments n (suc room) s)
  | inr e ↦ rw e (
    (omega arith, (e, before_slash-NoSlash s)),
    split_loop-AllSegments n room (after_slash (c ∷ s)),
  )
]

pub length-slashed-cons :
    (w : List ℕ) (ws : List (List ℕ))
    → length (slashed (w ∷ ws)) ≡ suc (length w + length (slashed ws))
length-slashed-cons w ws = ap suc (length-append w (slashed ws))

-- The segments with their slashes fit the budget of the path.
pub split_loop-budget :
    (n room : ℕ) (s : List ℕ) → length (slashed (split_loop n room s)) ≤ budget s
unfolding split_loop
split_loop-budget zero room s = omega arith
split_loop-budget (suc n) zero s = omega arith
split_loop-budget (suc n) (suc room) [] = omega arith
split_loop-budget (suc n) (suc room) (c ∷ s) = elim (Bool-cases (c == b'/')) [
  | inl e ↦ rw e (omega (arith, split_loop-budget n (suc room) s, budget-le s))
  | inr e ↦ rw e (
      omega (
        arith,
        length-slashed-cons (before_slash (c ∷ s)) (split_loop n room (after_slash (c ∷ s))),
        before_slash-budget (c ∷ s),
        split_loop-budget n room (after_slash (c ∷ s)),
      ))
]

pub length-split_loop : (n room : ℕ) (s : List ℕ) → length (split_loop n room s) ≤ room
unfolding split_loop
length-split_loop zero room s = omega arith
length-split_loop (suc n) zero s = omega arith
length-split_loop (suc n) (suc room) [] = omega arith
length-split_loop (suc n) (suc room) (c ∷ s) = elim (Bool-cases (c == b'/')) [
  | inl e ↦ rw e (length-split_loop n (suc room) s)
  | inr e ↦ rw e (omega (arith, length-split_loop n room (after_slash (c ∷ s))))
]

-- What stands behind the first slash of `slashed ws`.
abbrev body : List (List ℕ) → List ℕ
body [] = []
body (w ∷ ws) = w ++ slashed ws

before_slash-append :
    (w : List ℕ) (ws : List (List ℕ)) → NoSlash w → before_slash (w ++ slashed ws) ≡ w
unfolding before_slash
before_slash-append [] [] h = refl
before_slash-append [] (v ∷ ws) h = refl
before_slash-append (c ∷ w) ws (h, k) = rw h (ap (c ∷◌) (before_slash-append w ws k))

after_slash-append :
    (w : List ℕ) (ws : List (List ℕ)) → NoSlash w → after_slash (w ++ slashed ws) ≡ body ws
unfolding after_slash
after_slash-append [] [] h = refl
after_slash-append [] (v ∷ ws) h = refl
after_slash-append (c ∷ w) ws (h, k) = rw h (after_slash-append w ws k)

length-body : (ws : List (List ℕ)) → length (body ws) ≤ length (slashed ws)
length-body [] = omega arith
length-body (w ∷ ws) = omega arith

split_loop-body :
    (ws : List (List ℕ)) (n room : ℕ)
    → AllSegments ws
    → length (body ws) ≤ n
    → length ws ≤ room
    → split_loop n room (body ws) ≡ ws
unfolding split_loop
split_loop-body [] zero room h k l = refl
split_loop-body [] (suc n) zero h k l = refl
split_loop-body [] (suc n) (suc room) h k l = refl
split_loop-body ([] ∷ ws) n room ((h, p), q) k l = absurd (omega arith)
split_loop-body ((c ∷ w) ∷ ws) zero room h k l = absurd (omega arith)
split_loop-body ((c ∷ w) ∷ ws) (suc n) zero h k l = absurd (omega arith)
split_loop-body ((c ∷ w) ∷ ws) (suc n) (suc room) ((h, (p, q)), r) k l = rw p (
    ap₂ (λ x y. x ∷ y) (before_slash-append (c ∷ w) ws (p, q))
      (ap (split_loop n room) (after_slash-append (c ∷ w) ws (p, q))
        ∙ split_loop-body ws n room r (omega (arith, length-append w (slashed ws), length-body ws))
            (omega arith)))

-- Cutting what is joined gives the segments back.
pub split_loop-slashed :
    (ws : List (List ℕ)) (n room : ℕ)
    → AllSegments ws
    → length (slashed ws) ≤ n
    → length ws ≤ room
    → split_loop n room (slashed ws) ≡ ws
unfolding split_loop
split_loop-slashed [] zero room h k l = refl
split_loop-slashed [] (suc n) zero h k l = refl
split_loop-slashed [] (suc n) (suc room) h k l = refl
split_loop-slashed (w ∷ ws) zero room h k l = absurd (omega arith)
split_loop-slashed (w ∷ ws) (suc n) zero h k l = absurd (omega arith)
split_loop-slashed (w ∷ ws) (suc n) (suc room) h k l =
    split_loop-body (w ∷ ws) n (suc room) h (omega arith) l
