-- ===== src/Shell/Path/Render.antt =====
-- The stack of names and the joined path of `path_resolve` in shell/shell.c.
use eclipse32_gui.Base.{
  ℕ, ◌+◌, ◌-◌, ◌≤◌, ◌<◌, ◌≡◌, refl, sym, ◌∙◌, true, List, [], ◌∷◌, ◌++◌, ltb, length, take, arith,
  Bool-cases, inl, inr, length-append, take_all, lt→ltb, append_assoc, append_nil,
}
use eclipse32_gui.Shell.Path.{is_dot, is_dot_dot, pop, stack_loop, bottom_up, join_loop}
use eclipse32_gui.Shell.Path.Split.{AllNames, AllSegments, slashed, length-slashed-cons}

-- The path of a list of names.
abbrev pub render : List (List ℕ) → List ℕ
render [] = b'/' ∷ []
render (w ∷ ws) = slashed (w ∷ ws)

abbrev pub weight : List (List ℕ) → ℕ
weight ws = length (slashed ws)

AllNames-pop : (stack : List (List ℕ)) → AllNames stack → AllNames (pop stack)
AllNames-pop [] h = tt
AllNames-pop (w ∷ stack) h = h.1

length-pop : (stack : List (List ℕ)) → length (pop stack) ≤ length stack
length-pop [] = omega arith
length-pop (w ∷ stack) = omega arith

pub stack_loop-AllNames :
    (ws stack : List (List ℕ)) → AllSegments ws → AllNames stack → AllNames (stack_loop ws stack)
unfolding stack_loop
stack_loop-AllNames [] stack h k = k
stack_loop-AllNames (w ∷ ws) stack (h, r) k = elim (Bool-cases (is_dot w)) [
  | inl e ↦ rw e (stack_loop-AllNames ws stack r k)
  | inr e ↦ rw e (elim (Bool-cases (is_dot_dot w)) [
    | inl d ↦ rw d (stack_loop-AllNames ws (pop stack) r (AllNames-pop stack k))
    | inr d ↦ rw d (stack_loop-AllNames ws (w ∷ stack) r ((h, e, d), k))
  ])
]

pub bottom_up-AllNames :
    (stack ws : List (List ℕ)) → AllNames stack → AllNames ws → AllNames (bottom_up stack ws)
bottom_up-AllNames [] ws h k = k
bottom_up-AllNames (w ∷ stack) ws (h, r) k = bottom_up-AllNames stack (w ∷ ws) r (h, k)

weight-pop : (stack : List (List ℕ)) → weight (pop stack) ≤ weight stack
weight-pop [] = omega arith
weight-pop (w ∷ stack) = omega (arith, length-slashed-cons w stack)

pub weight-stack_loop :
    (ws stack : List (List ℕ)) → weight (stack_loop ws stack) ≤ weight ws + weight stack
unfolding stack_loop
weight-stack_loop [] stack = omega arith
weight-stack_loop (w ∷ ws) stack = elim (Bool-cases (is_dot w)) [
  | inl e ↦ rw e (omega (arith, weight-stack_loop ws stack, length-slashed-cons w ws))
  | inr e ↦ rw e (elim (Bool-cases (is_dot_dot w)) [
    | inl d ↦ rw d (
        omega (arith, weight-stack_loop ws (pop stack), weight-pop stack, length-slashed-cons w ws))
    | inr d ↦ rw d (
        omega (
          arith,
          weight-stack_loop ws (w ∷ stack),
          length-slashed-cons w ws,
          length-slashed-cons w stack,
        ))
  ])
]

pub weight-bottom_up :
    (stack ws : List (List ℕ)) → weight (bottom_up stack ws) ≡ weight stack + weight ws
weight-bottom_up [] ws = omega arith
weight-bottom_up (w ∷ stack) ws =
    omega (
      arith,
      weight-bottom_up stack (w ∷ ws),
      length-slashed-cons w ws,
      length-slashed-cons w stack,
    )

pub length-stack_loop :
    (ws stack : List (List ℕ)) → length (stack_loop ws stack) ≤ length ws + length stack
unfolding stack_loop
length-stack_loop [] stack = omega arith
length-stack_loop (w ∷ ws) stack = elim (Bool-cases (is_dot w)) [
  | inl e ↦ rw e (omega (arith, length-stack_loop ws stack))
  | inr e ↦ rw e (elim (Bool-cases (is_dot_dot w)) [
    | inl d ↦ rw d (omega (arith, length-stack_loop ws (pop stack), length-pop stack))
    | inr d ↦ rw d (omega (arith, length-stack_loop ws (w ∷ stack)))
  ])
]

pub length-bottom_up :
    (stack ws : List (List ℕ)) → length (bottom_up stack ws) ≡ length stack + length ws
length-bottom_up [] ws = omega arith
length-bottom_up (w ∷ stack) ws = omega (arith, length-bottom_up stack (w ∷ ws))

-- Names pass through the stack as they are.
pub bottom_up-stack_loop :
    (ws stack ys : List (List ℕ))
    → AllNames ws
    → bottom_up (stack_loop ws stack) ys ≡ bottom_up stack (ws ++ ys)
unfolding stack_loop
bottom_up-stack_loop [] stack ys h = refl
bottom_up-stack_loop (w ∷ ws) stack ys ((s, d, u), r) =
    rw d (rw u (bottom_up-stack_loop ws (w ∷ stack) ys r))

-- Behind a first name, the loop that writes the path puts each name behind a slash.
join_loop-slashed :
    (ws : List (List ℕ)) (out : List ℕ)
    → 1 < length out
    → length out + weight ws ≤ 255
    → join_loop out ws ≡ out ++ slashed ws
unfolding join_loop
join_loop-slashed [] out h k = sym (append_nil out)
join_loop-slashed (w ∷ ws) out h k =
    let longer : ltb 1 (length out) ≡ true = lt→ltb 1 (length out) h in
    let fits : take (255 - length (out ++ b'/' ∷ [])) w ≡ w =
      take_all _ w (omega (arith, length-append out (b'/' ∷ []), length-slashed-cons w ws)) in
    rw longer (
      rw fits (
        join_loop-slashed ws ((out ++ b'/' ∷ []) ++ w)
          (omega (arith, length-append (out ++ b'/' ∷ []) w, length-append out (b'/' ∷ [])))
          (omega (
            arith,
            length-append (out ++ b'/' ∷ []) w,
            length-append out (b'/' ∷ []),
            length-slashed-cons w ws,
          ))
        ∙ append_assoc (out ++ b'/' ∷ []) w (slashed ws)
        ∙ append_assoc out (b'/' ∷ []) (w ++ slashed ws)))

pub join_loop-render :
    (ws : List (List ℕ)) → AllNames ws → weight ws ≤ 255 → join_loop (b'/' ∷ []) ws ≡ render ws
unfolding join_loop
join_loop-render [] h k = refl
join_loop-render (w ∷ ws) ((ne, _, _), r) k =
    let fits : take 254 w ≡ w = take_all 254 w (omega (arith, length-slashed-cons w ws)) in
    rw fits
      (join_loop-slashed ws (b'/' ∷ w) (omega arith) (omega (arith, length-slashed-cons w ws)))
