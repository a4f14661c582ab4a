-- ===== src/Shell/Path/Walk.antt =====
-- `path_resolve` of shell/shell.c from a canonical working directory: a canonical path stays, a name
-- leads down and `..` leads up.
use eclipse32_gui.Base.{
  ℕ, suc, ◌+◌, ◌-◌, ◌≤◌, ◌<◌, ◌≡◌, refl, sym, ap, ◌∙◌, true, false, not, ◌&&◌, List, [], ◌∷◌, ◌++◌,
  ◌==◌, ltb, length, take, arith, Bool-cases, inl, inr, length-append, take_all, append_assoc,
  append_nil,
}
use eclipse32_gui.KString.{kstrcmp}
use eclipse32_gui.Shell.Path.{
  is_dot, is_dot_dot, last_byte, with_slash, is_absolute, full_path, split_loop, stack_loop, pop,
  bottom_up, join_loop, path_resolve,
}
use eclipse32_gui.Shell.Path.Split.{
  NoSlash, IsSegment, IsName, AllNames, AllSegments, slashed, split_loop-slashed,
}
use eclipse32_gui.Shell.Path.Render.{render, weight, bottom_up-stack_loop, join_loop-render}
use eclipse32_gui.Shell.Path.Laws.{names_of, path_resolve-names_of}

AllSegments-of_names : (ws : List (List ℕ)) → AllNames ws → AllSegments ws
AllSegments-of_names [] h = tt
AllSegments-of_names (w ∷ ws) ((s, d, u), r) = (s, AllSegments-of_names ws r)

is_absolute-render : (ws : List (List ℕ)) → is_absolute (render ws) ≡ true
is_absolute-render [] = refl
is_absolute-render (w ∷ ws) = refl

split_loop-render :
    (ws : List (List ℕ))
    → AllNames ws
    → length ws ≤ 64
    → split_loop (length (render ws)) 64 (render ws) ≡ ws
unfolding split_loop
split_loop-render [] h k = refl
split_loop-render (w ∷ ws) h k =
    split_loop-slashed (w ∷ ws) (length (slashed (w ∷ ws))) 64 (AllSegments-of_names (w ∷ ws) h)
      (omega arith) k

weight-render : (ws : List (List ℕ)) → weight ws ≤ length (render ws)
weight-render [] = omega arith
weight-render (w ∷ ws) = omega arith

length-with_slash-le : (s : List ℕ) → length s ≤ length (with_slash s)
unfolding with_slash
length-with_slash-le s = elim (Bool-cases (ltb 0 (length s) && not (last_byte s 0 == b'/'))) [
  | inl e ↦ rw e (omega (arith, length-append s (b'/' ∷ [])))
  | inr e ↦ rw e (omega arith)
]

names_of-render : (ws : List (List ℕ)) → AllNames ws → length ws ≤ 64 → names_of (render ws) ≡ ws
names_of-render ws h k =
    ap (λ v. bottom_up (stack_loop v []) []) (split_loop-render ws h k)
    ∙ bottom_up-stack_loop ws [] [] h
    ∙ append_nil ws

full_path-render :
    (cwd : List ℕ) (ws : List (List ℕ))
    → length (render ws) < 255
    → full_path cwd (render ws) ≡ render ws
unfolding full_path
full_path-render cwd ws h = rw (is_absolute-render ws) (take_all 255 (render ws) (omega arith))

-- A canonical path of fewer than 255 bytes resolves to itself, whatever the working directory.
pub path_resolve-render :
    (beyond cwd : List ℕ) (ws : List (List ℕ))
    → AllNames ws
    → length ws ≤ 64
    → length (render ws) < 255
    → path_resolve beyond cwd (render ws) ≡ render ws
path_resolve-render beyond cwd ws h k l =
    let same = full_path-render cwd ws l in
    path_resolve-names_of beyond cwd (render ws) (omega (arith, ap length same, l))
    ∙ ap (λ s. join_loop (b'/' ∷ []) (names_of s)) same
    ∙ ap (join_loop (b'/' ∷ [])) (names_of-render ws h k)
    ∙ join_loop-render ws h (omega (arith, weight-render ws, l))

slashed-append : (ws : List (List ℕ)) (w : List ℕ) → slashed (ws ++ w ∷ []) ≡ slashed ws ++ b'/' ∷ w
slashed-append [] w = ap (b'/' ∷◌) (append_nil w)
slashed-append (v ∷ ws) w =
    ap (b'/' ∷◌) (ap (v ++◌) (slashed-append ws w) ∙ sym (append_assoc v (slashed ws) (b'/' ∷ w)))

-- The last byte of a path of names is none of its slashes.
last_byte-append : (w s : List ℕ) (d : ℕ) → last_byte (w ++ s) d ≡ last_byte s (last_byte w d)
last_byte-append [] s d = refl
last_byte-append (c ∷ w) s d = last_byte-append w s c

last_byte-NoSlash :
    (w : List ℕ) (d : ℕ) → 0 < length w → NoSlash w → (last_byte w d == b'/') ≡ false
last_byte-NoSlash [] d h k = absurd (omega arith)
last_byte-NoSlash (c ∷ []) d h (k, r) = k
last_byte-NoSlash (c ∷ e ∷ w) d h (k, r) = last_byte-NoSlash (e ∷ w) c (omega arith) r

last_byte-slashed :
    (ws : List (List ℕ)) (d : ℕ)
    → AllNames ws
    → (d == b'/') ≡ false
    → (last_byte (slashed ws) d == b'/') ≡ false
last_byte-slashed [] d h k = k
last_byte-slashed (w ∷ ws) d (((ne, ns), _, _), r) k =
    ap (λ x. x == b'/') (last_byte-append w (slashed ws) b'/')
    ∙ last_byte-slashed ws (last_byte w b'/') r (last_byte-NoSlash w b'/' ne ns)

with_slash-render :
    (ws : List (List ℕ)) (x : List ℕ)
    → AllNames ws
    → with_slash (render ws) ++ x ≡ slashed (ws ++ x ∷ [])
unfolding with_slash
with_slash-render [] x h = ap (b'/' ∷◌) (sym (append_nil x))
with_slash-render (w ∷ ws) x h =
    let ends_in_name : (last_byte (slashed (w ∷ ws)) 0 == b'/') ≡ false =
      last_byte-slashed (w ∷ ws) 0 h refl in
    let some_byte : ltb 0 (length (slashed (w ∷ ws))) ≡ true = ground arith in
    rw some_byte (
      rw ends_in_name
        (append_assoc (slashed (w ∷ ws)) (b'/' ∷ []) x ∙ sym (slashed-append (w ∷ ws) x)))

not_absolute : (x : List ℕ) → NoSlash x → is_absolute x ≡ false
not_absolute [] h = refl
not_absolute (c ∷ x) (h, r) = h

full_path-segment :
    (ws : List (List ℕ)) (x : List ℕ)
    → AllNames ws
    → NoSlash x
    → length (slashed (ws ++ x ∷ [])) < 255
    → full_path (render ws) x ≡ slashed (ws ++ x ∷ [])
unfolding full_path
full_path-segment ws x h k l =
    let joined = with_slash-render ws x h in
    let room : length (with_slash (render ws)) + length x < 255 =
      omega (arith, length-append (with_slash (render ws)) x, ap length joined) in
    let whole : take 255 (render ws) ≡ render ws =
      take_all 255 (render ws) (omega (arith, room, length-with_slash-le (render ws))) in
    let fits : take (255 - length (with_slash (render ws))) x ≡ x =
      take_all _ x (omega (arith, room)) in
    rw (not_absolute x k) (rw whole (rw fits joined))

stack_loop-append :
    (a b stack : List (List ℕ)) → stack_loop (a ++ b) stack ≡ stack_loop b (stack_loop a stack)
unfolding stack_loop
stack_loop-append [] b stack = refl
stack_loop-append (w ∷ a) b stack = elim (Bool-cases (is_dot w)) [
  | inl e ↦ rw e (stack_loop-append a b stack)
  | inr e ↦ rw e (elim (Bool-cases (is_dot_dot w)) [
    | inl d ↦ rw d (stack_loop-append a b (pop stack))
    | inr d ↦ rw d (stack_loop-append a b (w ∷ stack))
  ])
]

AllSegments-append :
    (ws : List (List ℕ)) (x : List ℕ) → AllNames ws → IsSegment x → AllSegments (ws ++ x ∷ [])
AllSegments-append [] x h k = (k, tt)
AllSegments-append (w ∷ ws) x ((s, d, u), r) k = (s, AllSegments-append ws x r k)

length-snoc : (ws : List (List ℕ)) (x : List ℕ) → length (ws ++ x ∷ []) ≡ suc (length ws)
length-snoc ws x = omega (arith, length-append ws (x ∷ []))

-- The names that a segment behind a canonical path leaves.
path_resolve-segment :
    (beyond : List ℕ) (ws : List (List ℕ)) (x : List ℕ)
    → AllNames ws
    → IsSegment x
    → length ws < 64
    → length (slashed (ws ++ x ∷ [])) < 255
    → path_resolve beyond (render ws) x
      ≡ join_loop (b'/' ∷ []) (bottom_up (stack_loop (x ∷ []) (stack_loop ws [])) [])
path_resolve-segment beyond ws x h (ne, k) l m =
    let full = full_path-segment ws x h k m in
    path_resolve-names_of beyond (render ws) x (omega (arith, ap length full, m))
    ∙ ap (λ s. join_loop (b'/' ∷ []) (names_of s)) full
    ∙ ap (λ v. join_loop (b'/' ∷ []) (bottom_up (stack_loop v []) []))
        (split_loop-slashed (ws ++ x ∷ []) (length (slashed (ws ++ x ∷ []))) 64
          (AllSegments-append ws x h (ne, k)) (omega arith) (omega (arith, length-snoc ws x)))
    ∙ ap (λ v. join_loop (b'/' ∷ []) (bottom_up v [])) (stack_loop-append ws (x ∷ []) [])

AllNames-append :
    (ws : List (List ℕ)) (x : List ℕ) → AllNames ws → IsName x → AllNames (ws ++ x ∷ [])
AllNames-append [] x h k = (k, tt)
AllNames-append (w ∷ ws) x (n, r) k = (n, AllNames-append ws x r k)

render-snoc : (ws : List (List ℕ)) (x : List ℕ) → render (ws ++ x ∷ []) ≡ slashed (ws ++ x ∷ [])
render-snoc [] x = refl
render-snoc (w ∷ ws) x = refl

push_name : (x : List ℕ) (stack : List (List ℕ)) → IsName x → stack_loop (x ∷ []) stack ≡ x ∷ stack
unfolding stack_loop
push_name x stack (s, d, u) = rw d (rw u refl)

abbrev pub dot_dot : List ℕ
dot_dot = b'.' ∷ b'.' ∷ []

pop_name : (stack : List (List ℕ)) → stack_loop (dot_dot ∷ []) stack ≡ pop stack
unfolding stack_loop kstrcmp
pop_name stack = refl

down :
    (beyond : List ℕ) (ws : List (List ℕ)) (x : List ℕ)
    → AllNames ws
    → IsName x
    → length ws < 64
    → length (slashed (ws ++ x ∷ [])) < 255
    → path_resolve beyond (render ws) x ≡ render (ws ++ x ∷ [])
down beyond ws x h k l m =
    path_resolve-segment beyond ws x h k.0 l m
    ∙ ap (λ v. join_loop (b'/' ∷ []) (bottom_up v [])) (push_name x (stack_loop ws []) k)
    ∙ ap (join_loop (b'/' ∷ [])) (bottom_up-stack_loop ws [] (x ∷ []) h)
    ∙ join_loop-render (ws ++ x ∷ []) (AllNames-append ws x h k) (omega (arith, m))

up :
    (beyond : List ℕ) (ws : List (List ℕ)) (x : List ℕ)
    → AllNames ws
    → IsName x
    → length ws < 63
    → length (slashed (ws ++ x ∷ [])) < 252
    → path_resolve beyond (render (ws ++ x ∷ [])) dot_dot ≡ render ws
up beyond ws x h k l m =
    path_resolve-segment beyond (ws ++ x ∷ []) dot_dot (AllNames-append ws x h k)
      (omega arith, (refl, (refl, tt))) (omega (arith, length-snoc ws x))
      (omega (
        arith,
        m,
        ap length (slashed-append (ws ++ x ∷ []) dot_dot),
        length-append (slashed (ws ++ x ∷ [])) (b'/' ∷ dot_dot),
      ))
    ∙ ap (λ v. join_loop (b'/' ∷ []) (bottom_up v []))
        (pop_name (stack_loop (ws ++ x ∷ []) [])
          ∙ ap pop (stack_loop-append ws (x ∷ []) [] ∙ push_name x (stack_loop ws []) k))
    ∙ ap (join_loop (b'/' ∷ [])) (bottom_up-stack_loop ws [] [] h ∙ append_nil ws)
    ∙ join_loop-render ws h
        (omega (arith, m, ap length (slashed-append ws x), length-append (slashed ws) (b'/' ∷ x)))

-- From a canonical working directory of fewer than 63 names, a name resolves to the path with the
-- name at its end, and from there `..` resolves to the working directory, if the longer path has
-- fewer than 252 bytes.
pub path_resolve_down_up :
    (beyond : List ℕ) (ws : List (List ℕ)) (x : List ℕ)
    → AllNames ws
    → IsName x
    → length ws < 63
    → length (slashed (ws ++ x ∷ [])) < 252
    → (path_resolve beyond (render ws) x ≡ render (ws ++ x ∷ []))
      × (path_resolve beyond (render (ws ++ x ∷ [])) dot_dot ≡ render ws)
path_resolve_down_up beyond ws x h k l m =
    (down beyond ws x h k (omega arith) (omega (arith, m)), up beyond ws x h k l m)
