-- ===== src/Shell/Readline/Edits.antt =====
-- The edits of `readline` of shell/shell.c as edits of the text before the cursor and the text from the
-- cursor on.
use eclipse32_gui.Base.{
  ℕ, zero, suc, ◌+◌, ◌-◌, ◌≤◌, ◌<◌, ◌≡◌, refl, sym, ap, ap₂, true, List, [], ◌∷◌, ◌++◌, ltb, leb,
  length, take, drop, length-take, if◌then◌else◌, ◌&&◌, false, ltb→lt, subst, length-append,
  append_assoc, append_nil, drop_all, arith, Bool-cases, inl, inr,
}
use eclipse32_gui.Shell.Readline.{
  Reader, cut_end, erase_before, erase_at, insert_char, go_left, go_right,
}

abbrev pub Sides : Type 0
Sides = List ℕ × List ℕ

-- The two sides of the cursor.
abbrev pub sides : Reader → Sides
sides r = (take r.cursor r.buf, drop r.cursor r.buf)

abbrev pub add_left : ℕ → Sides → Sides
add_left c (xs, ys) = (xs ++ c ∷ [], ys)

abbrev pub drop_left : Sides → Sides
drop_left (xs, ys) = (take (length xs - 1) xs, ys)

abbrev pub drop_right : Sides → Sides
drop_right (xs, ys) = (xs, drop 1 ys)

abbrev pub move_left : Sides → Sides
move_left (xs, ys) = (take (length xs - 1) xs, drop (length xs - 1) xs ++ ys)

abbrev pub move_right : Sides → Sides
move_right (xs, ys) = (xs ++ take 1 ys, drop 1 ys)

module _ {ℓ} {A : Type ℓ} where
  take-append : (n : ℕ) (xs ys : List A) → n ≡ length xs → take n (xs ++ ys) ≡ xs
  take-append zero [] ys h = refl
  take-append zero (x ∷ xs) ys h = absurd (omega arith)
  take-append (suc n) [] ys h = absurd (omega arith)
  take-append (suc n) (x ∷ xs) ys h = ap (x ∷◌) (take-append n xs ys (omega arith))

  drop-append : (n : ℕ) (xs ys : List A) → n ≡ length xs → drop n (xs ++ ys) ≡ ys
  drop-append zero [] ys h = refl
  drop-append zero (x ∷ xs) ys h = absurd (omega arith)
  drop-append (suc n) [] ys h = absurd (omega arith)
  drop-append (suc n) (x ∷ xs) ys h = drop-append n xs ys (omega arith)

  drop-drop : (n : ℕ) (xs : List A) → drop 1 (drop n xs) ≡ drop (suc n) xs
  drop-drop zero [] = refl
  drop-drop zero (x ∷ xs) = refl
  drop-drop (suc n) [] = refl
  drop-drop (suc n) (x ∷ xs) = drop-drop n xs

  take-take : (n m : ℕ) (xs : List A) → n ≤ m → take n (take m xs) ≡ take n xs
  take-take zero m xs h = refl
  take-take (suc n) zero xs h = absurd (omega arith)
  take-take (suc n) (suc m) [] h = refl
  take-take (suc n) (suc m) (x ∷ xs) h = ap (x ∷◌) (take-take n m xs (omega arith))

  -- One byte more is taken.
  take-suc : (n : ℕ) (xs : List A) → take (suc n) xs ≡ take n xs ++ take 1 (drop n xs)
  take-suc zero [] = refl
  take-suc zero (x ∷ xs) = refl
  take-suc (suc n) [] = refl
  take-suc (suc n) (x ∷ xs) = ap (x ∷◌) (take-suc n xs)

-- The byte before the place `n` moves from one side to the other.
split_before : (n : ℕ) (xs : List ℕ) → drop n xs ≡ drop n (take (suc n) xs) ++ drop (suc n) xs
split_before zero [] = refl
split_before zero (x ∷ xs) = refl
split_before (suc n) [] = refl
split_before (suc n) (x ∷ xs) = split_before n xs

-- What typing a byte does: a printable one is added where it fits into the buffer with the line and
-- its NUL.
abbrev pub type_in : ℕ → ℕ → ℕ → Sides → Sides
type_in max len c s = if ltb 31 c && ltb (len + 1) max then add_left c s else s

module _ (r : Reader) (h : r.cursor ≤ length r.buf) where
  left_length : length (take r.cursor r.buf) ≡ r.cursor
  left_length = omega (arith, length-take r.cursor r.buf)

  sides-insert_char :
      (max c : ℕ)
      → (32 ≤ c) × (length r.buf < max - 1)
      → sides (insert_char max c r) ≡ add_left c (sides r)
  unfolding insert_char
  sides-insert_char max c f =
      let printable : leb 32 c ≡ true = ground arith in
      let room : ltb (length r.buf) (max - 1) ≡ true = ground arith in
      let left = take r.cursor r.buf in
      let right = drop r.cursor r.buf in
      let len : r.cursor + 1 ≡ length (left ++ c ∷ []) =
        omega (arith, length-append left (c ∷ []), left_length) in
      rw (printable, room, sym (append_assoc left (c ∷ []) right))
        (ap₂ (λ a b. (a, b)) (take-append (r.cursor + 1) (left ++ c ∷ []) right len)
          (drop-append (r.cursor + 1) (left ++ c ∷ []) right len))

  sides-insert_char_any :
      (max c : ℕ) → sides (insert_char max c r) ≡ type_in max (length r.buf) c (sides r)
  unfolding insert_char
  sides-insert_char_any max c = elim (Bool-cases (leb 32 c && ltb (length r.buf) (max - 1))) [
    | inl e ↦
        let fits : (ltb 31 c && ltb (length r.buf + 1) max) ≡ true = ground (arith, e) in
        rw fits (sides-insert_char max c (ground (arith, e), ground (arith, e)))
    | inr e ↦
        let not_fits : (ltb 31 c && ltb (length r.buf + 1) max) ≡ false = ground (arith, e) in
        rw (e, not_fits) refl
  ]

  shorter_left :
      take (length (take r.cursor r.buf) - 1) (take r.cursor r.buf) ≡ take (r.cursor - 1) r.buf
  shorter_left = rw left_length (take-take (r.cursor - 1) r.cursor r.buf (omega arith))

  sides-erase_before : sides (erase_before r) ≡ drop_left (sides r)
  unfolding erase_before
  sides-erase_before = elim (Bool-cases (ltb 0 r.cursor)) [
    | inl e ↦
        let inside = ltb→lt 0 r.cursor e in
        let len : r.cursor - 1 ≡ length (take (r.cursor - 1) r.buf) =
          omega (arith, length-take (r.cursor - 1) r.buf) in
        rw (e, shorter_left)
          (ap₂ (λ a b. (a, b))
            (take-append (r.cursor - 1) (take (r.cursor - 1) r.buf) (drop r.cursor r.buf) len)
            (drop-append (r.cursor - 1) (take (r.cursor - 1) r.buf) (drop r.cursor r.buf) len))
    | inr e ↦ let start : r.cursor ≡ 0 = ground arith in rw (e, start) refl
  ]

  sides-erase_at : sides (erase_at r) ≡ drop_right (sides r)
  unfolding erase_at
  sides-erase_at = elim (Bool-cases (ltb r.cursor (length r.buf))) [
    | inl e ↦
        rw (e, drop-drop r.cursor r.buf)
          (ap₂ (λ a b. (a, b))
            (take-append r.cursor (take r.cursor r.buf) (drop (suc r.cursor) r.buf)
              (sym left_length))
            (drop-append r.cursor (take r.cursor r.buf) (drop (suc r.cursor) r.buf)
              (sym left_length)))
    | inr e ↦
        let last : length r.buf ≤ r.cursor = ground arith in
        rw (e, drop_all r.cursor r.buf last) refl
  ]

  sides-go_left : sides (go_left r) ≡ move_left (sides r)
  unfolding go_left
  sides-go_left = elim (Bool-cases (ltb 0 r.cursor)) [
    | inl e ↦
        let inside = ltb→lt 0 r.cursor e in
        let next : suc (r.cursor - 1) ≡ r.cursor = omega arith in
        rw (e, shorter_left, left_length)
          (ap (λ b. (take (r.cursor - 1) r.buf, b))
            (subst
              (λ k. drop (r.cursor - 1) r.buf ≡ drop (r.cursor - 1) (take k r.buf) ++ drop k r.buf)
              next (split_before (r.cursor - 1) r.buf)))
    | inr e ↦ let start : r.cursor ≡ 0 = ground arith in rw (e, start) refl
  ]

  sides-go_right : sides (go_right r) ≡ move_right (sides r)
  unfolding go_right
  sides-go_right = elim (Bool-cases (ltb r.cursor (length r.buf))) [
    | inl e ↦
        let next : r.cursor + 1 ≡ suc r.cursor = omega arith in
        rw (e, drop-drop r.cursor r.buf, next, take-suc r.cursor r.buf) refl
    | inr e ↦
        let last : length r.buf ≤ r.cursor = ground arith in
        rw (e, drop_all r.cursor r.buf last, append_nil (take r.cursor r.buf)) refl
  ]

  sides-cut_end : sides (cut_end r) ≡ (take r.cursor r.buf, [])
  unfolding cut_end
  sides-cut_end =
      ap₂ (λ a b. (a, b)) (take-take r.cursor r.cursor r.buf (omega arith))
        (drop_all r.cursor (take r.cursor r.buf) (omega (arith, left_length)))

-- On a line with the cursor in it or behind it: typing a byte of 32 or more adds it to the text before
-- the cursor where the line with it and its NUL fits the buffer of `max` bytes, and changes neither text
-- otherwise; backspace and delete take a byte off either text, the arrows move a byte from one text to the other,
-- each doing nothing where there is none, and ctrl-K drops the text behind.
pub sides_lem :
    (r : Reader) (max c : ℕ)
    → r.cursor ≤ length r.buf
    → (sides (insert_char max c r) ≡ type_in max (length r.buf) c (sides r))
      × (sides (erase_before r) ≡ drop_left (sides r))
      × (sides (erase_at r) ≡ drop_right (sides r))
      × (sides (go_left r) ≡ move_left (sides r))
      × (sides (go_right r) ≡ move_right (sides r))
      × (sides (cut_end r) ≡ ((sides r).0, []))
sides_lem r max c h = (
  sides-insert_char_any r h max c,
  sides-erase_before r h,
  sides-erase_at r h,
  sides-go_left r h,
  sides-go_right r h,
  sides-cut_end r h,
)
