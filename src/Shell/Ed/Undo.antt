-- ===== src/Shell/Ed/Undo.antt =====
-- Keys of the editor `ed` of shell/shell.c that take each other back.
use eclipse32_gui.Base.{
  ℕ, zero, suc, ◌-◌, ◌≤◌, ◌<◌, ◌≡◌, refl, ◌∙◌, ap, ap₂, true, false, List, [], ◌∷◌, some, ◌==◌, leb,
  length, take, drop, get_or, set, length-set, length-take, get_or-set_self, take-append-drop,
  arith, lt→ltb,
}
use eclipse32_gui.Shell.Ed.{Ed, line, insert_at, remove_at, has_room, ed_split, join_above, rub_out}
use eclipse32_gui.Shell.Ed.Inv.{IsEd, line-short}

get_or-insert_at_above :
    (i : ℕ) (l : List ℕ) (rows : List (List ℕ))
    → i < length rows
    → get_or (insert_at (suc i) l rows) i [] ≡ get_or rows i []
get_or-insert_at_above i l [] h = absurd (omega arith)
get_or-insert_at_above zero l (r ∷ rows) h = refl
get_or-insert_at_above (suc i) l (r ∷ rows) h = get_or-insert_at_above i l rows (omega arith)

get_or-insert_at :
    (i : ℕ) (l : List ℕ) (rows : List (List ℕ))
    → i ≤ length rows
    → get_or (insert_at i l rows) i [] ≡ l
get_or-insert_at zero l rows h = refl
get_or-insert_at (suc i) l [] h = absurd (omega arith)
get_or-insert_at (suc i) l (r ∷ rows) h = get_or-insert_at i l rows (omega arith)

remove_at-insert_at :
    (i : ℕ) (l : List ℕ) (rows : List (List ℕ))
    → i ≤ length rows
    → remove_at i (insert_at i l rows) ≡ rows
remove_at-insert_at zero l rows h = refl
remove_at-insert_at (suc i) l [] h = absurd (omega arith)
remove_at-insert_at (suc i) l (r ∷ rows) h = ap (r ∷◌) (remove_at-insert_at i l rows (omega arith))

set-set :
    (rows : List (List ℕ)) (i : ℕ) (a : List ℕ) → set (set rows i a) i (get_or rows i []) ≡ rows
set-set [] i a = refl
set-set (r ∷ rows) zero a = refl
set-set (r ∷ rows) (suc i) a = ap (r ∷◌) (set-set rows i a)

-- In a buffer that is in order and has room for a line, Enter and then backspace leave the lines and
-- the position as they were.
pub rub_out-ed_split :
    (s : Ed)
    → IsEd s
    → length s.rows < 511
    → rub_out (ed_split s) ≡ some (record s { modified = true })
unfolding ed_split rub_out join_above
rub_out-ed_split s h k =
    let room : has_room s ≡ true = lt→ltb (length s.rows) 511 k in
    let l = line s in
    let above = take s.col l in
    let below = drop s.col l in
    let rows = set s.rows s.row above in
    let len = length-set s.rows s.row above in
    let first : (suc s.row == 0) ≡ false = ground arith in
    let fits : leb 256 (length l) ≡ false = ground (arith, line-short s h) in
    let back : suc s.row - 1 ≡ s.row = omega arith in
    rw
      (
        room,
        first,
        back,
        get_or-insert_at (suc s.row) below rows (omega (arith, len, h.some_row)),
        get_or-insert_at_above s.row below rows (omega (arith, len, h.some_row)),
        get_or-set_self s.rows s.row above [] h.some_row,
        take-append-drop s.col l,
        fits,
      )
      (ap₂ (λ r c. some (record s { rows = r; col = c; modified = true }))
        (ap (λ r. set r s.row l)
            (remove_at-insert_at (suc s.row) below rows (omega (arith, len, h.some_row)))
          ∙ set-set s.rows s.row above)
        (omega (arith, length-take s.col l, h.in_line)))
