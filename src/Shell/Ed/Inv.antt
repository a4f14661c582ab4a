-- ===== src/Shell/Ed/Inv.antt =====
-- The invariant of the editor `ed` of shell/shell.c, and that the edits of its buffer keep it.
use eclipse32_gui.Base.{
  ℕ, zero, suc, ◌+◌, ◌≤◌, ◌<◌, ◌≡◌, refl, ap, Bool, true, List, [], ◌∷◌, ◌++◌, Option, none, some,
  leb, length, take, drop, get_or, set, length-set, length-take, length-drop, length-append,
  get_or-set_self, arith, Bool-cases, inl, inr,
}
use eclipse32_gui.Shell.Ed.{Ed, line, put_line, insert_at, remove_at, one_or_more, ed_ins, ed_delch}

-- Every line fits a row of 256 bytes with its NUL.
abbrev pub AllShort : List (List ℕ) → Type 0
AllShort [] = Unit
AllShort (l ∷ rows) = (length l ≤ 255) × AllShort rows

abbrev pub YankShort : Option (List ℕ) → Type 0
YankShort none = Unit
YankShort (some l) = length l ≤ 255

-- There are 1 to 512 lines, each fits its row, as does the line that was cut, and the position is in a
-- line or at its end.
pub record IsBuffer (rows : List (List ℕ)) (row col : ℕ) (yank : Option (List ℕ)) : Type 0 where
  pub some_row : row < length rows
  pub few_rows : length rows ≤ 512
  pub in_line : col ≤ length (get_or rows row [])
  pub short : AllShort rows
  pub yank_short : YankShort yank

abbrev pub IsEd : Ed → Type 0
IsEd s = IsBuffer s.rows s.row s.col s.yank

pub get_or-AllShort :
    (rows : List (List ℕ)) (i : ℕ) → AllShort rows → length (get_or rows i []) ≤ 255
get_or-AllShort [] i h = omega arith
get_or-AllShort (l ∷ rows) zero h = h.0
get_or-AllShort (l ∷ rows) (suc i) h = get_or-AllShort rows i h.1

pub set-AllShort :
    (rows : List (List ℕ)) (i : ℕ) (l : List ℕ)
    → AllShort rows
    → length l ≤ 255
    → AllShort (set rows i l)
set-AllShort [] i l h k = tt
set-AllShort (r ∷ rows) zero l h k = (k, h.1)
set-AllShort (r ∷ rows) (suc i) l h k = (h.0, set-AllShort rows i l h.1 k)

pub insert_at-AllShort :
    (i : ℕ) (l : List ℕ) (rows : List (List ℕ))
    → length l ≤ 255
    → AllShort rows
    → AllShort (insert_at i l rows)
insert_at-AllShort zero l rows k h = (k, h)
insert_at-AllShort (suc i) l [] k h = (k, tt)
insert_at-AllShort (suc i) l (r ∷ rows) k h = (h.0, insert_at-AllShort i l rows k h.1)

pub remove_at-AllShort :
    (i : ℕ) (rows : List (List ℕ)) → AllShort rows → AllShort (remove_at i rows)
remove_at-AllShort i [] h = tt
remove_at-AllShort zero (r ∷ rows) h = h.1
remove_at-AllShort (suc i) (r ∷ rows) h = (h.0, remove_at-AllShort i rows h.1)

pub length-insert_at :
    (i : ℕ) (l : List ℕ) (rows : List (List ℕ)) → length (insert_at i l rows) ≡ suc (length rows)
length-insert_at zero l rows = refl
length-insert_at (suc i) l [] = refl
length-insert_at (suc i) l (r ∷ rows) = ap suc (length-insert_at i l rows)

pub length-remove_at :
    (i : ℕ) (rows : List (List ℕ)) → i < length rows → length (remove_at i rows) + 1 ≡ length rows
length-remove_at i [] h = absurd (omega arith)
length-remove_at zero (r ∷ rows) h = omega arith
length-remove_at (suc i) (r ∷ rows) h = omega (arith, length-remove_at i rows (omega arith))

pub one_or_more-AllShort : (rows : List (List ℕ)) → AllShort rows → AllShort (one_or_more rows)
one_or_more-AllShort [] h = (omega arith, tt)
one_or_more-AllShort (r ∷ rows) h = h

pub length-one_or_more :
    (rows : List (List ℕ))
    → (0 < length (one_or_more rows)) × (length (one_or_more rows) ≤ length rows + 1)
length-one_or_more [] = (omega arith, omega arith)
length-one_or_more (r ∷ rows) = (omega arith, omega arith)

-- The line is another one, and the position is in it.
pub put_line-IsEd :
    (s : Ed) (l : List ℕ) (col : ℕ) (modified : Bool)
    → IsEd s
    → length l ≤ 255
    → col ≤ length l
    → IsEd (record (put_line l s) { col = col; modified = modified })
put_line-IsEd s l col modified h k c = record {
  some_row = omega (arith, h.some_row, length-set s.rows s.row l);
  few_rows = omega (arith, h.few_rows, length-set s.rows s.row l);
  in_line = omega (arith, ap length (get_or-set_self s.rows s.row l [] h.some_row), c);
  short = set-AllShort s.rows s.row l h.short k;
  yank_short = h.yank_short;
}

pub line-short : (s : Ed) → IsEd s → length (line s) ≤ 255
line-short s h = get_or-AllShort s.rows s.row h.short

pub ed_ins-IsEd : (c : ℕ) (s : Ed) → IsEd s → IsEd (ed_ins c s)
unfolding ed_ins
ed_ins-IsEd c s h = elim (Bool-cases (leb 255 (length (line s)))) [
  | inl e ↦ rw e h
  | inr e ↦
      let l = line s in
      let free : length l < 255 = ground arith in
      let len = length-append (take s.col l) (c ∷ drop s.col l) in
      rw e (
        put_line-IsEd s (take s.col l ++ c ∷ drop s.col l) (s.col + 1) true h
          (omega (arith, len, length-take s.col l, length-drop s.col l, free))
          (omega (arith, len, length-take s.col l, h.in_line)))
]

pub ed_delch-IsEd : (s : Ed) → IsEd s → IsEd (ed_delch s)
unfolding ed_delch
ed_delch-IsEd s h = elim (Bool-cases (leb (length (line s)) s.col)) [
  | inl e ↦ rw e h
  | inr e ↦
      let l = line s in
      let inside : s.col < length l = ground arith in
      let len = length-append (take s.col l) (drop (suc s.col) l) in
      rw e (
        put_line-IsEd s (take s.col l ++ drop (suc s.col) l) s.col true h
          (omega (arith, len, length-take s.col l, length-drop (suc s.col) l, line-short s h))
          (omega (arith, len, length-take s.col l, inside)))
]
