-- ===== src/Shell/Ed/Keep.antt =====
-- The edits of the editor `ed` of shell/shell.c that change the number of lines or move.
use eclipse32_gui.Base.{
  ℕ, suc, ◌+◌, ◌-◌, ◌≤◌, ◌<◌, ◌≡◌, ap, min, List, [], ◌++◌, Option, none, some, ◌==◌, ltb, leb,
  length, take, drop, get_or, set, length-set, length-take, length-drop, length-append,
  get_or-set_self, arith, ltb→lt, leb→le, Bool-cases, inl, inr,
}
use eclipse32_gui.Shell.Ed.{
  Ed, line, insert_at, remove_at, has_room, ed_delline, ed_split, put_below, open_above, ed_clamp,
  join_above, rub_out, go_up, go_down, go_left, go_right,
}
use eclipse32_gui.Shell.Ed.Inv.{
  AllShort, YankShort, IsBuffer, IsEd, set-AllShort, insert_at-AllShort, remove_at-AllShort,
  one_or_more-AllShort, length-one_or_more, length-insert_at, length-remove_at, line-short,
  ed_delch-IsEd,
}

pub ed_delline-IsEd : (s : Ed) → IsEd s → IsEd (ed_delline s)
unfolding ed_delline
ed_delline-IsEd s h =
    let rest = remove_at s.row s.rows in
    let bounds = length-one_or_more rest in
    let len = length-remove_at s.row s.rows h.some_row in
    record {
      some_row = omega (arith, bounds);
      few_rows = omega (arith, bounds, len, h.few_rows);
      in_line = omega arith;
      short = one_or_more-AllShort rest (remove_at-AllShort s.row s.rows h.short);
      yank_short = line-short s h;
    }

-- A line that is put in below the current one, the position at its start.
below-IsBuffer :
    (rows : List (List ℕ)) (row : ℕ) (l : List ℕ) (yank : Option (List ℕ))
    → row < length rows
    → length rows < 511
    → length l ≤ 255
    → AllShort rows
    → YankShort yank
    → IsBuffer (insert_at (suc row) l rows) (suc row) 0 yank
below-IsBuffer rows row l yank h k m a y =
    let len = length-insert_at (suc row) l rows in
    record {
      some_row = omega (arith, len);
      few_rows = omega (arith, len);
      in_line = omega arith;
      short = insert_at-AllShort (suc row) l rows m a;
      yank_short = y;
    }

pub ed_split-IsEd : (s : Ed) → IsEd s → IsEd (ed_split s)
unfolding ed_split
ed_split-IsEd s h = elim (Bool-cases (has_room s)) [
  | inr e ↦ rw e h
  | inl e ↦
      let l = line s in
      let room = ltb→lt (length s.rows) 511 e in
      let len = length-set s.rows s.row (take s.col l) in
      rw e (
        below-IsBuffer (set s.rows s.row (take s.col l)) s.row (drop s.col l) s.yank
          (omega (arith, len, h.some_row)) (omega (arith, len))
          (omega (arith, length-drop s.col l, line-short s h))
          (set-AllShort s.rows s.row (take s.col l) h.short
            (omega (arith, length-take s.col l, line-short s h)))
          h.yank_short)
]

pub put_below-IsEd : (l : List ℕ) (s : Ed) → length l ≤ 255 → IsEd s → IsEd (put_below l s)
unfolding put_below
put_below-IsEd l s k h = elim (Bool-cases (has_room s)) [
  | inr e ↦ rw e h
  | inl e ↦ rw e (
      below-IsBuffer s.rows s.row l s.yank h.some_row (ltb→lt (length s.rows) 511 e) k h.short
        h.yank_short)
]

pub open_above-IsEd : (s : Ed) → IsEd s → IsEd (open_above s)
unfolding open_above
open_above-IsEd s h = elim (Bool-cases (has_room s)) [
  | inr e ↦ rw e h
  | inl e ↦
      let room = ltb→lt (length s.rows) 511 e in
      let len = length-insert_at s.row [] s.rows in
      rw e (record {
        some_row = omega (arith, len, h.some_row);
        few_rows = omega (arith, len);
        in_line = omega arith;
        short = insert_at-AllShort s.row [] s.rows (omega arith) h.short;
        yank_short = h.yank_short;
      })
]

-- The position goes to another line, within it.
pub at_row-IsBuffer :
    (s : Ed) (row col : ℕ)
    → IsEd s
    → row < length s.rows
    → col ≤ length (get_or s.rows row [])
    → IsBuffer s.rows row col s.yank
at_row-IsBuffer s row col h k m = record {
  some_row = k;
  few_rows = h.few_rows;
  in_line = m;
  short = h.short;
  yank_short = h.yank_short;
}

pub go_up-IsEd : (s : Ed) → IsEd s → IsEd (go_up s)
unfolding go_up ed_clamp
go_up-IsEd s h = elim (Bool-cases (ltb 0 s.row)) [
  | inr e ↦ rw e h
  | inl e ↦ rw e (
      at_row-IsBuffer s (s.row - 1) (min s.col (length (get_or s.rows (s.row - 1) []))) h
        (omega (arith, h.some_row)) (omega arith))
]

pub go_down-IsEd : (s : Ed) → IsEd s → IsEd (go_down s)
unfolding go_down ed_clamp
go_down-IsEd s h = elim (Bool-cases (ltb s.row (length s.rows - 1))) [
  | inr e ↦ rw e h
  | inl e ↦ rw e (
      at_row-IsBuffer s (suc s.row) (min s.col (length (get_or s.rows (suc s.row) []))) h
        (omega (arith, ltb→lt s.row (length s.rows - 1) e)) (omega arith))
]

pub go_left-IsEd : (s : Ed) → IsEd s → IsEd (go_left s)
unfolding go_left
go_left-IsEd s h = elim (Bool-cases (ltb 0 s.col)) [
  | inr e ↦ rw e h
  | inl e ↦ rw e (at_row-IsBuffer s s.row (s.col - 1) h h.some_row (omega (arith, h.in_line)))
]

pub go_right-IsEd : (s : Ed) → IsEd s → IsEd (go_right s)
unfolding go_right
go_right-IsEd s h = elim (Bool-cases (ltb s.col (length (line s)))) [
  | inr e ↦ rw e h
  | inl e ↦ rw e (
      at_row-IsBuffer s s.row (s.col + 1) h h.some_row
        (omega (arith, ltb→lt s.col (length (line s)) e)))
]

-- Two lines that are too long for a row together.
abbrev pub Overflows : Ed → Type 0
Overflows s =
    (s.col ≡ 0) × (0 < s.row) × (256 ≤ length (get_or s.rows (s.row - 1) []) + length (line s))

abbrev pub KeptUnless : Type 0 → Option Ed → Type 0
KeptUnless P none = P
KeptUnless P (some t) = IsEd t

join_above-IsEd : (s : Ed) → IsEd s → s.col ≡ 0 → KeptUnless (Overflows s) (join_above s)
unfolding join_above
join_above-IsEd s h k =
    let above = get_or s.rows (s.row - 1) [] in
    let len = length-append above (line s) in
    elim (Bool-cases (s.row == 0)) [
      | inl e ↦ rw e h
      | inr e ↦
          let below_first : 0 < s.row = ground arith in
          elim (Bool-cases (leb 256 (length (above ++ line s)))) [
            | inl f ↦
                rw (e, f)
                  (k, below_first, omega (arith, len, leb→le 256 (length (above ++ line s)) f))
            | inr f ↦
                let fits : length (above ++ line s) < 256 = ground arith in
                let rest = remove_at s.row s.rows in
                let less = length-remove_at s.row s.rows h.some_row in
                let same = length-set rest (s.row - 1) (above ++ line s) in
                rw (e, f)
                  (record {
                    some_row = omega (arith, same, less, h.some_row);
                    few_rows = omega (arith, same, less, h.few_rows);
                    in_line = omega (
                      arith,
                      ap length (
                          get_or-set_self rest (s.row - 1) (above ++ line s) []
                            (omega (arith, less, h.some_row))),
                      len,
                    );
                    short =
                        set-AllShort rest (s.row - 1) (above ++ line s)
                          (remove_at-AllShort s.row s.rows h.short) (omega arith);
                    yank_short = h.yank_short;
                  })
          ]
    ]

pub rub_out-IsEd : (s : Ed) → IsEd s → KeptUnless (Overflows s) (rub_out s)
unfolding rub_out
rub_out-IsEd s h = elim (Bool-cases (ltb 0 s.col)) [
  | inl e ↦ rw e (
      ed_delch-IsEd (record s { col = s.col - 1 })
        (at_row-IsBuffer s s.row (s.col - 1) h h.some_row (omega (arith, h.in_line))))
  | inr e ↦ let start : s.col ≡ 0 = ground arith in rw e (join_above-IsEd s h start)
]
