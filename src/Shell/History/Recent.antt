-- ===== src/Shell/History/Recent.antt =====
-- The history of shell/shell.c as the list of the last lines, the newest first.
use eclipse32_gui.Base.{
  ℕ, zero, suc, ◌+◌, ◌-◌, ◌%◌, ◌≤◌, ◌<◌, ◌≡◌, refl, sym, ◌∙◌, ap, ap₂, min, Bool, false, ◌&&◌, ◌||◌,
  List, [], ◌∷◌, some, if◌then◌else◌, ◌==◌, ltb, leb, get_elem?, take, length, arith,
  get_or-set_self, get_or-set_ne, Bool-cases, inl, inr, length-set,
}
use eclipse32_gui.Shell.{same_string, is_empty}
use eclipse32_gui.Shell.History.{
  History, line_at, history_add, history_prev, history_next, push_line,
}

-- The `n` lines before the line number `c`, the last of them first.
abbrev pub lines_before : ℕ → ℕ → History → List (List ℕ)
lines_before zero c h = []
lines_before (suc n) c h = line_at h (c - 1) ∷ lines_before n (c - 1) h

-- The history as it is meant: at most 128 lines.
abbrev pub recent : History → List (List ℕ)
recent h = lines_before (min h.count 128) h.count h

abbrev pub IsRing : History → Type 0
IsRing h = length h.lines ≡ 128

line_at-push_line :
    (line : List ℕ) (h : History) (i : ℕ)
    → i < h.count
    → h.count < i + 128
    → line_at (push_line line h) i ≡ line_at h i
unfolding push_line
line_at-push_line line h i l k =
    get_or-set_ne h.lines (h.count % 128) (i % 128) (take 1023 line) [] (λ e. omega arith)

lines_before-push_line :
    (n c : ℕ) (line : List ℕ) (h : History)
    → n ≤ c
    → c ≤ h.count
    → h.count + n < c + 128
    → lines_before n c (push_line line h) ≡ lines_before n c h
lines_before-push_line zero c line h l k m = refl
lines_before-push_line (suc n) c line h l k m =
    ap₂ (λ x xs. x ∷ xs) (line_at-push_line line h (c - 1) (omega arith) (omega arith))
      (lines_before-push_line n (c - 1) line h (omega arith) (omega arith) (omega arith))

take-lines_before :
    (n m c : ℕ) (h : History) → take n (lines_before m c h) ≡ lines_before (min n m) c h
take-lines_before zero m c h = ap (λ k. lines_before k c h) {x = 0} {y = min 0 m} (omega arith)
take-lines_before (suc n) zero c h =
    ap (λ k. lines_before k c h) {x = 0} {y = min (suc n) 0} (omega arith)
take-lines_before (suc n) (suc m) c h =
    ap (line_at h (c - 1) ∷◌) (take-lines_before n m (c - 1) h)
    ∙ ap (λ k. lines_before k c h) {x = suc (min n m)} {y = min (suc n) (suc m)} (omega arith)

line_at-push_line_self :
    (line : List ℕ) (h : History) → IsRing h → line_at (push_line line h) h.count ≡ take 1023 line
unfolding push_line
line_at-push_line_self line h r =
    get_or-set_self h.lines (h.count % 128) (take 1023 line) [] (omega (arith, r))

abbrev newest : History → List ℕ
newest h = line_at h (h.count - 1)

-- A line that is empty, or the same as the newest one.
abbrev pub is_skipped : List ℕ → History → Bool
is_skipped line h = is_empty line || (ltb 0 h.count && same_string (newest h) line)

pushed_before :
    (line : List ℕ) (h : History)
    → recent (push_line line h)
      ≡ lines_before (suc (min h.count 127)) (h.count + 1) (push_line line h)
unfolding push_line
pushed_before line h =
    ap (λ k. lines_before k (h.count + 1) (push_line line h)) {x = min (h.count + 1) 128}
      {y = suc (min h.count 127)} (omega arith)

recent-push_line :
    (line : List ℕ) (h : History)
    → IsRing h
    → recent (push_line line h) ≡ take 128 (take 1023 line ∷ recent h)
recent-push_line line h r =
    pushed_before line h
    ∙ (ap₂ (λ x xs. x ∷ xs)
        (ap (line_at (push_line line h)) {x = h.count + 1 - 1} (omega arith)
          ∙ line_at-push_line_self line h r)
        (ap (λ c. lines_before (min h.count 127) c (push_line line h)) {x = h.count + 1 - 1}
            (omega arith)
          ∙ (lines_before-push_line (min h.count 127) h.count line h (omega arith) (omega arith)
                (omega arith)
              ∙ (ap (λ k. lines_before k h.count h) {y = min 127 (min h.count 128)} (omega arith)
                  ∙ sym (take-lines_before 127 (min h.count 128) h.count h)))))

push_line-IsRing : (line : List ℕ) (h : History) → IsRing h → IsRing (push_line line h)
unfolding push_line
push_line-IsRing line h r = length-set h.lines (h.count % 128) (take 1023 line) ∙ r

get_elem?-lines_before :
    (n c k : ℕ) (h : History)
    → k < n
    → get_elem? (lines_before n c h) k ≡ some (line_at h (c - suc k))
get_elem?-lines_before zero c k h l = absurd (omega arith)
get_elem?-lines_before (suc n) c zero h l = refl
get_elem?-lines_before (suc n) c (suc k) h l =
    get_elem?-lines_before n (c - 1) k h (omega arith)
    ∙ ap (λ i. some (line_at h i)) {x = c - 1 - suc k} {y = c - suc (suc k)} (omega arith)

-- An added line stands first in the history, cut off at 1023 bytes, and the oldest of 128 lines is
-- forgotten; an empty line and a repeated one change nothing.
pub history_add-recent :
    (line : List ℕ) (h : History)
    → IsRing h
    → IsRing (history_add line h)
      × (recent (history_add line h)
          ≡ (if is_skipped line h then recent h else take 128 (take 1023 line ∷ recent h)))
unfolding history_add
history_add-recent line h r = elim (Bool-cases (is_empty line)) [
  | inl e ↦ rw e (r, refl)
  | inr e ↦ elim (Bool-cases (ltb 0 h.count && same_string (newest h) line)) [
    | inl d ↦ rw (e, d) (r, refl)
    | inr d ↦ rw (e, d) (push_line-IsRing line h r, recent-push_line line h r)
  ]
]

-- Walking up from the newest line but `k`: the line that `history_prev` gives is the next older
-- one of the history, and the position moves by one.
pub history_prev-recent :
    (h : History) (k : ℕ)
    → h.at + k ≡ h.count
    → k < min h.count 128
    → ((history_prev h).0 ≡ get_elem? (recent h) k) × ((history_prev h).1.at + suc k ≡ h.count)
unfolding history_prev
history_prev-recent h k e l =
    let some_left : (h.at == 0) ≡ false = ground arith in
    rw some_left (
      ap (λ i. some (line_at h i)) {x = h.at - 1} {y = h.count - suc k} (omega arith)
          ∙ sym (get_elem?-lines_before (min h.count 128) h.count k h l),
      omega arith,
    )

-- A step down undoes a step up, to an older line or past the newest one.
pub history_next-history_prev :
    (h : History)
    → 0 < h.at
    → h.at ≤ h.count
    → ((history_next (history_prev h).1).1 ≡ h)
      × ((history_next (history_prev h).1).0 ≡ (if leb h.count h.at then [] else line_at h h.at))
unfolding history_next history_prev
history_next-history_prev h k l =
    let some_left : (h.at == 0) ≡ false = ground arith in
    let more : leb h.count (h.at - 1) ≡ false = ground arith in
    let back : h.at - 1 + 1 ≡ h.at = omega arith in
    rw (some_left, more, back)
      (elim (Bool-cases (leb h.count h.at)) [
        | inl e ↦ rw e (refl, refl)
        | inr e ↦ rw e (refl, refl)
      ])
