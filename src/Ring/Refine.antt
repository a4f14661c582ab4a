-- ===== src/Ring/Refine.antt =====
-- An event ring is a queue of at most `size - 1` events, oldest first.
use native.Mathlib.Nat.{mod-eq_of_lt, mod-eq-sub-mod}
use eclipse32_gui.Base.{
  ℕ, zero, suc, ◌+◌, ◌-◌, ◌%◌, ◌<◌, ◌≡◌, ◌≢◌, refl, ap, ap₂, ◌∙◌, true, false, List, [], ◌∷◌, ◌++◌,
  if◌then◌else◌, ◌==◌, ltb, leb, get_or, set, length, length-set, arith, Bool-cases, inl, inr,
  ltb→lt,
}
use eclipse32_gui.Ring.{Ring, push, pop}

-- One step past the end goes round once.
abbrev wrap : ℕ → ℕ → ℕ
wrap size i = if ltb i size then i else i - size

wrap_lem : (size i : ℕ) → i < size + size → i % size ≡ wrap size i
wrap_lem size i h = elim (Bool-cases (ltb i size)) [
  | inl p ↦ rw p (mod-eq_of_lt (ltb→lt i size p))
  | inr p ↦ rw p (
      mod-eq-sub-mod {n = i} {m = size} (ground arith)
      ∙ mod-eq_of_lt {n = i - size} {m = size} (ground arith))
]

module _ {ℓ} {A : Type ℓ} where
  pub get_or-set_self :
      (xs : List A) (i : ℕ) (v d : A) → i < length xs → get_or (set xs i v) i d ≡ v
  get_or-set_self [] i v d h = absurd (omega arith)
  get_or-set_self (x ∷ xs) zero v d h = refl
  get_or-set_self (x ∷ xs) (suc i) v d h = get_or-set_self xs i v d (omega arith)

  pub get_or-set_ne :
      (xs : List A) (i j : ℕ) (v d : A) → i ≢ j → get_or (set xs i v) j d ≡ get_or xs j d
  get_or-set_ne [] i j v d h = refl
  get_or-set_ne (x ∷ xs) zero zero v d h = absurd (h refl)
  get_or-set_ne (x ∷ xs) zero (suc j) v d h = refl
  get_or-set_ne (x ∷ xs) (suc i) zero v d h = refl
  get_or-set_ne (x ∷ xs) (suc i) (suc j) v d h = get_or-set_ne xs i j v d (λ e. h (ap suc e))

module _ {ℓ} {A : Type ℓ} (size : ℕ) (d : A) where
  pub record IsRing (r : Ring A) : Type 0 where
    pub full_array : length r.buf ≡ size
    pub rd_in : r.rd < size
    pub wr_in : r.wr < size

  -- How many events are queued.
  abbrev pub count : Ring A → ℕ
  count r = if leb r.rd r.wr then r.wr - r.rd else r.wr + size - r.rd

  -- `n` events from the `k`th on.
  abbrev pub items : List A → ℕ → ℕ → ℕ → List A
  items buf rd k zero = []
  items buf rd k (suc n) = get_or buf (wrap size (rd + k)) d ∷ items buf rd (suc k) n

  -- The queued events, oldest first.
  abbrev pub contents : Ring A → List A
  contents r = items r.buf r.rd 0 (count r)

  length-items : (buf : List A) (rd k n : ℕ) → length (items buf rd k n) ≡ n
  length-items buf rd k zero = refl
  length-items buf rd k (suc n) = ap suc (length-items buf rd (suc k) n)

  pub length-contents : (r : Ring A) → length (contents r) ≡ count r
  length-contents r = length-items r.buf r.rd 0 (count r)

  -- Writing at the place behind the last item adds it.
  items-set :
      (buf : List A) (rd k n i : ℕ) (x : A)
      → length buf ≡ size
      → rd < size
      → k + n < size
      → i ≡ wrap size (rd + (k + n))
      → items (set buf i x) rd k (suc n) ≡ items buf rd k n ++ x ∷ []
  items-set buf rd k zero i x l h b e =
      let same : i ≡ wrap size (rd + k) = ground arith in
      rw (← same) (ap (λ v. v ∷ []) (get_or-set_self buf i x d (ground arith)))
  items-set buf rd k (suc n) i x l h b e =
      ap₂ ◌∷◌ (get_or-set_ne buf i (wrap size (rd + k)) x d (ground arith))
        (items-set buf rd (suc k) n i x l h (omega arith) (ground arith))

  -- Moving the read index on drops the first item.
  items_shift :
      (buf : List A) (rd rd' k n : ℕ)
      → rd < size
      → k + n < size
      → rd' ≡ wrap size (rd + 1)
      → items buf rd' k n ≡ items buf rd (suc k) n
  items_shift buf rd rd' k zero h b e = refl
  items_shift buf rd rd' k (suc n) h b e =
      ap₂ (λ i r. get_or buf i d ∷ r) (ground arith)
        (items_shift buf rd rd' (suc k) n h (omega arith) e)

  pub push-IsRing : (r : Ring A) (x : A) → IsRing r → IsRing (push size r x)
  unfolding push
  push-IsRing r x v =
      ground (arith, length-set r.buf r.wr x, wrap_lem size (r.wr + 1) (omega (arith, v.wr_in)))

  pub pop-IsRing : (r : Ring A) → IsRing r → IsRing (pop size d r).1
  unfolding pop
  pop-IsRing r v = ground (arith, wrap_lem size (r.rd + 1) (omega (arith, v.rd_in)))

  pub count-lt : (r : Ring A) → IsRing r → count r < size
  count-lt r v = ground (arith, v.rd_in, v.wr_in)

  -- The bounded queue that a ring implements.
  abbrev pub enqueue : List A → A → List A
  enqueue q x = if length q + 1 == size then q else q ++ x ∷ []

  abbrev pub dequeue : List A → A × List A
  dequeue [] = (d, [])
  dequeue (x ∷ q) = (x, q)

  module _ (r : Ring A) (x : A) (v : IsRing r) where
    next_wr : (r.wr + 1) % size ≡ wrap size (r.wr + 1)
    next_wr = wrap_lem size (r.wr + 1) (omega (arith, v.wr_in))

    push_full : (wrap size (r.wr + 1) == r.rd) ≡ true → push size r x ≡ r
    unfolding push
    push_full e = rw next_wr (rw e refl)

    push_room :
        (wrap size (r.wr + 1) == r.rd) ≡ false
        → push size r x ≡ record r { buf = set r.buf r.wr x; wr = wrap size (r.wr + 1) }
    unfolding push
    push_room e = rw next_wr (rw e refl)

    -- On a ring in order, queueing an event appends it to the queue, unless `size - 1` events are
    -- queued; then it is dropped.
    pub push_refines : contents (push size r x) ≡ enqueue (contents r) x
    push_refines = elim (Bool-cases (wrap size (r.wr + 1) == r.rd)) [
      | inl e ↦ rw (push_full e) (
          let f : (length (contents r) + 1 == size) ≡ true =
            ground (arith, length-contents r, v.rd_in, v.wr_in) in
          rw f refl)
      | inr e ↦
          let f : (length (contents r) + 1 == size) ≡ false =
            ground (arith, length-contents r, v.rd_in, v.wr_in) in
          let more : count (record r { buf = set r.buf r.wr x; wr = wrap size (r.wr + 1) })
              ≡ suc (count r) =
            ground (arith, v.rd_in, v.wr_in) in
          rw (push_room e) (
            rw f (
              rw more (
                items-set r.buf r.rd 0 (count r) r.wr x v.full_array v.rd_in
                  (ground (arith, count-lt r v)) (ground (arith, v.rd_in, v.wr_in)))))
    ]

  -- Taking an event returns the oldest one and leaves the rest; an empty ring returns the zeroed
  -- event and stays.
  pub pop_refines :
      (r : Ring A) → IsRing r → ((pop size d r).0, contents (pop size d r).1) ≡ dequeue (contents r)
  unfolding pop
  pop_refines r v = elim (Bool-cases (r.wr == r.rd)) [
    | inl e ↦ let none_left : count r ≡ 0 = ground arith in rw e (rw none_left refl)
    | inr e ↦
        let some_left : count r ≡ suc (count r - 1) = ground (arith, v.rd_in, v.wr_in) in
        let next_rd : (r.rd + 1) % size ≡ wrap size (r.rd + 1) =
          wrap_lem size (r.rd + 1) (omega (arith, v.rd_in)) in
        let fewer : count (record r { rd = (r.rd + 1) % size }) ≡ count r - 1 =
          ground (arith, next_rd, v.rd_in, v.wr_in) in
        rw e (
          rw some_left (
            ap₂ (λ a q. (a, q)) (ap (λ i. get_or r.buf i d) (ground (arith, v.rd_in)))
              (ap (items r.buf ((r.rd + 1) % size) 0) fewer
                ∙ items_shift r.buf r.rd ((r.rd + 1) % size) 0 (count r - 1) v.rd_in
                    (ground (arith, count-lt r v)) next_rd)))
  ]
