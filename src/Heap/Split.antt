-- ===== src/Heap/Split.antt =====
-- What kmalloc of kernel/mm/heap.c leaves of the block that it gives.
use eclipse32_gui.Base.{
  ℕ, ◌+◌, ◌-◌, ◌%◌, ◌<◌, ◌≤◌, ◌⊎◌, inl, inr, true, false, ◌≡◌, ◌≢◌, refl, ◌∙◌, ◌==◌, leb, arith,
  Bool-cases,
}
use eclipse32_gui.Pmm.{u32}
use eclipse32_gui.Heap.{
  Heap, hdr_size, ftr_size, min_block, heap_magic, data_size, is_free, has_magic, next_of, prev_of,
  put, put_size, put_free, fl_remove, fl_add, split, mark,
}

-- A pointer to a header outside the block `b` of `size` bytes, or NULL.
abbrev pub IsOutside : ℕ → ℕ → ℕ → Type 0
IsOutside p b size = (p ≡ 0) ⊎ (p + hdr_size ≤ b) ⊎ (b + hdr_size + size + ftr_size ≤ p)

pub fl_remove-size :
    (b size : ℕ) (h : Heap)
    → IsOutside (prev_of b h) b size
    → IsOutside (next_of b h) b size
    → data_size b (fl_remove b h) ≡ data_size b h
unfolding fl_remove put
fl_remove-size b size h p n = elim (Bool-cases (prev_of b h == 0)) [
  | inl e ↦ rw e (elim (Bool-cases (next_of b h == 0)) [
    | inl f ↦ rw f (ground arith)
    | inr f ↦ rw f (ground (arith, n, f))
  ])
  | inr e ↦
      let kept : next_of b (put (prev_of b h + 8) (next_of b h) h) ≡ next_of b h =
        ground (arith, p, e) in
      rw (e, kept)
        (elim (Bool-cases (next_of b h == 0)) [
          | inl f ↦ rw f (ground (arith, p, e))
          | inr f ↦ rw f (ground (arith, p, n, e, f))
        ])
]

-- The block is cut at `size`, before a free block of the rest.
abbrev pub IsSplit : ℕ → ℕ → ℕ → Heap → Type 0
IsSplit b size old t =
    let new = b + hdr_size + size + ftr_size in
    (data_size b t ≡ size)
    × (data_size new t ≡ old - size - hdr_size - ftr_size)
    × (is_free new t ≡ true)
    × (has_magic new t ≡ true)
    × (t.free_list ≡ new)

pub split-whole :
    (b size : ℕ) (g : Heap)
    → data_size b g < size + min_block
    → size + min_block < u32
    → data_size b (mark b 0 (split b size g)) ≡ data_size b g
unfolding split mark put
split-whole b size g short small =
    let test : leb ((size + min_block) % u32) (data_size b g) ≡ false =
      ground (arith, short, small) in
    rw test (ground arith)

fl_add-word :
    (new x : ℕ) (w : Heap)
    → x ≢ new + 8
    → x ≢ new + 12
    → (w.free_list ≡ 0) ⊎ (x ≢ w.free_list + 12)
    → (fl_add new w).mem x ≡ w.mem x
unfolding fl_add put
fl_add-word new x w x1 x2 k = elim (Bool-cases (w.free_list == 0)) [
  | inl e ↦ rw e (ground (arith, x1, x2))
  | inr e ↦ rw e (ground (arith, x1, x2, k, e))
]

fl_add-head : (new : ℕ) (w : Heap) → (fl_add new w).free_list ≡ new
unfolding fl_add
fl_add-head new w = refl

-- What `put_free` writes.
put_free-words :
    (new r : ℕ) (q : Heap)
    → ((put_free new r q).mem new ≡ r)
      × ((put_free new r q).mem (new + 4) ≡ 1)
      × ((put_free new r q).mem (new + 16) ≡ heap_magic)
unfolding put_free put_size put
put_free-words new r q = (ground arith, ground arith, ground arith)

put_free-below : (new r x : ℕ) (q : Heap) → x < new → (put_free new r q).mem x ≡ q.mem x
unfolding put_free put_size put
put_free-below new r x q l = ground (arith, l)

put_free-head : (new r : ℕ) (q : Heap) → (put_free new r q).free_list ≡ q.free_list
unfolding put_free put_size put
put_free-head new r q = refl

put_size-words :
    (b size : ℕ) (g : Heap)
    → ((put_size b size 0 g).mem b ≡ size) × ((put_size b size 0 g).free_list ≡ g.free_list)
unfolding put_size put
put_size-words b size g = (ground arith, refl)

mark-word :
    (b x : ℕ) (u : Heap) → x ≢ b + 4 → x ≢ b + hdr_size + u.mem b + 4 → (mark b 0 u).mem x ≡ u.mem x
unfolding mark put
mark-word b x u x1 x2 = ground (arith, x1, x2)

mark-head : (b : ℕ) (u : Heap) → (mark b 0 u).free_list ≡ u.free_list
unfolding mark put
mark-head b u = refl

-- The heap with the rest as a free block.
abbrev cut : ℕ → ℕ → ℕ → Heap → Heap
cut b size r g =
    let new = b + hdr_size + size + ftr_size in fl_add new (put_free new r (put_size b size 0 g))

-- A list's head that is outside the given block and the header behind it.
abbrev IsClearOf : ℕ → ℕ → ℕ → Type 0
IsClearOf b new p = (p ≡ 0) ⊎ (p + hdr_size ≤ b) ⊎ (new + hdr_size ≤ p)

module _ (b size r : ℕ) (g : Heap)
    (out : IsClearOf b (b + hdr_size + size + ftr_size) g.free_list) where
  -- The header behind the block.
  abbrev behind : ℕ
  behind = b + hdr_size + size + ftr_size

  abbrev rest_put : Heap
  rest_put = put_free behind r (put_size b size 0 g)

  head_kept : rest_put.free_list ≡ g.free_list
  head_kept = put_free-head behind r (put_size b size 0 g) ∙ (put_size-words b size g).1

  added_word :
      (x : ℕ)
      → (x ≡ b) ⊎ (x ≡ behind) ⊎ (x ≡ behind + 4) ⊎ (x ≡ behind + 16)
      → (cut b size r g).mem x ≡ rest_put.mem x
  added_word x k =
      fl_add-word behind x rest_put (omega (arith, k)) (omega (arith, k)) (rw head_kept (off out))
    where
      off : IsClearOf b behind g.free_list → (g.free_list ≡ 0) ⊎ (x ≢ g.free_list + 12)
      off (inl e) = inl e
      off (inr (inl l)) = inr (λ e. absurd (omega (arith, k, l, e)))
      off (inr (inr l)) = inr (λ e. absurd (omega (arith, k, l, e)))

  size_kept : (cut b size r g).mem b ≡ size
  size_kept =
      added_word b (inl refl)
      ∙ (put_free-below behind r b (put_size b size 0 g) (omega arith)
          ∙ (put_size-words b size g).0)

  cut-word :
      (x : ℕ)
      → (x ≡ b) ⊎ (x ≡ behind) ⊎ (x ≡ behind + 4) ⊎ (x ≡ behind + 16)
      → (mark b 0 (cut b size r g)).mem x ≡ rest_put.mem x
  cut-word x k =
      mark-word b x (cut b size r g) (omega (arith, k)) (rw size_kept (omega (arith, k)))
      ∙ added_word x k

  cut_words :
      ((mark b 0 (cut b size r g)).mem b ≡ size)
      × ((mark b 0 (cut b size r g)).mem behind ≡ r)
      × ((mark b 0 (cut b size r g)).mem (behind + 4) ≡ 1)
      × ((mark b 0 (cut b size r g)).mem (behind + 16) ≡ heap_magic)
      × ((mark b 0 (cut b size r g)).free_list ≡ behind)
  cut_words =
      let (w0, w4, w16) = put_free-words behind r (put_size b size 0 g) in
      (
        mark-word b b (cut b size r g) (omega arith) (rw size_kept (omega arith)) ∙ size_kept,
        cut-word behind (inr (inl refl)) ∙ w0,
        cut-word (behind + 4) (inr (inr (inl refl))) ∙ w4,
        cut-word (behind + 16) (inr (inr (inr refl))) ∙ w16,
        mark-head b (cut b size r g) ∙ fl_add-head behind rest_put,
      )

pub split-IsSplit :
    (b size : ℕ) (g : Heap)
    → size + min_block ≤ data_size b g
    → data_size b g < u32
    → IsOutside g.free_list b (data_size b g)
    → IsSplit b size (data_size b g) (mark b 0 (split b size g))
unfolding split
split-IsSplit b size g large low out =
    let old = data_size b g in
    let test : leb ((size + min_block) % u32) old ≡ true = ground (arith, large, low) in
    let r : (old + u32 - size - hdr_size - ftr_size) % u32 ≡ old - size - hdr_size - ftr_size =
      omega (arith, large, low) in
    let (w0, w1, w4, w16, head) =
      cut_words b size (old - size - hdr_size - ftr_size) g (clear out) in
    rw (test, (put_size-words b size g).0, r) (w0, w1, rw w4 refl, rw w16 refl, head)
  where
    clear :
        IsOutside g.free_list b (data_size b g)
        → IsClearOf b (b + hdr_size + size + ftr_size) g.free_list
    clear (inl e) = inl e
    clear (inr (inl l)) = inr (inl l)
    clear (inr (inr l)) = inr (inr (omega (arith, l, large)))
