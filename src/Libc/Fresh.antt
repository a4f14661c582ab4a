-- ===== src/Libc/Fresh.antt =====
-- Fresh blocks of `malloc` of apps/sdk/libc/stdlib.c, at the top of the heap.
use eclipse32_gui.Base.{
  ℕ, ◌+◌, ◌%◌, ◌^◌, ◌<◌, ◌≤◌, List, [], ◌∷◌, length, Option, none, some, ◌≡◌, ◌≢◌, refl, Bool-cases,
  inl, inr, ap, ◌∙◌, if◌then◌else◌, leb, arith,
}
use eclipse32_gui.Libc.Numbers.{u32}
use eclipse32_gui.Libc.Malloc.{
  AppHeap, mhdr_sz, put_word, e32_brk, move_top, sbrk, with_header, cut_fresh, morecore, put_header,
  extend, malloc,
}
use eclipse32_gui.Libc.FreeList.{IsChain, kept, first_fit, granted, total_of, malloc-first_fit}

-- A heap that is set up, its top between its bounds, in the lower half of the memory.
abbrev pub IsHeap : AppHeap → Type 0
IsHeap h = (h.base ≢ 0) × (h.base ≤ h.top) × (h.top ≤ h.limit) × (h.limit < 2 ^ 31)

top_read : (h : AppHeap) → IsHeap h → e32_brk 0 h ≡ (some h.top, h)
unfolding e32_brk
top_read h w = ground (arith, w.0, w.1, w.2, w.3)

brk_fits :
    (a : ℕ) (h : AppHeap)
    → IsHeap h
    → h.base ≤ a
    → a ≤ h.limit
    → e32_brk a h ≡ (some a, record h { top = a })
unfolding e32_brk
brk_fits a h w low high = ground (arith, w.0, w.1, w.2, w.3, low, high)

brk_full : (a : ℕ) (h : AppHeap) → IsHeap h → h.limit < a → e32_brk a h ≡ (none, h)
unfolding e32_brk
brk_full a h w high = ground (arith, w.0, w.1, w.2, w.3, high)

no_wrap :
    (total : ℕ) (h : AppHeap) → IsHeap h → total < 2 ^ 31 → (h.top + total) % u32 ≡ h.top + total
no_wrap total h w small = omega (arith, w.2, w.3, small)

move_up :
    (total : ℕ) (h : AppHeap)
    → IsHeap h
    → total ≢ 0
    → h.top + total ≤ h.limit
    → move_top h.top total h ≡ (some h.top, record h { top = h.top + total })
unfolding move_top
move_up total h w nz room =
    let e = no_wrap total h w (omega (arith, room, w.3)) in
    let q = brk_fits (h.top + total) h w (omega (arith, w.1)) room in
    rw (e, q) (ground (arith, w.2, w.3, room))

no_room :
    (total : ℕ) (h : AppHeap)
    → IsHeap h
    → h.limit < h.top + total
    → total < 2 ^ 31
    → move_top h.top total h ≡ (none, h)
unfolding move_top
no_room total h w full small =
    let e = no_wrap total h w small in
    let q = brk_full (h.top + total) h w full in rw (e, q) (ground (arith, w.2, w.3, small))

sbrk_lem : (total : ℕ) (h : AppHeap) → IsHeap h → total ≢ 0 → sbrk total h ≡ move_top h.top total h
unfolding sbrk
sbrk_lem total h w nz = let q = top_read h w in rw (q, ap (λ r. r.1) q) (ground (arith, nz))

abbrev pub raised : ℕ → AppHeap → AppHeap
raised total h = record h { top = h.top + total }

-- The heap with a block more, at its old top.
abbrev pub grown : ℕ → AppHeap → AppHeap
grown total h = put_header h.top total 0 (raised total h)

morecore_fits :
    (total : ℕ) (h : AppHeap)
    → IsHeap h
    → total ≢ 0
    → h.top + total ≤ h.limit
    → morecore total h ≡ (some h.top, grown total h)
unfolding morecore
morecore_fits total h w nz room =
    ap (with_header total) (sbrk_lem total h w nz ∙ move_up total h w nz room)

morecore_full :
    (total : ℕ) (h : AppHeap)
    → IsHeap h
    → total ≢ 0
    → h.limit < h.top + total
    → total < 2 ^ 31
    → morecore total h ≡ (none, h)
unfolding morecore
morecore_full total h w nz full small =
    ap (with_header total) (sbrk_lem total h w nz ∙ no_room total h w full small)

extend_fits :
    (total : ℕ) (h : AppHeap)
    → IsHeap h
    → total ≢ 0
    → h.top + total ≤ h.limit
    → extend total h ≡ (h.top + mhdr_sz, grown total h)
unfolding extend
extend_fits total h w nz room =
    let k = kept h.top 0 (put_word h.top total h.mem) in
    ap (cut_fresh total) (morecore_fits total h w nz room) ∙ ground (arith, k, room, w.3)

extend_full :
    (total : ℕ) (h : AppHeap)
    → IsHeap h
    → total ≢ 0
    → h.limit < h.top + total
    → total < 2 ^ 31
    → extend total h ≡ (0, h)
unfolding extend
extend_full total h w nz full small = ap (cut_fresh total) (morecore_full total h w nz full small)

-- No header is large enough.
abbrev pub AllSmaller : ℕ → (ℕ → ℕ) → List ℕ → Type 0
AllSmaller total mem [] = Unit
AllSmaller total mem (a ∷ bs) = (mem a < total) × AllSmaller total mem bs

first_fit_small :
    (total : ℕ) (mem : ℕ → ℕ) (pp : Option ℕ) (bs : List ℕ)
    → AllSmaller total mem bs
    → first_fit total mem pp bs ≡ none
first_fit_small total mem pp [] s = refl
first_fit_small total mem pp (a ∷ bs) s =
    let rest = first_fit_small total mem (some a) bs s.1 in ground (arith, rest, s.0)

-- On a free list that is a chain of fewer than 2 ^ 32 headers, all smaller than a request of `n` bytes
-- with its header, where `n` is not 0 and `n + 15` is below 2 ^ 31, and in a heap that is set up in the
-- lower half of the memory: where that size fits between the heap's top and its limit, the block is
-- given at the old top, its header is written and the top moves by that size; otherwise `malloc`
-- answers NULL and changes nothing.
pub malloc_fresh :
    (n : ℕ) (h : AppHeap) (bs : List ℕ)
    → n ≢ 0
    → n + 15 < 2 ^ 31
    → IsChain h.mem h.g_free bs
    → length bs < u32
    → AllSmaller (total_of n) h.mem bs
    → IsHeap h
    → malloc n h ≡ (
        if leb (h.top + total_of n) h.limit
        then (h.top + mhdr_sz, grown (total_of n) h)
        else (0, h))
malloc_fresh n h bs nz small c lt s w =
    malloc-first_fit n h bs nz (omega (arith, small)) c lt
    ∙ (ap (granted (total_of n) h) (first_fit_small (total_of n) h.mem none bs s) ∙ either)
  where
    either : extend (total_of n) h ≡ (
        if leb (h.top + total_of n) h.limit
        then (h.top + mhdr_sz, grown (total_of n) h)
        else (0, h))
    either = elim (Bool-cases (leb (h.top + total_of n) h.limit)) [
      | inl e ↦ rw e (extend_fits (total_of n) h w (omega arith) (ground (arith, e)))
      | inr e ↦
          rw e
            (extend_full (total_of n) h w (omega arith) (ground (arith, e)) (omega (arith, small)))
    ]
