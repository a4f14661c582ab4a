-- ===== src/Libc/FreeList.antt =====
-- The free list of apps/sdk/libc/stdlib.c as a list of headers: the search is a first fit, and a
-- freed block is found first.
use eclipse32_gui.Base.{
  ℕ, zero, suc, ◌+◌, ◌-◌, ◌*◌, ◌/◌, ◌%◌, ◌<◌, ◌≤◌, List, [], ◌∷◌, length, Option, none, some, ◌≡◌,
  ◌≢◌, refl, ap, ◌∙◌, if◌then◌else◌, leb, arith,
}
use eclipse32_gui.Libc.Numbers.{u32}
use eclipse32_gui.Libc.Malloc.{
  AppHeap, mhdr_sz, min_split, put_word, deref, assign, take_block, search_list, find_free,
  found_or_fresh, extend, malloc, free,
}

-- The headers of a list that starts at `p`.
abbrev pub IsChain : (ℕ → ℕ) → ℕ → List ℕ → Type 0
IsChain mem p [] = p ≡ 0
IsChain mem p (a ∷ bs) = (p ≡ a) × (a ≢ 0) × IsChain mem (mem (a + 4)) bs

-- The first header of at least `total` bytes, after the pointer that leads to it.
abbrev pub first_fit : ℕ → (ℕ → ℕ) → Option ℕ → List ℕ → Option (Option ℕ × ℕ)
first_fit total mem pp [] = none
first_fit total mem pp (a ∷ bs) =
    if leb total (mem a) then some (pp, a) else first_fit total mem (some a) bs

abbrev pub taken : ℕ → AppHeap → Option (Option ℕ × ℕ) → Option (ℕ × AppHeap)
taken total h none = none
taken total h (some w) = some (w.1, take_block total w.0 w.1 h)

search_list_lem :
    (bs : List ℕ) (n total : ℕ) (pp : Option ℕ) (h : AppHeap)
    → IsChain h.mem (deref pp h) bs
    → length bs < n
    → search_list n total pp h ≡ taken total h (first_fit total h.mem pp bs)
unfolding search_list
search_list_lem [] (suc n) total pp h c lt = ground (arith, c)
search_list_lem (a ∷ bs) (suc n) total pp h c lt =
    let rest = search_list_lem bs n total (some a) h c.2 (omega (arith, lt)) in
    rw c.0 (ground (arith, rest, c.1))
search_list_lem bs zero total pp h c lt = ground (arith, lt)

-- The size of the header of a request, with no wrap-around.
abbrev pub total_of : ℕ → ℕ
total_of n = mhdr_sz + (n + 7) / 8 * 8

abbrev pub granted : ℕ → AppHeap → Option (Option ℕ × ℕ) → ℕ × AppHeap
granted total h none = extend total h
granted total h (some w) = (w.1 + mhdr_sz, take_block total w.0 w.1 h)

find_free_lem :
    (bs : List ℕ) (total : ℕ) (h : AppHeap)
    → IsChain h.mem h.g_free bs
    → length bs < u32
    → find_free total h ≡ taken total h (first_fit total h.mem none bs)
unfolding find_free
find_free_lem bs total h c lt = search_list_lem bs u32 total none h c lt

round_up : (n : ℕ) → n + 15 < u32 → (mhdr_sz + (n + 7) % u32 / 8 * 8) % u32 ≡ total_of n
round_up n small = omega (arith, small)

malloc_fits :
    (n : ℕ) (h : AppHeap)
    → n ≢ 0
    → n + 15 < u32
    → malloc n h ≡ found_or_fresh (total_of n) h (find_free (total_of n) h)
unfolding malloc
malloc_fits n h nz small =
    let e = round_up n small in
    let q : (n + 7) % u32 / 8 * 8 < total_of n = omega (arith, small) in
    rw e (ground (arith, q, nz))

found_or_fresh-taken :
    (total : ℕ) (h : AppHeap) (w : Option (Option ℕ × ℕ))
    → found_or_fresh total h (taken total h w) ≡ granted total h w
found_or_fresh-taken total h none = refl
found_or_fresh-taken total h (some w) = refl

pub malloc-first_fit :
    (n : ℕ) (h : AppHeap) (bs : List ℕ)
    → n ≢ 0
    → n + 15 < u32
    → IsChain h.mem h.g_free bs
    → length bs < u32
    → malloc n h ≡ granted (total_of n) h (first_fit (total_of n) h.mem none bs)
malloc-first_fit n h bs nz small c lt =
    malloc_fits n h nz small
    ∙ (ap (found_or_fresh (total_of n) h) (find_free_lem bs (total_of n) h c lt)
        ∙ found_or_fresh-taken (total_of n) h (first_fit (total_of n) h.mem none bs))

search_first :
    (n total : ℕ) (pp : Option ℕ) (h : AppHeap)
    → deref pp h ≢ 0
    → total ≤ h.mem (deref pp h)
    → search_list (suc n) total pp h ≡ some (deref pp h, take_block total pp (deref pp h) h)
unfolding search_list
search_first n total pp h nz fits = ground (arith, nz, fits)

find_first :
    (total : ℕ) (h : AppHeap)
    → h.g_free ≢ 0
    → total ≤ h.mem h.g_free
    → find_free total h ≡ some (h.g_free, take_block total none h.g_free h)
unfolding find_free
find_first total h nz fits = search_first (u32 - 1) total none h nz fits

take_whole :
    (total : ℕ) (pp : Option ℕ) (a : ℕ) (h : AppHeap)
    → h.mem a < total + min_split
    → total + min_split < u32
    → take_block total pp a h ≡ assign pp (h.mem (a + 4)) h
unfolding take_block
take_whole total pp a h tight small = ground (arith, tight, small)

free_lem :
    (p : ℕ) (h : AppHeap)
    → p ≢ 0
    → free p h ≡ record h { mem = put_word (p - mhdr_sz + 4) h.g_free h.mem; g_free = p - mhdr_sz }
unfolding free
free_lem p h nz = ground (arith, nz)

pub kept : (a v : ℕ) (mem : ℕ → ℕ) → put_word (a + 4) v mem a ≡ mem a
kept a v mem = ground arith

linked : (a v : ℕ) (mem : ℕ → ℕ) → put_word (a + 4) v mem (a + 4) ≡ v
linked a v mem = ground arith

-- The heap with a header put first on the list.
abbrev freed : ℕ → AppHeap → AppHeap
freed a h = record h { mem = put_word (a + 4) h.g_free h.mem; g_free = a }

take_freed :
    (total a : ℕ) (h : AppHeap)
    → h.mem a < total + min_split
    → total + min_split < u32
    → take_block total none a (freed a h) ≡ record h { mem = put_word (a + 4) h.g_free h.mem }
take_freed total a h tight small =
    let k = kept a h.g_free h.mem in
    take_whole total none a (freed a h) (omega (arith, k, tight)) small
    ∙ ap (λ g. record (freed a h) { g_free = g }) (linked a h.g_free h.mem)

-- A block of `p`, given back and then asked for with a request of `n` bytes that its header is large
-- enough for, but not so large that it is cut, is given again, and the free list starts where it did.
-- The memory has changed in the block's next pointer only. `n` is not 0, and `n + 39` fits in a word.
pub malloc-free :
    (n p : ℕ) (h : AppHeap)
    → n ≢ 0
    → n + 39 < u32
    → mhdr_sz < p
    → total_of n ≤ h.mem (p - mhdr_sz)
    → h.mem (p - mhdr_sz) < total_of n + min_split
    → malloc n (free p h) ≡ (p, record h { mem = put_word (p - mhdr_sz + 4) h.g_free h.mem })
malloc-free n p h nz small far fits tight =
    let a = p - mhdr_sz in
    let k = kept a h.g_free h.mem in
    let back : a + mhdr_sz ≡ p = omega (arith, far) in
    rw (free_lem p h (omega (arith, far))) (
      malloc_fits n (freed a h) nz (omega (arith, small))
      ∙ (ap (found_or_fresh (total_of n) (freed a h))
            (find_first (total_of n) (freed a h) (omega (arith, far)) (omega (arith, k, fits)))
          ∙ (ap (λ q. (q, take_block (total_of n) none a (freed a h))) back
              ∙ ap (λ t. (p, t)) (take_freed (total_of n) a h tight (omega (arith, small))))))
