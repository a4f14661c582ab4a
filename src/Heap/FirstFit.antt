-- ===== src/Heap/FirstFit.antt =====
-- The search of the kernel heap of kernel/mm/heap.c, and what kmalloc answers.
use eclipse32_gui.Base.{
  ℕ, zero, suc, ◌+◌, ◌*◌, ◌/◌, ◌%◌, ◌<◌, ◌&&◌, List, [], ◌∷◌, length, Option, none, some, ◌≡◌, ◌≢◌,
  ap, ◌∙◌, if◌then◌else◌, leb, arith,
}
use eclipse32_gui.Pmm.{u32}
use eclipse32_gui.Heap.{
  Heap, data_size, is_free, next_of, find_from, find_free, take_found, kmalloc,
}

-- The headers of the list from `p` on.
abbrev pub IsList : Heap → ℕ → List ℕ → Type 0
IsList h p [] = p ≡ 0
IsList h p (b ∷ bs) = (p ≡ b) × (b ≢ 0) × IsList h (next_of b h) bs

-- The first block of the list that is marked as free and large enough.
abbrev pub first_fit : ℕ → Heap → List ℕ → Option ℕ
first_fit size h [] = none
first_fit size h (b ∷ bs) =
    if is_free b h && leb size (data_size b h) then some b else first_fit size h bs

find_from_lem :
    (bs : List ℕ) (n size p : ℕ) (h : Heap)
    → IsList h p bs
    → length bs < n
    → find_from n size p h ≡ first_fit size h bs
unfolding find_from
find_from_lem bs zero size p h c lt = ground (arith, lt)
find_from_lem [] (suc n) size p h c lt = ground (arith, c)
find_from_lem (b ∷ bs) (suc n) size p h c lt =
    let rest = find_from_lem bs n size (next_of b h) h c.2 (omega (arith, lt)) in
    rw c.0 (ground (arith, rest, c.1))

find_free_lem :
    (bs : List ℕ) (size : ℕ) (h : Heap)
    → IsList h h.free_list bs
    → length bs < u32
    → find_free size h ≡ first_fit size h bs
unfolding find_free
find_free_lem bs size h c lt = find_from_lem bs u32 size h.free_list h c lt

-- The size of the block of a request.
abbrev pub size_for : ℕ → ℕ
size_for n = (n + 7) % u32 / 8 * 8

kmalloc_found :
    (n : ℕ) (h : Heap) → n ≢ 0 → kmalloc n h ≡ take_found (size_for n) h (find_free (size_for n) h)
unfolding kmalloc
kmalloc_found n h nz = ground (arith, nz)

pub kmalloc-first_fit :
    (n : ℕ) (h : Heap) (bs : List ℕ)
    → n ≢ 0
    → IsList h h.free_list bs
    → length bs < u32
    → kmalloc n h ≡ take_found (size_for n) h (first_fit (size_for n) h bs)
kmalloc-first_fit n h bs nz c lt =
    kmalloc_found n h nz ∙ ap (take_found (size_for n) h) (find_free_lem bs (size_for n) h c lt)
