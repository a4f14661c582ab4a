-- ===== src/Libc/Taken.antt =====
-- What `malloc` of apps/sdk/libc/stdlib.c leaves of a block of the free list that it gives.
use eclipse32_gui.Base.{
  ℕ, ◌+◌, ◌-◌, ◌%◌, ◌<◌, ◌≤◌, ◌⊎◌, inl, inr, true, false, List, length, Option, none, some, ◌≡◌,
  ◌≢◌, refl, ap, ◌∙◌, leb, arith, Bool-cases,
}
use eclipse32_gui.Libc.Numbers.{u32}
use eclipse32_gui.Libc.Malloc.{AppHeap, mhdr_sz, min_split, put_word, assign, take_block, malloc}
use eclipse32_gui.Libc.FreeList.{IsChain, first_fit, granted, total_of, malloc-first_fit}

-- The header whose pointer leads to a block, if any, lies outside the block.
abbrev pub IsOff : Option ℕ → ℕ → ℕ → Type 0
IsOff none a size = Unit
IsOff (some b) a size = (b + mhdr_sz ≤ a) ⊎ (a + size ≤ b)

-- The pointer that led to the block leads to `p`.
abbrev pub LeadsTo : Option ℕ → ℕ → AppHeap → AppHeap → Type 0
LeadsTo none p h t = t.g_free ≡ p
LeadsTo (some b) p h t = (t.mem (b + 4) ≡ p) × (t.g_free ≡ h.g_free)

-- The word `x` is not the one of that pointer.
abbrev pub IsNoLink : Option ℕ → ℕ → Type 0
IsNoLink none x = Unit
IsNoLink (some b) x = x ≢ b + 4

-- The block `a` of the heap `h` is cut in two, its rest on the list in its place.
abbrev pub IsCut : ℕ → Option ℕ → ℕ → AppHeap → AppHeap → Type 0
IsCut total pp a h t =
    LeadsTo pp (a + total) h t
    × (t.mem a ≡ total)
    × (t.mem (a + total) ≡ h.mem a - total)
    × (t.mem (a + total + 4) ≡ h.mem (a + 4))
    × ((x : ℕ) → IsNoLink pp x → x ≢ a → x ≢ a + total → x ≢ a + total + 4 → t.mem x ≡ h.mem x)

-- The block is taken off the list whole.
abbrev pub IsOut : Option ℕ → ℕ → AppHeap → AppHeap → Type 0
IsOut pp a h t = LeadsTo pp (h.mem (a + 4)) h t × ((x : ℕ) → IsNoLink pp x → t.mem x ≡ h.mem x)

take_block-IsCut :
    (total a : ℕ) (pp : Option ℕ) (h : AppHeap)
    → mhdr_sz ≤ total
    → total + min_split < u32
    → total + min_split ≤ h.mem a
    → IsOff pp a (h.mem a)
    → IsCut total pp a h (take_block total pp a h)
unfolding take_block
take_block-IsCut total a pp h low small large off =
    let test : leb ((total + min_split) % u32) (h.mem a) ≡ true = ground (arith, small, large) in
    rw test (by_link pp off)
  where
    by_link :
        (pp : Option ℕ)
        → IsOff pp a (h.mem a)
        → IsCut total pp a h (
            assign pp (a + total) (record h {
              mem = put_word a total (
                  put_word
                    (a + total + 4)
                    (h.mem (a + 4))
                    (put_word (a + total) (h.mem a - total) h.mem));
            }))
    by_link none off = (
      refl,
      ground (arith, low),
      ground (arith, low),
      ground (arith, low),
      λ x n x1 x2 x3. ground (arith, x1, x2, x3),
    )
    by_link (some b) off = (
      (ground arith, refl),
      ground (arith, low, off, large),
      ground (arith, low, off, large),
      ground (arith, low, off, large),
      λ x n x1 x2 x3. ground (arith, n, x1, x2, x3),
    )

take_block-IsOut :
    (total a : ℕ) (pp : Option ℕ) (h : AppHeap)
    → total + min_split < u32
    → h.mem a < total + min_split
    → IsOut pp a h (take_block total pp a h)
unfolding take_block
take_block-IsOut total a pp h small short =
    let test : leb ((total + min_split) % u32) (h.mem a) ≡ false = ground (arith, small, short) in
    rw test (by_link pp)
  where
    by_link : (pp : Option ℕ) → IsOut pp a h (assign pp (h.mem (a + 4)) h)
    by_link none = (refl, λ x n. refl)
    by_link (some b) = ((ground arith, refl), λ x n. ground (arith, n))

-- The free list is a chain of fewer than 2 ^ 32 headers, and `a` is the first of its blocks of at least
-- 8 bytes more than `n`, which is not 0, rounded up to a multiple of 8, a size that with 24 fits in a
-- word; the header that leads to `a`, if one does, lies outside its block. Then `malloc` gives the address behind the
-- header of `a`. A block with 24 bytes or more to spare is cut: its header gets the size asked for,
-- behind it stands a header of the rest with the next pointer of `a`, which takes the block's place on
-- the list. Another is taken off the list whole. No other word changes.
pub malloc_lem :
    (n a : ℕ) (pp : Option ℕ) (h : AppHeap) (bs : List ℕ)
    → n ≢ 0
    → n + 39 < u32
    → IsChain h.mem h.g_free bs
    → length bs < u32
    → first_fit (total_of n) h.mem none bs ≡ some (pp, a)
    → IsOff pp a (h.mem a)
    → ((malloc n h).0 ≡ a + mhdr_sz)
      × (((total_of n + min_split ≤ h.mem a) × IsCut (total_of n) pp a h (malloc n h).1)
          ⊎ ((h.mem a < total_of n + min_split) × IsOut pp a h (malloc n h).1))
malloc_lem n a pp h bs nz small c lt e off =
    let total = total_of n in
    let given : malloc n h ≡ (a + mhdr_sz, take_block total pp a h) =
      malloc-first_fit n h bs nz (omega (arith, small)) c lt ∙ ap (granted total h) e in
    let fits : total + min_split < u32 = omega (arith, small) in
    rw given (elim (Bool-cases (leb (total + min_split) (h.mem a))) [
      | inl y ↦
          let large : total + min_split ≤ h.mem a = ground (arith, y) in
          (refl, inl (large, take_block-IsCut total a pp h (omega arith) fits large off))
      | inr y ↦
          let short : h.mem a < total + min_split = ground (arith, y) in
          (refl, inr (short, take_block-IsOut total a pp h fits short))
    ])
