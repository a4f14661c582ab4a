-- ===== src/Pmm/Free.antt =====
-- `pmm_free_page` of kernel/mm/pmm.c.
use eclipse32_gui.Base.{
  ℕ, ◌+◌, ◌-◌, ◌*◌, ◌/◌, ◌%◌, ◌^◌, ◌≤◌, ◌<◌, ◌≡◌, refl, true, false, ◌||◌, ◌==◌, ltb, arith,
  Bool-cases, inl, inr, ◌⊎◌,
}
use eclipse32_gui.Pmm.{
  Pmm, u32, page_size, set_bit, clear_bit, test_bit, take_page, page_addr, alloc_page, free_page,
}
use eclipse32_gui.Pmm.Bitmap.{test_bit-set_bit, test_bit-clear_bit}
use eclipse32_gui.Pmm.Scan.{alloc_page-cases}
use eclipse32_gui.Pmm.Inv.{
  IsValid, count-take_page, take_page-IsValid, free_page_used, cleared-IsValid, count_free_full,
  count_free-le,
}

free_page-take_page :
    (s : Pmm) (v : IsValid s) (page : ℕ)
    → page < s.total_pages
    → test_bit s.bitmap page ≡ false
    → let freed = free_page (take_page s page) (page_addr s page) in
      ((q : ℕ) → test_bit freed.bitmap q ≡ test_bit s.bitmap q)
      × (freed.free_pages_count ≡ s.free_pages_count)
      × IsValid freed
unfolding take_page
free_page-take_page s v page below free = rw (free_page_used v2 page below used) (
  (λ q. ground (
    arith,
    marked q,
    test_bit-clear_bit (set_bit s.bitmap page) page q (omega (arith, v2.room, below)),
  )),
  omega (
    arith,
    count-take_page v page below free,
    v.counted,
    count_free-le s.bitmap s.total_pages,
    v.fits,
  ),
  cleared-IsValid v2 page below used,
)
  where
    v2 : IsValid (take_page s page)
    v2 = take_page-IsValid v page below free

    marked : (q : ℕ) → test_bit (set_bit s.bitmap page) q ≡ (test_bit s.bitmap q || q == page)
    marked q = test_bit-set_bit s.bitmap page q (omega (arith, v.room, below))

    used : test_bit (set_bit s.bitmap page) page ≡ true
    used = ground (arith, marked page)

-- On a valid allocator with a free page, freeing the address that `pmm_alloc_page` has just returned
-- gives back the free count and the use of every page, and the allocator stays valid.
pub free_page-alloc_page :
    (s : Pmm)
    → IsValid s
    → 0 < s.free_pages_count
    → let (s', addr) = alloc_page s in
      ((q : ℕ) → test_bit (free_page s' addr).bitmap q ≡ test_bit s.bitmap q)
      × ((free_page s' addr).free_pages_count ≡ s.free_pages_count)
      × IsValid (free_page s' addr)
free_page-alloc_page s v c = elim (alloc_page-cases s v.words) [
  | inl (page, t) ↦ rw t.result (free_page-take_page s v page t.below t.free)
  | inr x ↦ absurd (omega (arith, v.counted, count_free_full s.bitmap s.total_pages x.full))
]

-- On a valid allocator, `pmm_free_page` of an address outside the managed range changes nothing.
pub free_page_outside :
    (s : Pmm) (addr : ℕ)
    → IsValid s
    → addr < 2 ^ 32
    → (addr < s.base_addr) ⊎ (s.base_addr + s.total_pages * 4096 ≤ addr)
    → free_page s addr ≡ s
unfolding free_page
free_page_outside s addr v h (inl o) = ground (arith, v.fits)
free_page_outside s addr v h (inr o) = ground (arith, v.fits)

-- The address of a page, from any address in it.
abbrev page_of : Pmm → ℕ → ℕ
page_of s addr = (addr + u32 - s.base_addr) % u32 / page_size

module _ (s : Pmm) (addr : ℕ) where
  -- The page's bit before the call decides.
  freed_used :
      page_of s addr < s.total_pages
      → test_bit s.bitmap (page_of s addr) ≡ true
      → free_page s addr ≡ record s {
        bitmap = clear_bit s.bitmap (page_of s addr);
        free_pages_count = (s.free_pages_count + 1) % u32;
      }
  unfolding free_page
  freed_used b u = ground arith

  freed_free : test_bit s.bitmap (page_of s addr) ≡ false → free_page s addr ≡ s
  unfolding free_page
  freed_free f = ground arith

  freed_beyond : s.total_pages ≤ page_of s addr → free_page s addr ≡ s
  unfolding free_page
  freed_beyond f = ground arith

-- `pmm_free_page` keeps a valid allocator valid, whatever address it is given.
pub free_page-IsValid : (s : Pmm) (addr : ℕ) → IsValid s → IsValid (free_page s addr)
free_page-IsValid s addr v = elim (Bool-cases (ltb (page_of s addr) s.total_pages)) [
  | inr n ↦ rw (freed_beyond s addr (ground arith)) v
  | inl b ↦ elim (Bool-cases (test_bit s.bitmap (page_of s addr))) [
    | inr f ↦ rw (freed_free s addr f) v
    | inl u ↦
        rw (freed_used s addr (ground arith) u)
          (cleared-IsValid v (page_of s addr) (ground arith) u)
  ]
]

-- On a valid allocator a second `pmm_free_page` of the same address changes nothing.
pub free_page_twice :
    (s : Pmm) (addr : ℕ) → IsValid s → free_page (free_page s addr) addr ≡ free_page s addr
free_page_twice s addr v = elim (Bool-cases (ltb (page_of s addr) s.total_pages)) [
  | inr n ↦ rw (freed_beyond s addr (ground arith), freed_beyond s addr (ground arith)) refl
  | inl b ↦ elim (Bool-cases (test_bit s.bitmap (page_of s addr))) [
    | inr f ↦ rw (freed_free s addr f, freed_free s addr f) refl
    | inl u ↦ rw (freed_used s addr (ground arith) u) (freed_free _ addr (gone (ground arith)))
  ]
]
  where
    gone :
        page_of s addr < s.total_pages
        → test_bit (clear_bit s.bitmap (page_of s addr)) (page_of s addr) ≡ false
    gone b = ground (
      arith,
      test_bit-clear_bit s.bitmap (page_of s addr) (page_of s addr) (omega (arith, v.room)),
    )
