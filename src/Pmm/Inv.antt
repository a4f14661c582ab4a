-- ===== src/Pmm/Inv.antt =====
-- The invariant of the allocator of kernel/mm/pmm.c, and single pages.
use eclipse32_gui.Base.{
  ℕ, zero, suc, ◌+◌, ◌-◌, ◌*◌, ◌/◌, ◌%◌, ◌^◌, ◌≤◌, ◌<◌, ◌≡◌, refl, ◌∙◌, true, false, ◌||◌, List,
  if◌then◌else◌, ◌==◌, length, arith, Bool-cases, inl, inr, ◌⊎◌, ◌≢◌,
}
use eclipse32_gui.Pmm.{
  Pmm, u32, page_size, set_bit, clear_bit, test_bit, take_page, page_addr, alloc_page, free_page,
}
use eclipse32_gui.Pmm.Bitmap.{
  AllWords, test_bit-set_bit, test_bit-clear_bit, length-set_bit, length-clear_bit,
  set_bit-AllWords, clear_bit-AllWords,
}
use eclipse32_gui.Pmm.Scan.{Taken, alloc_page-cases}

-- How many of the first `n` pages are free.
abbrev pub count_free : List ℕ → ℕ → ℕ
count_free bm zero = 0
count_free bm (suc n) = (if test_bit bm n then 0 else 1) + count_free bm n

pub record IsValid (s : Pmm) : Type 0 where
  pub room : s.total_pages ≤ 32 * length s.bitmap
  pub words : AllWords s.bitmap
  pub counted : s.free_pages_count ≡ count_free s.bitmap s.total_pages
  pub aligned : s.base_addr % 4096 ≡ 0
  pub above : 0 < s.base_addr
  pub fits : s.base_addr + s.total_pages * 4096 ≤ 2 ^ 32

pub count_free-le : (bm : List ℕ) (n : ℕ) → count_free bm n ≤ n
count_free-le bm zero = omega arith
count_free-le bm (suc n) = ground (arith, count_free-le bm n)

count_free_congr :
    (bm bm' : List ℕ) (n : ℕ)
    → ((q : ℕ) → q < n → test_bit bm q ≡ test_bit bm' q)
    → count_free bm n ≡ count_free bm' n
count_free_congr bm bm' zero h = refl
count_free_congr bm bm' (suc n) h =
    ground (arith, h n, count_free_congr bm bm' n (λ q k. h q (omega arith)))

-- Two bitmaps that differ at one page, used in the second.
pub count_free_flip :
    (bm bm' : List ℕ) (p n : ℕ)
    → ((q : ℕ) → test_bit bm' q ≡ (test_bit bm q || q == p))
    → test_bit bm p ≡ false
    → p < n
    → count_free bm n ≡ count_free bm' n + 1
count_free_flip bm bm' p zero h f k = absurd (omega arith)
count_free_flip bm bm' p (suc n) h f k = elim (Bool-cases (n == p)) [
  | inl e ↦ ground (arith, h n, below)
  | inr e ↦ ground (arith, h n, count_free_flip bm bm' p n h f)
]
  where
    below : n ≡ p → count_free bm n ≡ count_free bm' n
    below e = count_free_congr bm bm' n (λ q l. ground (arith, h q))

pub count_free_pos : (bm : List ℕ) (p n : ℕ) → test_bit bm p ≡ false → p < n → 0 < count_free bm n
count_free_pos bm p zero f k = absurd (omega arith)
count_free_pos bm p (suc n) f k = elim (Bool-cases (n == p)) [
  | inl e ↦ ground arith
  | inr e ↦ ground (arith, count_free_pos bm p n f)
]

pub count_free_full :
    (bm : List ℕ) (n : ℕ) → ((q : ℕ) → q < n → test_bit bm q ≡ true) → count_free bm n ≡ 0
count_free_full bm zero h = refl
count_free_full bm (suc n) h = ground (arith, h n, count_free_full bm n (λ q k. h q (omega arith)))

module _ {s : Pmm} (v : IsValid s) (page : ℕ) (below : page < s.total_pages) where
  pub page_addr-eq : page_addr s page ≡ s.base_addr + page * page_size
  page_addr-eq = omega (arith, v.fits)

  -- The page that `pmm_free_page` computes from an address is the one that the address was made of.
  pub page_of_addr : (page_addr s page + u32 - s.base_addr) % u32 / page_size ≡ page
  page_of_addr = omega (arith, v.fits)

  module _ (free : test_bit s.bitmap page ≡ false) where
    pub count-take_page : (take_page s page).free_pages_count + 1 ≡ s.free_pages_count
    unfolding take_page
    count-take_page = omega (
      arith,
      v.counted,
      v.fits,
      v.room,
      count_free_pos s.bitmap page s.total_pages free below,
      count_free-le s.bitmap s.total_pages,
    )

    pub take_page-IsValid : IsValid (take_page s page)
    unfolding take_page
    take_page-IsValid = record {
      room = omega (arith, length-set_bit s.bitmap page, v.room);
      words = set_bit-AllWords s.bitmap page v.words;
      counted = omega (
        arith,
        v.counted,
        count-take_page,
        count_free_flip s.bitmap (set_bit s.bitmap page) page s.total_pages
            (λ q. test_bit-set_bit s.bitmap page q (omega (arith, v.room))) free below,
      );
      aligned = v.aligned;
      above = v.above;
      fits = v.fits;
    }

  module _ (used : test_bit s.bitmap page ≡ true) where
    pub free_page_used : free_page s (page_addr s page) ≡ record s {
      bitmap = clear_bit s.bitmap page;
      free_pages_count = (s.free_pages_count + 1) % u32;
    }
    unfolding free_page
    free_page_used = rw page_of_addr (ground arith)

    cleared : (q : ℕ) → test_bit s.bitmap q ≡ (test_bit (clear_bit s.bitmap page) q || q == page)
    cleared q = ground (arith, test_bit-clear_bit s.bitmap page q (omega (arith, v.room)))

    cleared_page : test_bit (clear_bit s.bitmap page) page ≡ false
    cleared_page = ground (arith, test_bit-clear_bit s.bitmap page page (omega (arith, v.room)))

    count_cleared :
        count_free (clear_bit s.bitmap page) s.total_pages ≡ count_free s.bitmap s.total_pages + 1
    count_cleared =
        count_free_flip (clear_bit s.bitmap page) s.bitmap page s.total_pages cleared cleared_page
          below

    pub cleared-IsValid : IsValid (record s {
      bitmap = clear_bit s.bitmap page;
      free_pages_count = (s.free_pages_count + 1) % u32;
    })
    cleared-IsValid = record {
      room = omega (arith, length-clear_bit s.bitmap page, v.room);
      words = clear_bit-AllWords s.bitmap page v.words;
      counted =
          omega (arith, v.counted, count_cleared, v.fits, count_free-le s.bitmap s.total_pages);
      aligned = v.aligned;
      above = v.above;
      fits = v.fits;
    }

-- What `pmm_alloc_page` has done when it returns the address of a page.
pub record Allocated (s : Pmm) (page : ℕ) (r : Pmm × ℕ) : Type 0 where
  pub below : page < s.total_pages
  pub was_free : test_bit s.bitmap page ≡ false
  pub first : (q : ℕ) → q < page → test_bit s.bitmap q ≡ true
  pub address : r.1 ≡ s.base_addr + page * page_size
  pub not_null : r.1 ≢ 0
  pub marked : (q : ℕ) → test_bit r.0.bitmap q ≡ (test_bit s.bitmap q || q == page)
  pub count : r.0.free_pages_count + 1 ≡ s.free_pages_count
  pub valid : IsValid r.0

Taken-Allocated :
    {s : Pmm} (v : IsValid s) (page : ℕ) {r : Pmm × ℕ} → Taken s page r → Allocated s page r
unfolding take_page
Taken-Allocated {s} v page {r} t = rw t.result (record {
  below = t.below;
  was_free = t.free;
  first = t.first;
  address = page_addr-eq v page t.below;
  not_null = omega (arith, page_addr-eq v page t.below, v.above);
  marked = λ q. test_bit-set_bit s.bitmap page q (omega (arith, v.room, t.below));
  count = count-take_page v page t.below t.free;
  valid = take_page-IsValid v page t.below t.free;
})

-- On a valid allocator `pmm_alloc_page` either returns the address, never 0, of the first free
-- page, marks that page alone as used, and takes one off the free count, leaving the allocator
-- valid; or every page is used, the free count is 0, and it returns 0 and changes nothing.
pub alloc_page_lem :
    (s : Pmm)
    → IsValid s
    → ((page : ℕ) × Allocated s page (alloc_page s))
      ⊎ ((alloc_page s ≡ (s, 0)) × (s.free_pages_count ≡ 0))
alloc_page_lem s v = elim (alloc_page-cases s v.words) [
  | inl (page, t) ↦ inl (page, Taken-Allocated v page t)
  | inr x ↦ inr (x.result, v.counted ∙ count_free_full s.bitmap s.total_pages x.full)
]
