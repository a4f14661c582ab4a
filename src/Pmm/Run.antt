-- ===== src/Pmm/Run.antt =====
-- `pmm_alloc_pages` of kernel/mm/pmm.c: the search for a run of free pages.
use eclipse32_gui.Base.{
  ℕ, zero, suc, ◌+◌, ◌-◌, ◌*◌, ◌%◌, ◌≤◌, ◌<◌, ◌≡◌, refl, ◌∙◌, Bool, true, false, ◌&&◌, ◌||◌, List,
  if◌then◌else◌, ◌==◌, ltb, leb, length, arith, Bool-cases, inl, inr, ◌⊎◌, ◌≢◌, ==_iff,
}
use eclipse32_gui.Pmm.{
  Pmm, u32, page_size, set_bit, test_bit, mark_used, take_run, page_addr, run_loop, alloc_pages,
}
use eclipse32_gui.Pmm.Bitmap.{AllWords, test_bit-set_bit, length-set_bit, set_bit-AllWords}
use eclipse32_gui.Pmm.Inv.{count_free, IsValid, count_free_flip, count_free-le}

-- The pages from `a` on, `n` of them, are free.
abbrev pub FreeRun : List ℕ → ℕ → ℕ → Type 0
FreeRun bm a n = (q : ℕ) → a ≤ q → q < a + n → test_bit bm q ≡ false

abbrev pub in_run : ℕ → ℕ → ℕ → Bool
in_run a n q = leb a q && ltb q (a + n)

pub length-mark_used : (bm : List ℕ) (a n : ℕ) → length (mark_used bm a n) ≡ length bm
unfolding mark_used
length-mark_used bm a zero = refl
length-mark_used bm a (suc n) = length-mark_used (set_bit bm a) (a + 1) n ∙ length-set_bit bm a

pub mark_used-AllWords : (bm : List ℕ) (a n : ℕ) → AllWords bm → AllWords (mark_used bm a n)
unfolding mark_used
mark_used-AllWords bm a zero w = w
mark_used-AllWords bm a (suc n) w =
    mark_used-AllWords (set_bit bm a) (a + 1) n (set_bit-AllWords bm a w)

pub test_bit-mark_used :
    (bm : List ℕ) (a n q : ℕ)
    → a + n ≤ 32 * length bm
    → test_bit (mark_used bm a n) q ≡ (test_bit bm q || in_run a n q)
unfolding mark_used
test_bit-mark_used bm a zero q h = ground arith
test_bit-mark_used bm a (suc n) q h = ground (
  arith,
  length-set_bit bm a,
  test_bit-set_bit bm a q,
  test_bit-mark_used (set_bit bm a) (a + 1) n q,
)

count_free-mark_used :
    (bm : List ℕ) (a n total : ℕ)
    → a + n ≤ total
    → total ≤ 32 * length bm
    → FreeRun bm a n
    → count_free bm total ≡ count_free (mark_used bm a n) total + n
unfolding mark_used
count_free-mark_used bm a zero total h k f = omega arith
count_free-mark_used bm a (suc n) total h k f = omega (
  arith,
  count_free_flip bm (set_bit bm a) a total (λ q. test_bit-set_bit bm a q (omega arith))
      (f a (omega arith) (omega arith)) (omega arith),
  count_free-mark_used (set_bit bm a) (a + 1) n total (omega arith)
      (omega (arith, length-set_bit bm a)) (λ q l u. ground (arith, test_bit-set_bit bm a q, f q)),
)

-- What a search that succeeds has found.
pub record Found (s : Pmm) (count a : ℕ) (r : Pmm × ℕ) : Type 0 where
  pub within : a + count ≤ s.total_pages
  pub nonempty : 0 < count
  pub free : FreeRun s.bitmap a count
  pub result : r ≡ (take_run s a count, page_addr s a)

pub record NoRun (s : Pmm) (count : ℕ) (r : Pmm × ℕ) : Type 0 where
  pub none_free : (a : ℕ) → a + count ≤ s.total_pages → FreeRun s.bitmap a count → count ≡ 0
  pub result : r ≡ (s, 0)

-- The loop's invariant at page `i`: the last `consecutive` pages are free, the page before them is
-- not, and no run of `count` free pages has been passed.
record Searching (s : Pmm) (count i consecutive start : ℕ) : Type 0 where
  short : consecutive < count ⊎ (count ≡ 0)
  place : 0 < consecutive → start + consecutive ≡ i
  empty : consecutive ≤ i
  current : (q : ℕ) → i ≤ q + consecutive → q < i → test_bit s.bitmap q ≡ false
  edge : (q : ℕ) → q + consecutive + 1 ≡ i → test_bit s.bitmap q ≡ true
  passed : (a : ℕ) → a + count ≤ i → FreeRun s.bitmap a count → count ≡ 0

module _ (s : Pmm) (count : ℕ) where
  abbrev first : ℕ → ℕ → ℕ → ℕ
  first i consecutive start = if consecutive == 0 then i else start

  first_place : (i c start : ℕ) → Searching s count i c start → first i c start + c ≡ i
  first_place i c start h = ground (arith, h.place)

  -- A used page ends the run.
  broken_Searching :
      (i c start : ℕ)
      → Searching s count i c start
      → test_bit s.bitmap i ≡ true
      → Searching s count (i + 1) 0 start
  broken_Searching i c start h u = record {
    short = ground (arith, h.short);
    place = λ p. absurd (omega arith);
    empty = omega arith;
    current = λ q l k. absurd (omega arith);
    edge = λ q e. let same : q ≡ i = omega arith in rw same u;
    passed = λ a k f. passed a k f;
  }
    where
      passed : (a : ℕ) → a + count ≤ i + 1 → FreeRun s.bitmap a count → count ≡ 0
      passed a k f = elim (Bool-cases (leb (a + count) i)) [
        | inl p ↦ h.passed a (ground arith) f
        | inr p ↦ elim (Bool-cases (count == 0)) [
          | inl z ↦ (==_iff _ _).0 z
          | inr z ↦ absurd (ground (arith, f i))
        ]
      ]

  -- A free page makes it longer.
  longer_Searching :
      (i c start : ℕ)
      → Searching s count i c start
      → test_bit s.bitmap i ≡ false
      → (c + 1 == count) ≡ false
      → Searching s count (i + 1) (c + 1) (first i c start)
  longer_Searching i c start h u e = record {
    short = ground (arith, h.short);
    place = λ p. omega (arith, first_place i c start h);
    empty = omega (arith, h.empty);
    current = λ q l k. current q l k;
    edge = λ q e. h.edge q (omega arith);
    passed = λ a k f. passed a k f;
  }
    where
      current : (q : ℕ) → i + 1 ≤ q + (c + 1) → q < i + 1 → test_bit s.bitmap q ≡ false
      current q l k = elim (Bool-cases (q == i)) [
        | inl z ↦ rw ((==_iff _ _).0 z) u
        | inr z ↦ h.current q (omega arith) (ground arith)
      ]

      passed : (a : ℕ) → a + count ≤ i + 1 → FreeRun s.bitmap a count → count ≡ 0
      passed a k f = elim (Bool-cases (leb (a + count) i)) [
        | inl p ↦ h.passed a (ground arith) f
        | inr p ↦ elim (Bool-cases (count == 0)) [
          | inl z ↦ (==_iff _ _).0 z
          | inr z ↦ absurd (ground (arith, h.short, f (i - c - 1), h.edge (i - c - 1)))
        ]
      ]

  found_FreeRun :
      (i c start : ℕ)
      → Searching s count i c start
      → test_bit s.bitmap i ≡ false
      → c + 1 ≡ count
      → FreeRun s.bitmap (first i c start) count
  found_FreeRun i c start h u e q l k = elim (Bool-cases (q == i)) [
    | inl z ↦ rw ((==_iff _ _).0 z) u
    | inr z ↦
        h.current q (omega (arith, first_place i c start h))
          (ground (arith, first_place i c start h))
  ]

  run_loop-cases :
      (n i c start : ℕ)
      → n + i ≡ s.total_pages
      → Searching s count i c start
      → ((a : ℕ) × Found s count a (run_loop s count n i c start))
        ⊎ NoRun s count (run_loop s count n i c start)
  unfolding run_loop
  run_loop-cases zero i c start e h =
      inr (record { none_free = λ a k f. h.passed a (omega arith) f; result = refl })
  run_loop-cases (suc n) i c start e h = elim (Bool-cases (test_bit s.bitmap i)) [
    | inl u ↦ rw u (run_loop-cases n (i + 1) 0 start (omega arith) (broken_Searching i c start h u))
    | inr u ↦ elim (Bool-cases (c + 1 == count)) [
      | inl d ↦ inl (
        first i c start,
        record {
          within = omega (arith, first_place i c start h, (==_iff _ _).0 d);
          nonempty = omega (arith, (==_iff _ _).0 d);
          free = found_FreeRun i c start h u ((==_iff _ _).0 d);
          result = rw (u, d) refl;
        },
      )
      | inr d ↦
          rw (u, d)
            (run_loop-cases n (i + 1) (c + 1) (first i c start) (omega arith)
              (longer_Searching i c start h u d))
    ]
  ]

  start_Searching : Searching s count 0 0 0
  start_Searching = record {
    short = ground arith;
    place = λ p. absurd (omega arith);
    empty = omega arith;
    current = λ q l k. absurd (omega arith);
    edge = λ q e. absurd (omega arith);
    passed = λ a k f. omega arith;
  }

  alloc_pages-cases :
      ((a : ℕ) × Found s count a (alloc_pages s count)) ⊎ NoRun s count (alloc_pages s count)
  unfolding alloc_pages
  alloc_pages-cases = run_loop-cases s.total_pages 0 0 0 (omega arith) start_Searching

-- What `pmm_alloc_pages` has done when it returns the address of a run of pages.
pub record AllocatedRun (s : Pmm) (count a : ℕ) (r : Pmm × ℕ) : Type 0 where
  pub within : a + count ≤ s.total_pages
  pub were_free : FreeRun s.bitmap a count
  pub address : r.1 ≡ s.base_addr + a * page_size
  pub not_null : r.1 ≢ 0
  pub marked : (q : ℕ) → test_bit r.0.bitmap q ≡ (test_bit s.bitmap q || in_run a count q)
  pub count_left : r.0.free_pages_count + count ≡ s.free_pages_count
  pub valid : IsValid r.0

Found-AllocatedRun :
    {s : Pmm} (v : IsValid s) (count a : ℕ) {r : Pmm × ℕ}
    → Found s count a r
    → AllocatedRun s count a r
unfolding take_run
Found-AllocatedRun {s} v count a f = rw f.result (record {
  within = f.within;
  were_free = f.free;
  address = address;
  not_null = omega (arith, address, v.above);
  marked = λ q. test_bit-mark_used s.bitmap a count q (omega (arith, f.within, v.room));
  count_left = left;
  valid = record {
    room = omega (arith, length-mark_used s.bitmap a count, v.room);
    words = mark_used-AllWords s.bitmap a count v.words;
    counted = omega (arith, v.counted, left, flipped);
    aligned = v.aligned;
    above = v.above;
    fits = v.fits;
  };
})
  where
    address : page_addr s a ≡ s.base_addr + a * page_size
    address = omega (arith, v.fits, f.within, f.nonempty)

    flipped :
        count_free s.bitmap s.total_pages
        ≡ count_free (mark_used s.bitmap a count) s.total_pages + count
    flipped = count_free-mark_used s.bitmap a count s.total_pages f.within v.room f.free

    left : (s.free_pages_count + u32 - count) % u32 + count ≡ s.free_pages_count
    left = omega (arith, flipped, v.counted, count_free-le s.bitmap s.total_pages, v.fits)

-- On a valid allocator `pmm_alloc_pages` either returns the address, never 0, of `count` adjacent
-- free pages, marks exactly these as used and takes `count` off the free count, leaving the
-- allocator valid; or it returns 0, changes nothing, and there is no run of `count` adjacent free
-- pages, unless `count` is 0.
pub alloc_pages_lem :
    (s : Pmm) (count : ℕ)
    → IsValid s
    → ((a : ℕ) × AllocatedRun s count a (alloc_pages s count))
      ⊎ ((alloc_pages s count ≡ (s, 0))
          × ((a : ℕ) → a + count ≤ s.total_pages → FreeRun s.bitmap a count → count ≡ 0))
alloc_pages_lem s count v = elim (alloc_pages-cases s count) [
  | inl (a, f) ↦ inl (a, Found-AllocatedRun v count a f)
  | inr n ↦ inr (n.result, n.none_free)
]
