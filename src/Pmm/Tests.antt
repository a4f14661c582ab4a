-- ===== src/Pmm/Tests.antt =====
-- Runs of the allocator of kernel/mm/pmm.c, and its theorems at a small allocator.
use eclipse32_gui.Base.{ℕ, ◌+◌, ◌≤◌, ◌<◌, ◌≡◌, refl, ◌⊎◌, false, [], ◌∷◌, arith}
use eclipse32_gui.Pmm.{Pmm, test_bit, init, alloc_page, free_page, alloc_pages}
use eclipse32_gui.Pmm.Inv.{IsValid, Allocated, alloc_page_lem}
use eclipse32_gui.Pmm.Init.{init-IsValid}
use eclipse32_gui.Pmm.Free.{free_page-alloc_page}
use eclipse32_gui.Pmm.Run.{FreeRun, AllocatedRun, alloc_pages_lem}

-- Forty pages from 2 MB on; the first three are used.
abbrev small : Pmm
small = record {
  bitmap = 7 ∷ 0xffff_ff00 ∷ [];
  total_pages = 40;
  free_pages_count = 37;
  base_addr = 0x200000;
}

small-IsValid : IsValid small
unfolding test_bit
small-IsValid = omega arith

init_runs : init (5 ∷ 5 ∷ []) 0x1ff001 163840 ≡ record {
  bitmap = 0 ∷ 0xffff_ff00 ∷ [];
  total_pages = 40;
  free_pages_count = 40;
  base_addr = 0x200000;
}
unfolding init
init_runs = refl

alloc_page_runs : (alloc_page small).1 ≡ 0x203000
unfolding alloc_page
alloc_page_runs = refl

alloc_pages_runs : (alloc_pages small 33).1 ≡ 0x203000
unfolding alloc_pages
alloc_pages_runs = refl

alloc_pages_fails : (alloc_pages small 38).1 ≡ 0
unfolding alloc_pages
alloc_pages_fails = refl

free_page_runs : (free_page small 0x201000).bitmap ≡ 5 ∷ 0xffff_ff00 ∷ []
unfolding free_page
free_page_runs = refl

init-IsValid_example :
    IsValid (init (5 ∷ 5 ∷ []) 0x1ff001 163840)
    × ((init (5 ∷ 5 ∷ []) 0x1ff001 163840).total_pages ≡ 40)
    × ((q : ℕ) → q < 40 → test_bit (init (5 ∷ 5 ∷ []) 0x1ff001 163840).bitmap q ≡ false)
init-IsValid_example =
    init-IsValid (5 ∷ 5 ∷ []) 0x1ff001 163840 (omega arith) (omega arith) (omega arith)
      (omega arith)

alloc_page_example :
    ((page : ℕ) × Allocated small page (alloc_page small))
    ⊎ ((alloc_page small ≡ (small, 0)) × (◌≡◌ {A = ℕ} 37 0))
alloc_page_example = alloc_page_lem small small-IsValid

free_page-alloc_page_example :
    let (s', addr) = alloc_page small in
    ((q : ℕ) → test_bit (free_page s' addr).bitmap q ≡ test_bit (7 ∷ 0xffff_ff00 ∷ []) q)
    × ((free_page s' addr).free_pages_count ≡ 37)
    × IsValid (free_page s' addr)
free_page-alloc_page_example = free_page-alloc_page small small-IsValid (omega arith)

alloc_pages_example :
    ((a : ℕ) × AllocatedRun small 33 a (alloc_pages small 33))
    ⊎ ((alloc_pages small 33 ≡ (small, 0))
        × ((a : ℕ) → a + 33 ≤ 40 → FreeRun (7 ∷ 0xffff_ff00 ∷ []) a 33 → ◌≡◌ {A = ℕ} 33 0))
alloc_pages_example = alloc_pages_lem small 33 small-IsValid
