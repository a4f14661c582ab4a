-- ===== src/Vmm/Tests.antt =====
-- Runs of kernel/mm/vmm.c on a memory with one page table.
use mathlib.Core.Bool.{true≢false}
use eclipse32_gui.Base.{
  subst, ℕ, ◌/◌, ◌^◌, ◌<◌, ◌≡◌, refl, sym, ◌∙◌, ◌≢◌, inl, inr, false, [], if◌then◌else◌, ◌==◌,
  arith, eq-cases,
}
use eclipse32_gui.Pmm.{Pmm, alloc_page, alloc_loop}
use eclipse32_gui.Vmm.{Vmm, page_dir, page_mask, is_present, vmm_map, vmm_unmap, vmm_get_phys}
use eclipse32_gui.Vmm.Laws.{IsValid, dir}
use eclipse32_gui.Vmm.Map.{Mapped, vmm_map_lem, vmm_unmap_lem}

abbrev no_pages : Pmm
no_pages = record { bitmap = []; total_pages = 0; free_pages_count = 0; base_addr = 0 }

abbrev one_table : Vmm
one_table = record { mem = λ x. if x == page_dir then 0x71003 else 0; pmm = no_pages }

dir_zero : (i : ℕ) → i ≢ 0 → is_present (dir one_table i) ≡ false
dir_zero i h = ground arith

one_table-IsValid : IsValid one_table
unfolding IsValid
one_table-IsValid i h q = elim (eq-cases i 0) [
  | inl e ↦ (
    subst (λ k. page_mask (dir one_table k) ≢ page_dir) (sym e) (λ c. absurd (omega (arith, c))),
    (λ j hj qj ne. absurd (true≢false (sym qj ∙ dir_zero j (λ z. ne (e ∙ sym z))))),
  )
  | inr n ↦ absurd (true≢false (sym q ∙ dir_zero i n))
]

vmm_map_lem_example : Mapped one_table 0x1234 0x5678 (vmm_map 0x1234 0x5678 3 one_table)
vmm_map_lem_example =
    vmm_map_lem one_table 0x1234 0x5678 3 one_table-IsValid (omega arith) (inl refl)

map_test : vmm_get_phys 0x1999 (vmm_map 0x1234 0x5678 3 one_table) ≡ 0x5999
unfolding vmm_get_phys vmm_map
map_test = refl

none_left : alloc_page no_pages ≡ (no_pages, 0)
unfolding alloc_page alloc_loop
none_left = refl

vmm_unmap_lem_example :
    IsValid (vmm_unmap 0x1234 one_table)
    × ((x : ℕ)
        → x < 2 ^ 32
        → vmm_get_phys x (vmm_unmap 0x1234 one_table)
          ≡ (if x / 4096 == 0x1234 / 4096 then 0 else vmm_get_phys x one_table))
vmm_unmap_lem_example = vmm_unmap_lem one_table 0x1234 one_table-IsValid (omega arith)
