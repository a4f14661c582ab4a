-- ===== src/Vmm/Map.antt =====
-- `vmm_map` and `vmm_unmap` of kernel/mm/vmm.c as changes of the mapping that `vmm_get_phys` reads.
use mathlib.Core.Bool.{true≢false}
use eclipse32_gui.Base.{
  ℕ, ◌+◌, ◌/◌, ◌%◌, ◌^◌, ◌<◌, ◌≡◌, refl, sym, ap, ◌∙◌, ◌⊎◌, inl, inr, true, false, if◌then◌else◌,
  ◌==◌, arith, Bool-cases, eq-cases, subst,
}
use eclipse32_gui.Pmm.{alloc_page}
use eclipse32_gui.Vmm.{
  Vmm, page_mask, is_present, pde, pte, poke, new_pte, vmm_map, vmm_unmap, vmm_get_phys,
}
use eclipse32_gui.Vmm.Laws.{
  IsValid, dir, vmm_get_phys-answer, bit_or-page_mask, page_of_new_pte, new_pte_present, written,
  written-IsValid, get_written_same, get_written_other,
}
use eclipse32_gui.Vmm.Link.{
  IsFresh, linked, linked-IsValid, dir-linked_same, page_of_linked, get_linked, new_pde_present,
  answer_absent,
}

-- What a mapping of the page of `virt` to the page of `phys` does to every lookup.
abbrev pub Mapped : Vmm → ℕ → ℕ → Vmm → Type 0
Mapped s virt phys t =
    IsValid t
    × ((x : ℕ)
        → x < 2 ^ 32
        → vmm_get_phys x t
          ≡ (if x / 4096 == virt / 4096 then page_mask phys + x % 4096 else vmm_get_phys x s))

written-Mapped :
    (s : Vmm) (v : IsValid s) (virt phys flags : ℕ) (room : virt < 2 ^ 32)
    (p : is_present (s.mem (pde virt)) ≡ true)
    → Mapped s virt phys (written s v virt room p (new_pte phys flags))
written-Mapped s v virt phys flags room p = (
  written-IsValid s v virt room p (new_pte phys flags),
  (λ x h. elim (eq-cases (x / 4096) (virt / 4096)) [
    | inl e ↦
        get_written_same s v virt room p (new_pte phys flags) x e
        ∙ rw (new_pte_present phys flags) (
            rw (page_of_new_pte phys flags)
              (bit_or-page_mask phys (x % 4096) (omega arith) ∙ ground arith))
    | inr ne ↦ get_written_other s v virt room p (new_pte phys flags) x h ne ∙ ground arith
  ]),
)

-- A mapping needs the table of its page, or a page for a new one.
abbrev pub Backed : Vmm → ℕ → Type 0
Backed s virt = (is_present (s.mem (pde virt)) ≡ true) ⊎ IsFresh s (alloc_page s.pmm).1

module _ (s : Vmm) (v : IsValid s) (virt phys flags : ℕ) (room : virt < 2 ^ 32)
    (gone : is_present (s.mem (pde virt)) ≡ false) (f : IsFresh s (alloc_page s.pmm).1) where
  abbrev with_table : Vmm
  with_table = linked s v virt room gone (alloc_page s.pmm).0 (alloc_page s.pmm).1 f

  with_table-IsValid : IsValid with_table
  with_table-IsValid = linked-IsValid s v virt room gone (alloc_page s.pmm).0 (alloc_page s.pmm).1 f

  table_present : is_present (with_table.mem (pde virt)) ≡ true
  table_present =
      ap is_present (
        dir-linked_same s v virt room gone (alloc_page s.pmm).0 (alloc_page s.pmm).1 f
          (virt / 2 ^ 22) refl)
      ∙ new_pde_present (alloc_page s.pmm).1

  vmm_map_new :
      vmm_map virt phys flags s
      ≡ written with_table with_table-IsValid virt room table_present (new_pte phys flags)
  unfolding vmm_map
  vmm_map_new =
      let (nonzero, aligned, not_dir, unused) = f in
      let some_page : ((alloc_page s.pmm).1 == 0) ≡ false = ground (arith, nonzero) in
      rw gone (
        rw some_page (
          ap
            (λ a. record with_table { mem = poke with_table.mem (pte a virt) (new_pte phys flags) })
            (sym (
              page_of_linked s v virt room gone (alloc_page s.pmm).0 (alloc_page s.pmm).1 f
                (virt / 2 ^ 22) refl))))

  new-Mapped : Mapped s virt phys (vmm_map virt phys flags s)
  new-Mapped =
      let (valid, lookup) =
        written-Mapped with_table with_table-IsValid virt phys flags room table_present in
      subst (Mapped s virt phys) (sym vmm_map_new) (
        valid,
        (λ x h.
            lookup x h
            ∙ ap (λ y. if x / 4096 == virt / 4096 then page_mask phys + x % 4096 else y)
                (get_linked s v virt room gone (alloc_page s.pmm).0 (alloc_page s.pmm).1 f x h)),
      )

-- On tables that are pages of their own, `vmm_map` keeps them so and makes the lookup of every
-- address of the page of `virt` answer the address at the same place of the page of `phys`, and that
-- of every other address what it answered before; the table of the page is there, or the allocator's
-- next page is neither the directory nor a table in use.
pub vmm_map_lem :
    (s : Vmm) (virt phys flags : ℕ)
    → IsValid s
    → virt < 2 ^ 32
    → Backed s virt
    → Mapped s virt phys (vmm_map virt phys flags s)
unfolding vmm_map
vmm_map_lem s virt phys flags v room b = elim (Bool-cases (is_present (s.mem (pde virt)))) [
  | inl p ↦ rw p (written-Mapped s v virt phys flags room p)
  | inr gone ↦ elim b [
    | inl p ↦ absurd (true≢false (sym p ∙ gone))
    | inr f ↦ new-Mapped s v virt phys flags room gone f
  ]
]

-- Without a table for its page and a free page for one, `vmm_map` maps nothing.
pub vmm_map_full :
    (s : Vmm) (virt phys flags : ℕ)
    → is_present (s.mem (pde virt)) ≡ false
    → alloc_page s.pmm ≡ (s.pmm, 0)
    → vmm_map virt phys flags s ≡ s
unfolding vmm_map
vmm_map_full s virt phys flags gone none_left = rw gone (rw none_left refl)

-- On tables that are pages of their own, `vmm_unmap` keeps them so and makes the lookup of every
-- address of the page of `virt` answer 0 and that of every other address what it answered before.
pub vmm_unmap_lem :
    (s : Vmm) (virt : ℕ)
    → IsValid s
    → virt < 2 ^ 32
    → IsValid (vmm_unmap virt s)
      × ((x : ℕ)
          → x < 2 ^ 32
          → vmm_get_phys x (vmm_unmap virt s)
            ≡ (if x / 4096 == virt / 4096 then 0 else vmm_get_phys x s))
unfolding vmm_unmap
vmm_unmap_lem s virt v room = elim (Bool-cases (is_present (s.mem (pde virt)))) [
  | inl p ↦ rw p (
    written-IsValid s v virt room p 0,
    (λ x h. elim (eq-cases (x / 4096) (virt / 4096)) [
      | inl e ↦ get_written_same s v virt room p 0 x e ∙ ground arith
      | inr ne ↦ get_written_other s v virt room p 0 x h ne ∙ ground arith
    ]),
  )
  | inr gone ↦ rw gone (
    v,
    (λ x h. elim (eq-cases (x / 4096) (virt / 4096)) [
      | inl e ↦
          vmm_get_phys-answer s x (s.mem (pde virt)) _ (ap (dir s) (omega arith)) refl
          ∙ answer_absent (s.mem (pde virt)) _ x gone
          ∙ ground arith
      | inr ne ↦ ground arith
    ]),
  )
]
