-- ===== src/Vmm/Link.antt =====
-- The new page table of `vmm_map` in kernel/mm/vmm.c, which changes no lookup.
use Prim.Native.Nat.{bit_or}
use eclipse32_gui.Base.{
  ℕ, zero, suc, ◌+◌, ◌*◌, ◌/◌, ◌%◌, ◌^◌, ◌≤◌, ◌<◌, ◌≡◌, refl, sym, ap, ◌∙◌, ◌≢◌, ◌⊎◌, inl, inr,
  true, false, arith, Bool-cases, eq-cases,
}
use eclipse32_gui.Base.Bits.{bit_or_halve}
use eclipse32_gui.Pmm.{Pmm}
use eclipse32_gui.Vmm.{
  Vmm, page_dir, page_mask, is_present, pde, pte, poke, zero_table, new_pde, vmm_get_phys,
}
use eclipse32_gui.Vmm.Laws.{
  IsValid, dir, answer, absent, vmm_get_phys-answer, poke_same, poke_ne, bit_or_one,
}

zero_table_inside : (n p : ℕ) (mem : ℕ → ℕ) (k : ℕ) → k < n → zero_table n p mem (p + 4 * k) ≡ 0
unfolding zero_table
zero_table_inside zero p mem k h = absurd (omega arith)
zero_table_inside (suc n) p mem k h = elim (eq-cases k n) [
  | inl e ↦ poke_same (zero_table n p mem) (p + 4 * n) 0 (p + 4 * k) (omega arith)
  | inr ne ↦
      poke_ne (zero_table n p mem) (p + 4 * n) 0 (p + 4 * k) (λ e. ne (omega arith))
      ∙ zero_table_inside n p mem k (ground arith)
]

zero_table_outside :
    (n p : ℕ) (mem : ℕ → ℕ) (x : ℕ) → (x < p) ⊎ (p + 4 * n ≤ x) → zero_table n p mem x ≡ mem x
unfolding zero_table
zero_table_outside zero p mem x h = refl
zero_table_outside (suc n) p mem x h =
    poke_ne (zero_table n p mem) (p + 4 * n) 0 x (λ e. absurd (omega arith))
    ∙ zero_table_outside n p mem x (omega arith)

bit_or_two : (y : ℕ) → bit_or y 2 ≡ y / 4 * 4 + 2 + y % 2
bit_or_two y = omega (arith, bit_or_halve y 2, bit_or_one (y / 2))

page_of_new_pde : (t : ℕ) → t % 4096 ≡ 0 → page_mask (new_pde t) ≡ t
page_of_new_pde t h = omega (arith, bit_or_one t, bit_or_two (bit_or t 1))

pub new_pde_present : (t : ℕ) → is_present (new_pde t) ≡ true
new_pde_present t = ground (arith, bit_or_one t, bit_or_two (bit_or t 1))

-- A page that is neither the directory nor a table in use.
abbrev pub IsFresh : Vmm → ℕ → Type 0
IsFresh s t =
    (t ≢ 0)
    × (t % 4096 ≡ 0)
    × (t ≢ page_dir)
    × ((i : ℕ) → i < 1024 → is_present (dir s i) ≡ true → page_mask (dir s i) ≢ t)

answer_unmapped : (e x : ℕ) → answer e 0 x ≡ 0
answer_unmapped e x = ground arith

pub answer_absent : (e f x : ℕ) → is_present e ≡ false → answer e f x ≡ 0
answer_absent e f x h = rw h refl

apart_from_page : (t x : ℕ) → t % 4096 ≡ 0 → page_mask x ≢ t → (x < t) ⊎ (t + 4 * 1024 ≤ x)
apart_from_page t x a ne = ground arith

-- The state once a new table stands in the directory.
module _ (s : Vmm) (v : IsValid s) (virt : ℕ) (room : virt < 2 ^ 32)
    (gone : is_present (s.mem (pde virt)) ≡ false) (pmm' : Pmm) (t : ℕ) (f : IsFresh s t) where
  abbrev pub linked : Vmm
  linked = record s { pmm = pmm'; mem = poke (zero_table 1024 t s.mem) (pde virt) (new_pde t) }

  pub dir-linked_same : (i : ℕ) → i ≡ virt / 2 ^ 22 → dir linked i ≡ new_pde t
  dir-linked_same i e =
      poke_same (zero_table 1024 t s.mem) (pde virt) (new_pde t) (page_dir + 4 * i) (omega arith)

  dir-linked_other : (i : ℕ) → i < 1024 → i ≢ virt / 2 ^ 22 → dir linked i ≡ dir s i
  dir-linked_other i h ne =
      let (nonzero, aligned, not_dir, unused) = f in
      poke_ne (zero_table 1024 t s.mem) (pde virt) (new_pde t) (page_dir + 4 * i)
        (λ e. ne (omega arith))
      ∙ zero_table_outside 1024 t s.mem (page_dir + 4 * i)
          (apart_from_page t (page_dir + 4 * i) aligned (λ e. not_dir (omega arith)))

  pub page_of_linked : (i : ℕ) → i ≡ virt / 2 ^ 22 → page_mask (dir linked i) ≡ t
  page_of_linked i e =
      let (nonzero, aligned, not_dir, unused) = f in
      ap page_mask (dir-linked_same i e) ∙ page_of_new_pde t aligned

  -- A table in use before is still in use, and is not the new one.
  was_used :
      (i : ℕ)
      → i < 1024
      → i ≢ virt / 2 ^ 22
      → is_present (dir linked i) ≡ true
      → is_present (dir s i) ≡ true
  was_used i h ne q = sym (ap is_present (dir-linked_other i h ne)) ∙ q

  old_page : (i : ℕ) → i < 1024 → i ≢ virt / 2 ^ 22 → page_mask (dir linked i) ≡ page_mask (dir s i)
  old_page i h ne = ap page_mask (dir-linked_other i h ne)

  pub linked-IsValid : IsValid linked
  unfolding IsValid
  linked-IsValid i h q =
      let (nonzero, aligned, not_dir, unused) = f in
      elim (eq-cases i (virt / 2 ^ 22)) [
        | inl e ↦ (
          (λ c. not_dir (sym (page_of_linked i e) ∙ c)),
          (λ j hj qj ne c. elim (eq-cases j (virt / 2 ^ 22)) [
            | inl e' ↦ ne (e ∙ sym e')
            | inr n' ↦
                unused j hj (was_used j hj n' qj)
                  (sym (old_page j hj n') ∙ sym c ∙ page_of_linked i e)
          ]),
        )
        | inr n ↦
            let u = v i h (was_used i h n q) in
            (
              (λ c. u.0 (sym (old_page i h n) ∙ c)),
              (λ j hj qj ne c. elim (eq-cases j (virt / 2 ^ 22)) [
                | inl e' ↦
                    unused i h (was_used i h n q) (sym (old_page i h n) ∙ c ∙ page_of_linked j e')
                | inr n' ↦
                    u.1 j hj (was_used j hj n' qj) ne (sym (old_page i h n) ∙ c ∙ old_page j hj n')
              ]),
            )
      ]

  get_linked_new : (x : ℕ) → x / 2 ^ 22 ≡ virt / 2 ^ 22 → vmm_get_phys x linked ≡ vmm_get_phys x s
  get_linked_new x e =
      let (nonzero, aligned, not_dir, unused) = f in
      vmm_get_phys-answer linked x (new_pde t) 0 (dir-linked_same (x / 2 ^ 22) e) (
        ap (λ p. linked.mem (pte p x)) (page_of_new_pde t aligned)
        ∙ poke_ne (zero_table 1024 t s.mem) (pde virt) (new_pde t) (pte t x)
            (λ c. not_dir (omega arith))
        ∙ zero_table_inside 1024 t s.mem (x / 4096 % 1024) (omega arith))
      ∙ answer_unmapped (new_pde t) x
      ∙ sym (
          vmm_get_phys-answer s x (s.mem (pde virt)) _ (ap (dir s) e) refl
          ∙ answer_absent (s.mem (pde virt)) _ x gone)

  get_linked_old :
      (x : ℕ) → x < 2 ^ 32 → x / 2 ^ 22 ≢ virt / 2 ^ 22 → vmm_get_phys x linked ≡ vmm_get_phys x s
  unfolding IsValid
  get_linked_old x h ne =
      let (nonzero, aligned, not_dir, unused) = f in
      elim (Bool-cases (is_present (s.mem (pde x)))) [
        | inl q ↦
            vmm_get_phys-answer linked x (s.mem (pde x)) _
              (dir-linked_other (x / 2 ^ 22) (omega arith) ne)
              (poke_ne (zero_table 1024 t s.mem) (pde virt) (new_pde t)
                  (pte (page_mask (s.mem (pde x))) x)
                  (λ c. (v (x / 2 ^ 22) (omega arith) q).0 (omega arith))
                ∙ zero_table_outside 1024 t s.mem (pte (page_mask (s.mem (pde x))) x) (
                    apart_from_page t (pte (page_mask (s.mem (pde x))) x) aligned
                      (λ c. unused (x / 2 ^ 22) (omega arith) q (omega arith))))
            ∙ sym (vmm_get_phys-answer s x (s.mem (pde x)) _ refl refl)
        | inr q ↦
            vmm_get_phys-answer linked x (s.mem (pde x)) _
              (dir-linked_other (x / 2 ^ 22) (omega arith) ne) refl
            ∙ absent (s.mem (pde x)) _ _ x q
            ∙ sym (vmm_get_phys-answer s x (s.mem (pde x)) _ refl refl)
      ]

  pub get_linked : (x : ℕ) → x < 2 ^ 32 → vmm_get_phys x linked ≡ vmm_get_phys x s
  get_linked x h = elim (eq-cases (x / 2 ^ 22) (virt / 2 ^ 22)) [
    | inl e ↦ get_linked_new x e
    | inr ne ↦ get_linked_old x h ne
  ]
