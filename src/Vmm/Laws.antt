-- ===== src/Vmm/Laws.antt =====
-- Mapping, unmapping and looking up of kernel/mm/vmm.c.
use Prim.Native.Nat.{bit_or}
use eclipse32_gui.Base.{
  ℕ, ◌+◌, ◌*◌, ◌/◌, ◌%◌, ◌^◌, ◌<◌, ◌≡◌, refl, sym, ap, ◌∙◌, ◌≢◌, inl, inr, true, false,
  if◌then◌else◌, arith, Bool-cases, eq-cases,
}
use eclipse32_gui.Base.Bits.{bit_or-shift_up, bit_or_halve, shift_up}
use eclipse32_gui.Vmm.{Vmm, page_dir, page_mask, is_present, pde, pte, poke, new_pte, vmm_get_phys}

pub poke_same : (mem : ℕ → ℕ) (a v x : ℕ) → x ≡ a → poke mem a v x ≡ v
poke_same mem a v x h = ground arith

pub poke_ne : (mem : ℕ → ℕ) (a v x : ℕ) → x ≢ a → poke mem a v x ≡ mem x
poke_ne mem a v x h = ground arith

-- A page's address with a number below the page size.
pub bit_or-page_mask : (p b : ℕ) → b < 4096 → bit_or (page_mask p) b ≡ page_mask p + b
bit_or-page_mask p b h =
    let e : page_mask p ≡ shift_up 12 (p / 4096) = omega arith in
    rw e (bit_or-shift_up 12 (p / 4096) b h)

pub bit_or_one : (x : ℕ) → bit_or x 1 ≡ x / 2 * 2 + 1
bit_or_one x = omega (arith, bit_or_halve x 1, bit_or-shift_up 0 (x / 2) 0 (omega arith))

pub page_of_new_pte : (phys flags : ℕ) → page_mask (new_pte phys flags) ≡ page_mask phys
page_of_new_pte phys flags = omega (
  arith,
  bit_or-page_mask phys (flags % 4096) (omega arith),
  bit_or_one (bit_or (page_mask phys) (flags % 4096)),
)

pub new_pte_present : (phys flags : ℕ) → is_present (new_pte phys flags) ≡ true
new_pte_present phys flags = ground (arith, bit_or_one (bit_or (page_mask phys) (flags % 4096)))

-- The entry of the directory for the numbers from 0 to 1023, and what it says.
abbrev pub dir : Vmm → ℕ → ℕ
dir s i = s.mem (page_dir + 4 * i)

-- The tables in use are pages of their own: none is the directory and no two are the same.
unfoldable pub IsValid : Vmm → Type 0
IsValid s =
    (i : ℕ)
    → i < 1024
    → is_present (dir s i) ≡ true
    → (page_mask (dir s i) ≢ page_dir)
      × ((j : ℕ)
          → j < 1024
          → is_present (dir s j) ≡ true
          → i ≢ j
          → page_mask (dir s i) ≢ page_mask (dir s j))

pub IsValid-of_dir : (s t : Vmm) → ((i : ℕ) → i < 1024 → dir t i ≡ dir s i) → IsValid s → IsValid t
unfolding IsValid
IsValid-of_dir s t d v i h q =
    let u = v i h (sym (ap is_present (d i h)) ∙ q) in
    (
      (λ e. u.0 (sym (ap page_mask (d i h)) ∙ e)),
      (λ j hj qj ne e.
          u.1 j hj (sym (ap is_present (d j hj)) ∙ qj) ne
            (sym (ap page_mask (d i h)) ∙ e ∙ ap page_mask (d j hj))),
    )

-- What a lookup answers for the two entries that it meets.
abbrev pub answer : ℕ → ℕ → ℕ → ℕ
answer e f x =
    if is_present e then (if is_present f then bit_or (page_mask f) (x % 4096) else 0) else 0

pub vmm_get_phys-answer :
    (t : Vmm) (x e f : ℕ)
    → dir t (x / 2 ^ 22) ≡ e
    → t.mem (pte (page_mask e) x) ≡ f
    → vmm_get_phys x t ≡ answer e f x
unfolding vmm_get_phys
vmm_get_phys-answer t x e f d g =
    ap (λ y. answer y (t.mem (pte (page_mask y) x)) x) d ∙ ap (λ y. answer e y x) g

pub absent : (e f g x : ℕ) → is_present e ≡ false → answer e f x ≡ answer e g x
absent e f g x h = rw h refl

-- The state after a word of the table of `virt` has been written.
module _ (s : Vmm) (v : IsValid s) (virt : ℕ) (room : virt < 2 ^ 32)
    (p : is_present (s.mem (pde virt)) ≡ true) where
  abbrev pub written : ℕ → Vmm
  written w = record s { mem = poke s.mem (pte (page_mask (s.mem (pde virt))) virt) w }

  table_apart : page_mask (s.mem (pde virt)) ≢ page_dir
  unfolding IsValid
  table_apart = (v (virt / 2 ^ 22) (omega arith) p).0

  dir-written : (w i : ℕ) → i < 1024 → dir (written w) i ≡ dir s i
  dir-written w i h = poke_ne s.mem _ w _ (λ e. table_apart (omega arith))

  pub written-IsValid : (w : ℕ) → IsValid (written w)
  written-IsValid w = IsValid-of_dir s (written w) (dir-written w) v

  pub get_written_same :
      (w x : ℕ)
      → x / 4096 ≡ virt / 4096
      → vmm_get_phys x (written w) ≡ (if is_present w then bit_or (page_mask w) (x % 4096) else 0)
  get_written_same w x e =
      vmm_get_phys-answer (written w) x (s.mem (pde virt)) w
        (dir-written w (x / 2 ^ 22) (omega arith) ∙ ap s.mem (omega arith))
        (poke_same s.mem _ w _ (omega arith))
      ∙ rw p refl

  entry_apart :
      (x : ℕ)
      → x < 2 ^ 32
      → x / 4096 ≢ virt / 4096
      → is_present (s.mem (pde x)) ≡ true
      → pte (page_mask (s.mem (pde x))) x ≢ pte (page_mask (s.mem (pde virt))) virt
  unfolding IsValid
  entry_apart x h ne q e = elim (eq-cases (x / 2 ^ 22) (virt / 2 ^ 22)) [
    | inl same ↦ ne (omega (arith, ap (dir s) same))
    | inr other ↦
        (v (x / 2 ^ 22) (omega arith) q).1 (virt / 2 ^ 22) (omega arith) p other (omega arith)
  ]

  pub get_written_other :
      (w x : ℕ)
      → x < 2 ^ 32
      → x / 4096 ≢ virt / 4096
      → vmm_get_phys x (written w) ≡ vmm_get_phys x s
  get_written_other w x h ne = elim (Bool-cases (is_present (s.mem (pde x)))) [
    | inl q ↦
        vmm_get_phys-answer (written w) x (s.mem (pde x)) _
          (dir-written w (x / 2 ^ 22) (omega arith)) (poke_ne s.mem _ w _ (entry_apart x h ne q))
        ∙ sym (vmm_get_phys-answer s x (s.mem (pde x)) _ refl refl)
    | inr q ↦
        vmm_get_phys-answer (written w) x (s.mem (pde x)) _
          (dir-written w (x / 2 ^ 22) (omega arith)) refl
        ∙ absent (s.mem (pde x)) _ _ x q
        ∙ sym (vmm_get_phys-answer s x (s.mem (pde x)) _ refl refl)
  ]
