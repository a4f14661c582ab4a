-- ===== src/Vmm.antt =====
-- kernel/mm/vmm.c: the page directory and the page tables, over the page frame allocator.
--
-- The memory is a function from an address to the 32-bit word there. The flushes of the translation
-- cache have no counterpart.
pub mod Laws
pub mod Link
pub mod Map
mod Tests
use Prim.Native.Nat.{bit_or}
use eclipse32_gui.Base.{ℕ, zero, suc, ◌+◌, ◌*◌, ◌/◌, ◌%◌, ◌^◌, Bool, if◌then◌else◌, ◌==◌}
use eclipse32_gui.Pmm.{Pmm, alloc_page}

abbrev pub page_dir : ℕ
page_dir = 0x70000

pub record Vmm : Type 0 where
  pub mem : ℕ → ℕ
  pub pmm : Pmm

-- `page & PAGE_MASK`
abbrev pub page_mask : ℕ → ℕ
page_mask a = a / 4096 * 4096

abbrev pub is_present : ℕ → Bool
is_present e = e % 2 == 1

-- The addresses of the two entries.
abbrev pub pde : ℕ → ℕ
pde virt = page_dir + 4 * (virt / 2 ^ 22)

abbrev pub pte : ℕ → ℕ → ℕ
pte table virt = table + 4 * (virt / 4096 % 1024)

abbrev pub poke : (ℕ → ℕ) → ℕ → ℕ → ℕ → ℕ
poke mem a v x = if x == a then v else mem x

-- The first `n` words from `p` on are set to 0.
unfoldable pub zero_table : ℕ → ℕ → (ℕ → ℕ) → ℕ → ℕ
zero_table zero p mem = mem
zero_table (suc n) p mem = poke (zero_table n p mem) (p + 4 * n) 0

abbrev pub new_pde : ℕ → ℕ
new_pde table = bit_or (bit_or table 1) 2

abbrev pub new_pte : ℕ → ℕ → ℕ
new_pte phys flags = bit_or (bit_or (page_mask phys) (flags % 4096)) 1

unfoldable pub vmm_map : ℕ → ℕ → ℕ → Vmm → Vmm
vmm_map virt phys flags s =
    let e = s.mem (pde virt) in
    if is_present e
    then record s { mem = poke s.mem (pte (page_mask e) virt) (new_pte phys flags) }
    else let (pmm', new) = alloc_page s.pmm in
      let fresh = poke (zero_table 1024 new s.mem) (pde virt) (new_pde new) in
      if new == 0
      then record s { pmm = pmm' }
      else record s { pmm = pmm'; mem = poke fresh (pte new virt) (new_pte phys flags) }

unfoldable pub vmm_unmap : ℕ → Vmm → Vmm
vmm_unmap virt s =
    let e = s.mem (pde virt) in
    if is_present e then record s { mem = poke s.mem (pte (page_mask e) virt) 0 } else s

unfoldable pub vmm_get_phys : ℕ → Vmm → ℕ
vmm_get_phys virt s =
    let e = s.mem (pde virt) in
    let f = s.mem (pte (page_mask e) virt) in
    if is_present e then (if is_present f then bit_or (page_mask f) (virt % 4096) else 0) else 0

-- Each page of the framebuffer at `fb` is mapped to itself: `n` pages from the offset `off` on.
unfoldable pub map_pages : ℕ → ℕ → ℕ → Vmm → Vmm
map_pages zero fb off s = s
map_pages (suc n) fb off s =
    let a = (fb + off) % 2 ^ 32 in map_pages n fb (off + 4096) (vmm_map a a 3 s)

-- `vmm_init` with the boot information's framebuffer address, pitch and height.
unfoldable pub vmm_init : ℕ → ℕ → ℕ → Vmm → Vmm
vmm_init fb pitch height s =
    let size = page_mask ((pitch * height % 2 ^ 32 + 4095) % 2 ^ 32) in
    if fb == 0 then s else map_pages (size / 4096) fb 0 s
