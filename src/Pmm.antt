-- ===== src/Pmm.antt =====
-- kernel/mm/pmm.c: the bitmap page frame allocator. A set bit is a used page.
pub mod Bitmap
pub mod Scan
pub mod Inv
pub mod Init
pub mod Free
pub mod Run
mod Tests
use Prim.Native.Nat.{bit_and, bit_or}
use eclipse32_gui.Base.{
  ℕ, zero, suc, ◌+◌, ◌-◌, ◌*◌, ◌/◌, ◌%◌, ◌^◌, Bool, true, false, not, ◌&&◌, List, if◌then◌else◌,
  ◌==◌, ltb, leb, get_or, set,
}

abbrev pub page_size : ℕ
page_size = 4096

abbrev pub u32 : ℕ
u32 = 2 ^ 32

-- The file's static variables.
pub record Pmm : Type 0 where
  pub bitmap : List ℕ
  pub total_pages : ℕ
  pub free_pages_count : ℕ
  pub base_addr : ℕ

-- A read past the end of the array is no theorem's case: it gives a word of ones.
abbrev pub word : List ℕ → ℕ → ℕ
word bm i = get_or bm i (u32 - 1)

unfoldable pub set_bit : List ℕ → ℕ → List ℕ
set_bit bm page = set bm (page / 32) (bit_or (word bm (page / 32)) (2 ^ (page % 32)))

unfoldable pub clear_bit : List ℕ → ℕ → List ℕ
clear_bit bm page = set bm (page / 32) (bit_and (word bm (page / 32)) (u32 - 1 - 2 ^ (page % 32)))

unfoldable pub test_bit : List ℕ → ℕ → Bool
test_bit bm page = (word bm (page / 32) / 2 ^ (page % 32)) % 2 == 1

-- The loop that zeroes the first `n` words.
unfoldable pub clear_words : ℕ → List ℕ → List ℕ
clear_words zero bm = bm
clear_words (suc n) bm = set (clear_words n bm) n 0

-- Without its report through `vga_printf`.
unfoldable pub init : List ℕ → ℕ → ℕ → Pmm
unfolding clear_words
init bm base size =
    let total = size / page_size in
    let cleared = clear_words ((total + 31) / 32) bm in
    let rem = total % 32 in
    record {
      bitmap = if rem == 0 then cleared else set cleared (total / 32) (u32 - 1 - (2 ^ rem - 1));
      total_pages = total;
      free_pages_count = total;
      base_addr = (base + page_size - 1) % u32 / page_size * page_size;
    }

-- `__builtin_ctz` on a word of at most `n` digits, one of them set.
unfoldable pub ctz : ℕ → ℕ → ℕ
ctz zero w = 0
ctz (suc n) w = if w % 2 == 1 then 0 else suc (ctz n (w / 2))

abbrev pub page_addr : Pmm → ℕ → ℕ
page_addr s page = (s.base_addr + page * page_size) % u32

unfoldable pub take_page : Pmm → ℕ → Pmm
unfolding set_bit
take_page s page = record s {
  bitmap = set_bit s.bitmap page;
  free_pages_count = (s.free_pages_count + u32 - 1) % u32;
}

-- The loop of `pmm_alloc_page` with `n` words left from word `i` on.
unfoldable pub alloc_loop : Pmm → ℕ → ℕ → Pmm × ℕ
unfolding take_page ctz
alloc_loop s zero i = (s, 0)
alloc_loop s (suc n) i =
    let w = word s.bitmap i in
    let page = i * 32 + ctz 32 (u32 - 1 - w) in
    let rest = alloc_loop s n (i + 1) in
    if not (w == u32 - 1) && ltb page s.total_pages
    then (take_page s page, page_addr s page)
    else rest

unfoldable pub alloc_page : Pmm → Pmm × ℕ
unfolding alloc_loop
alloc_page s = alloc_loop s ((s.total_pages + 31) / 32) 0

unfoldable pub free_page : Pmm → ℕ → Pmm
unfolding test_bit clear_bit
free_page s addr =
    let page = (addr + u32 - s.base_addr) % u32 / page_size in
    if leb s.total_pages page then s else if not (test_bit s.bitmap page) then s else record s {
      bitmap = clear_bit s.bitmap page;
      free_pages_count = (s.free_pages_count + 1) % u32;
    }

-- `for (j = start; j < start + n; j++) pmm_set_bit(j)`
unfoldable pub mark_used : List ℕ → ℕ → ℕ → List ℕ
unfolding set_bit
mark_used bm start zero = bm
mark_used bm start (suc n) = mark_used (set_bit bm start) (start + 1) n

unfoldable pub take_run : Pmm → ℕ → ℕ → Pmm
unfolding mark_used
take_run s start count = record s {
  bitmap = mark_used s.bitmap start count;
  free_pages_count = (s.free_pages_count + u32 - count) % u32;
}

-- The loop of `pmm_alloc_pages` with `n` pages left from page `i` on.
unfoldable pub run_loop : Pmm → ℕ → ℕ → ℕ → ℕ → ℕ → Pmm × ℕ
unfolding take_run test_bit
run_loop s count zero i consecutive start = (s, 0)
run_loop s count (suc n) i consecutive start =
    let first = if consecutive == 0 then i else start in
    let longer = run_loop s count n (i + 1) (consecutive + 1) first in
    let broken = run_loop s count n (i + 1) 0 start in
    if test_bit s.bitmap i
    then broken
    else if consecutive + 1 == count
    then (take_run s first count, page_addr s first)
    else longer

unfoldable pub alloc_pages : Pmm → ℕ → Pmm × ℕ
unfolding run_loop
alloc_pages s count = run_loop s count s.total_pages 0 0 0

-- `n` rounds of the loop of `pmm_free_pages` from index `i` on.
unfoldable pub free_pages : Pmm → ℕ → ℕ → ℕ → Pmm
unfolding free_page
free_pages s addr i zero = s
free_pages s addr i (suc n) = free_pages (free_page s ((addr + i * page_size) % u32)) addr (i + 1) n
