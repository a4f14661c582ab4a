-- ===== src/Heap.antt =====
-- kernel/mm/heap.c, the kernel heap: blocks with a header and a footer, and a doubly linked list of the
-- free ones. The memory is the word at each address; a `bool` is the word 0 or 1. A header has its
-- size, and 4, 8, 12 and 16 bytes on its free flag, next and previous pointer and magic number; a
-- footer has its size, and 4 bytes on its free flag. A sum of a pointer and a size is not wrapped
-- around.
pub mod FirstFit
pub mod Links
pub mod Split
pub mod Given
mod Tests
use eclipse32_gui.Base.{
  ℕ, zero, suc, ◌+◌, ◌-◌, ◌*◌, ◌/◌, ◌%◌, ◌^◌, Bool, true, false, not, ◌&&◌, ◌||◌, Option, none,
  some, if◌then◌else◌, ◌==◌, ltb, leb,
}
use eclipse32_gui.Pmm.{Pmm, page_size, u32, alloc_pages}

pub record Heap : Type 0 where
  pub mem : ℕ → ℕ
  pub heap_start : ℕ
  pub heap_end : ℕ
  pub heap_max : ℕ
  pub free_list : ℕ

abbrev pub heap_magic : ℕ
heap_magic = 0xec32_beef

abbrev pub hdr_size : ℕ
hdr_size = 20

abbrev pub ftr_size : ℕ
ftr_size = 8

abbrev pub min_block : ℕ
min_block = hdr_size + 16 + ftr_size

abbrev pub data_size : ℕ → Heap → ℕ
data_size b h = h.mem b

abbrev pub is_free : ℕ → Heap → Bool
is_free b h = not (h.mem (b + 4) == 0)

abbrev pub next_of : ℕ → Heap → ℕ
next_of b h = h.mem (b + 8)

abbrev pub prev_of : ℕ → Heap → ℕ
prev_of b h = h.mem (b + 12)

abbrev pub has_magic : ℕ → Heap → Bool
has_magic b h = h.mem (b + 16) == heap_magic

unfoldable pub put : ℕ → ℕ → Heap → Heap
put a v h = record h { mem = λ x. if x == a then v else h.mem x }

abbrev pub get_footer : ℕ → Heap → ℕ
get_footer b h = b + hdr_size + data_size b h

abbrev pub next_block : ℕ → Heap → ℕ
next_block b h = b + hdr_size + data_size b h + ftr_size

-- `none` is NULL.
unfoldable pub prev_block : ℕ → Heap → Option ℕ
prev_block b h =
    let ftr = (b + u32 - ftr_size) % u32 in
    let prv = (ftr + 2 * u32 - hdr_size - h.mem ftr) % u32 in
    if ltb ftr h.heap_start || prv == 0 then none else some prv

-- A size is written in a header and in the footer that it leads to, which is marked.
unfoldable pub put_size : ℕ → ℕ → ℕ → Heap → Heap
unfolding put
put_size b size flag h =
    let ftr = b + hdr_size + size in put (ftr + 4) flag (put ftr size (put b size h))

-- A header and a footer are marked.
unfoldable pub mark : ℕ → ℕ → Heap → Heap
unfolding put
mark b flag h = let t = put (b + 4) flag h in put (get_footer b t + 4) flag t

-- The header and the footer of a free block, its links aside.
unfoldable pub put_free : ℕ → ℕ → Heap → Heap
unfolding put_size put
put_free b size h = put_size b size 1 (put (b + 16) heap_magic (put (b + 4) 1 h))

unfoldable pub heap_init : ℕ → ℕ → Pmm → Heap → Pmm × Heap
unfolding put_free put
heap_init virt_start initial_size p h =
    let pages = (initial_size + page_size - 1) % u32 / page_size in
    let (q, phys) = alloc_pages p pages in
    let start = if phys == 0 then 0x40_0000 else virt_start in
    let size = (initial_size + u32 - (hdr_size + ftr_size)) % u32 in
    let t = put (start + 12) 0 (put (start + 8) 0 (put_free start size h)) in
    (
      q,
      record t {
        heap_start = start;
        heap_end = start + initial_size;
        heap_max = start + initial_size;
        free_list = start;
      },
    )

-- `n` rounds of the search from `cur` on; `none` is NULL.
unfoldable pub find_from : ℕ → ℕ → ℕ → Heap → Option ℕ
find_from zero size cur h = none
find_from (suc n) size cur h =
    let rest = find_from n size (next_of cur h) h in
    if cur == 0
    then none
    else if is_free cur h && leb size (data_size cur h)
    then some cur
    else rest

-- A list in memory of 4 GiB has fewer than 2 ^ 32 headers.
unfoldable pub find_free : ℕ → Heap → Option ℕ
find_free size h = find_from u32 size h.free_list h

unfoldable pub fl_remove : ℕ → Heap → Heap
unfolding put
fl_remove b h =
    let t =
      if prev_of b h == 0
      then record h { free_list = next_of b h }
      else put (prev_of b h + 8) (next_of b h) h in
    let u = if next_of b t == 0 then t else put (next_of b t + 12) (prev_of b t) t in
    put (b + 8) 0 (put (b + 12) 0 u)

unfoldable pub fl_add : ℕ → Heap → Heap
unfolding put
fl_add b h =
    let t = put (b + 12) 0 (put (b + 8) h.free_list h) in
    let u = if t.free_list == 0 then t else put (t.free_list + 12) b t in record u { free_list = b }

-- The rest of a block that is large enough becomes a free block.
unfoldable pub split : ℕ → ℕ → Heap → Heap
split b size h =
    let old_size = data_size b h in
    let t = put_size b size 0 h in
    let new = next_block b t in
    if leb ((size + min_block) % u32) old_size
    then fl_add new (put_free new ((old_size + u32 - size - hdr_size - ftr_size) % u32) t)
    else h

-- The test of what the search answers.
abbrev pub take_found : ℕ → Heap → Option ℕ → ℕ × Heap
take_found size h none = (0, h)
take_found size h (some b) = (b + hdr_size, mark b 0 (split b size (fl_remove b h)))

unfoldable pub kmalloc : ℕ → Heap → ℕ × Heap
kmalloc n h =
    let size = (n + 7) % u32 / 8 * 8 in
    if n == 0 then (0, h) else take_found size h (find_free size h)

unfoldable pub join_next : ℕ → Heap → Heap
join_next b h =
    let nxt = next_block b h in
    let t = fl_remove nxt h in
    if ltb nxt h.heap_end && (is_free nxt h && has_magic nxt h)
    then put_size b ((data_size b t + (hdr_size + ftr_size + data_size nxt t)) % u32) 1 t
    else h

-- The block joins the one before it, or goes on the list itself.
unfoldable pub join_prev : ℕ → Heap → Heap
unfolding prev_block
join_prev b h = elim (prev_block b h) [
  | none ↦ fl_add b h
  | some prv ↦
      let t = fl_remove prv h in
      if is_free prv h && has_magic prv h
      then fl_add prv
          (put_size prv ((data_size prv t + (hdr_size + ftr_size + data_size b t)) % u32) 1 t)
      else fl_add b h
]

unfoldable pub kfree : ℕ → Heap → Heap
kfree p h =
    let b = (p + u32 - hdr_size) % u32 in
    if p == 0 then h else if not (has_magic b h) then h else join_prev b (join_next b (mark b 1 h))
