-- ===== src/Libc/Malloc.antt =====
-- `malloc` and `free` of apps/sdk/libc/stdlib.c, over `sbrk` of apps/sdk/libc/unistd.c and the system
-- call `brk`, whose limits are fields here. The memory is the word at each address; a header is the
-- word of its size and, 4 bytes on, that of the next header. `errno` is left out.
use eclipse32_gui.Base.{
  ℕ, zero, suc, ◌+◌, ◌-◌, ◌*◌, ◌/◌, ◌%◌, ◌^◌, Bool, not, ◌&&◌, ◌||◌, Option, none, some,
  if◌then◌else◌, ◌==◌, ltb, leb,
}
use eclipse32_gui.Libc.Numbers.{u32}

pub record AppHeap : Type 0 where
  pub mem : ℕ → ℕ
  pub g_free : ℕ
  pub base : ℕ
  pub limit : ℕ
  pub top : ℕ

abbrev pub mhdr_sz : ℕ
mhdr_sz = 8

abbrev pub min_split : ℕ
min_split = 24

abbrev pub put_word : ℕ → ℕ → (ℕ → ℕ) → ℕ → ℕ
put_word a v mem x = if x == a then v else mem x

-- A word that is not negative as an `int`.
abbrev pub not_negative : ℕ → Option ℕ
not_negative r = if ltb r (2 ^ 31) then some r else none

-- The system call: `none` is a negative answer.
unfoldable pub e32_brk : ℕ → AppHeap → Option ℕ × AppHeap
e32_brk addr h =
    if h.limit == 0 || h.base == 0
    then (none, h)
    else if addr == 0
    then (not_negative h.top, h)
    else if ltb addr h.base
    then (none, h)
    else if ltb h.limit addr
    then (none, h)
    else (not_negative addr, record h { top = addr })

-- The order of two words as signed numbers.
abbrev pub below : ℕ → ℕ → Bool
below a b = ltb ((a + 2 ^ 31) % u32) ((b + 2 ^ 31) % u32)

-- The increment is the word of a signed number: a negative one is 2 ^ 31 or more.
unfoldable pub move_top : ℕ → ℕ → AppHeap → Option ℕ × AppHeap
move_top old increment h =
    let new_top = (old + increment) % u32 in
    let up = ltb increment (2 ^ 31) in
    let (r, t) = e32_brk new_top h in
    if up && below new_top old
    then (none, h)
    else if not up && below old new_top
    then (none, h)
    else (elim r [ none ↦ none | some q ↦ some old ], t)

-- `none` is the pointer -1.
unfoldable pub sbrk : ℕ → AppHeap → Option ℕ × AppHeap
sbrk increment h =
    let (old, t) = e32_brk 0 h in
    if increment == 0
    then (old, t)
    else elim old [ none ↦ (none, t) | some p ↦ move_top p increment t ]

abbrev pub put_header : ℕ → ℕ → ℕ → AppHeap → AppHeap
put_header a size next h = record h { mem = put_word (a + 4) next (put_word a size h.mem) }

-- The test of what `sbrk` answers.
abbrev pub with_header : ℕ → Option ℕ × AppHeap → Option ℕ × AppHeap
with_header total (none, t) = (none, t)
with_header total (some a, t) = (some a, put_header a total 0 t)

-- `none` is NULL.
unfoldable pub morecore : ℕ → AppHeap → Option ℕ × AppHeap
morecore total h = with_header total (sbrk total h)

-- Where `pp` points: at `g_free`, or at the next pointer of a header.
abbrev pub deref : Option ℕ → AppHeap → ℕ
deref none h = h.g_free
deref (some a) h = h.mem (a + 4)

abbrev pub assign : Option ℕ → ℕ → AppHeap → AppHeap
assign none p h = record h { g_free = p }
assign (some a) p h = record h { mem = put_word (a + 4) p h.mem }

-- A header that is large enough is cut in two or taken off the list whole.
unfoldable pub take_block : ℕ → Option ℕ → ℕ → AppHeap → AppHeap
take_block total pp a h =
    let size = h.mem a in
    let sp = a + total in
    if leb ((total + min_split) % u32) size
    then assign pp sp (record h {
      mem = put_word a total (put_word (sp + 4) (h.mem (a + 4)) (put_word sp (size - total) h.mem));
    })
    else assign pp (h.mem (a + 4)) h

-- The search of the free list, with `n` rounds: `none` where no header is large enough.
unfoldable pub search_list : ℕ → ℕ → Option ℕ → AppHeap → Option (ℕ × AppHeap)
search_list zero total pp h = none
search_list (suc n) total pp h =
    let a = deref pp h in
    let more = search_list n total (some a) h in
    if a == 0 then none else if leb total (h.mem a) then some (a, take_block total pp a h) else more

-- The block that `morecore` answers; it is cut only where the sum of the test wraps around.
abbrev pub cut_fresh : ℕ → Option ℕ × AppHeap → ℕ × AppHeap
cut_fresh total (none, t) = (0, t)
cut_fresh total (some a, t) =
    let sp = a + total in
    (
      a + mhdr_sz,
      if leb ((total + min_split) % u32) (t.mem a)
          then record (put_header sp (t.mem a - total) t.g_free t) {
            g_free = sp;
            mem = put_word a total (put_header sp (t.mem a - total) t.g_free t).mem;
          }
          else t,
    )

unfoldable pub extend : ℕ → AppHeap → ℕ × AppHeap
extend total h = cut_fresh total (morecore total h)

-- A list in memory of 4 GiB has fewer than 2 ^ 32 headers, each of a word or more.
unfoldable pub find_free : ℕ → AppHeap → Option (ℕ × AppHeap)
find_free total h = search_list u32 total none h

abbrev pub found_or_fresh : ℕ → AppHeap → Option (ℕ × AppHeap) → ℕ × AppHeap
found_or_fresh total h none = extend total h
found_or_fresh total h (some r) = (r.0 + mhdr_sz, r.1)

unfoldable pub malloc : ℕ → AppHeap → ℕ × AppHeap
malloc n h =
    let need = (n + 7) % u32 / 8 * 8 in
    let total = (mhdr_sz + need) % u32 in
    if n == 0
    then (0, h)
    else if ltb total need
    then (0, h)
    else found_or_fresh total h (find_free total h)

unfoldable pub free : ℕ → AppHeap → AppHeap
free p h =
    let a = p - mhdr_sz in
    if p == 0 then h else record h { mem = put_word (a + 4) h.g_free h.mem; g_free = a }
