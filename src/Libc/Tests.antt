-- ===== src/Libc/Tests.antt =====
-- Numbers that apps/sdk/libc/stdlib.c reads.
use eclipse32_gui.Base.{
  ◌+◌, ◌≤◌, ◌<◌, ◌⊎◌, if◌then◌else◌, ◌==◌, ◌-◌, ◌≡◌, refl, [], ◌∷◌, none, arith,
}
use mathlib.Core.Option
use eclipse32_gui.Libc.Numbers.{
  u32, skip_space, read_base, read_digits, strtoul, strtol, read_any, atoi, atoi_digits, skip_blank,
}
use eclipse32_gui.Libc.Malloc.{
  AppHeap, put_word, search_list, find_free, take_block, malloc, free, e32_brk, move_top, sbrk,
  morecore, extend,
}
use eclipse32_gui.Libc.Taken.{IsCut, IsOut, malloc_lem}
use eclipse32_gui.Libc.FreeList.{malloc-free}
use eclipse32_gui.Libc.Fresh.{grown, malloc_fresh}

-- ` 0x1fg` in any base
hex_test : strtoul (b' ' ∷ b'0' ∷ b'x' ∷ b'1' ∷ b'f' ∷ b'g' ∷ []) 0 ≡ (31, b'g' ∷ [])
unfolding strtoul skip_space read_base read_digits
hex_test = refl

negative_test : strtol (b'-' ∷ b'4' ∷ b'2' ∷ b'!' ∷ []) 10 ≡ (u32 - 42, b'!' ∷ [])
unfolding strtol strtoul skip_space read_base read_digits read_any
negative_test = refl

atoi_test : atoi (b'\t' ∷ b'+' ∷ b'7' ∷ b'5' ∷ b' ' ∷ []) ≡ 75
unfolding atoi atoi_digits skip_blank
atoi_test = refl

-- One free header, of 40 bytes.
abbrev app_heap : AppHeap
app_heap = record {
  mem = λ x. if x == 4096 then 40 else 0;
  g_free = 4096;
  base = 4096;
  limit = 65536;
  top = 8192;
}

-- A block that is given from the list, and one that is not.
reuse_test : (malloc 20 app_heap).0 ≡ 4104
unfolding malloc find_free search_list take_block
reuse_test = refl

fresh_test : (malloc 100 app_heap).0 ≡ 8200
unfolding malloc find_free search_list take_block extend morecore sbrk move_top e32_brk
fresh_test = refl

-- The same heap with the block in use.
abbrev full_heap : AppHeap
full_heap = record app_heap { g_free = 0 }

-- The block has 8 bytes to spare, and is given whole.
malloc_lem_example :
    ((malloc 20 app_heap).0 ≡ 4104)
    × (((32 + 24 ≤ 40) × IsCut 32 none 4096 app_heap (malloc 20 app_heap).1)
        ⊎ ((40 < 32 + 24) × IsOut none 4096 app_heap (malloc 20 app_heap).1))
malloc_lem_example =
    malloc_lem 20 4096 none app_heap (4096 ∷ []) (omega arith) (omega arith)
      (refl, omega arith, refl) (omega arith) refl tt

malloc-free_example :
    malloc 30 (free 4104 full_heap)
    ≡ (4104, record full_heap { mem = put_word 4100 0 full_heap.mem })
malloc-free_example =
    malloc-free 30 4104 full_heap (omega arith) (omega arith) (omega arith) (omega arith)
      (omega arith)

malloc_fresh_example : malloc 100 app_heap ≡ (8200, grown 112 app_heap)
malloc_fresh_example =
    malloc_fresh 100 app_heap (4096 ∷ []) (omega arith) (omega arith) (refl, omega arith, refl)
      (omega arith) (omega arith, tt) (omega arith, omega arith, omega arith, omega arith)
