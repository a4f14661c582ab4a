-- ===== src/Syscall/Heap.antt =====
-- The application's heap in kernel/syscall/syscall.c, which `sys_brk` moves the end of.
use eclipse32_gui.Base.{ℕ, ◌^◌, ◌≤◌, ◌<◌, ◌≡◌, arith}
use eclipse32_gui.Fat.Files.{to_int32, to_word}
use eclipse32_gui.Syscall.{Sys}

-- The break lies in the application's heap.
abbrev pub HeapInOrder : Sys → Type 0
HeapInOrder s = (s.brk_base ≤ s.brk_current) × (s.brk_current ≤ s.brk_limit)

pub to_word-to_int32 : (w : ℕ) → w < 2 ^ 32 → to_word (to_int32 w) ≡ w
to_word-to_int32 w h = ground (arith, h)
