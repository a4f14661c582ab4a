-- ===== src/Syscall/Tests.antt =====
-- Runs of kernel/syscall/syscall.c.
use eclipse32_gui.Base.{
  ℕ, ◌+◌, ◌≤◌, ◌<◌, ◌≡◌, ◌⊎◌, refl, inl, inr, true, false, none, ltb, some, List, [], ◌∷◌, arith,
}
use eclipse32_gui.Base.Int.{pos}
use eclipse32_gui.Keyboard.{KeyEvent, empty_event, ascii}
use eclipse32_gui.Fat.{Fs}
use eclipse32_gui.Syscall.{Sys, translate_app_ptr, sys_brk, is_clear}
use eclipse32_gui.Syscall.Io.{sys_read}
use eclipse32_gui.Syscall.Line.{Line, read_line, read_line_finishes}
use eclipse32_gui.Syscall.Dispatch.{syscall_dispatch}
use eclipse32_gui.Libc.Malloc.{AppHeap}
use eclipse32_gui.Libc.Brk.{IsBrk, e32_brk_lem}
use eclipse32_gui.Syscall.Laws.{translate_app_ptr_lem}

abbrev key : ℕ → KeyEvent
key c = record empty_event { keycode = ascii; char = c }

-- An `a`, a `b` that is erased, and the end of the line.
abbrev typed : List KeyEvent
typed = key b'a' ∷ key b'b' ∷ key 8 ∷ key 13 ∷ key b'c' ∷ []

abbrev typed_line : Line
typed_line = record {
  kbuf = 10 ∷ b'a' ∷ [];
  echo = b'a' ∷ b'b' ∷ 8 ∷ 32 ∷ 8 ∷ 10 ∷ [];
  rest = key b'c' ∷ [];
}

read_line_finishes_example : (l : Line) × (read_line 16 [] [] typed ≡ some l)
read_line_finishes_example =
    read_line_finishes 16 [] [] typed (inr (inr (inr (inl (refl, refl, inr refl)))))

abbrev no_volume : Fs
no_volume = record {
  disk = record { sectors = λ d l. []; fails = λ d l. true };
  mounted = false;
  drive_idx = 0;
  lba_start = 0;
  bytes_per_sector = 0;
  sectors_per_cluster = 0;
  reserved_sectors = 0;
  fat_count = 0;
  sectors_per_fat = 0;
  root_cluster = 0;
  data_start_lba = 0;
  fat_start_lba = 0;
  total_clusters = 0;
  sector_buf = [];
  files = [];
}

abbrev running : Sys
running = record {
  exit_requested = false;
  exit_code = pos 0;
  image_base = 0x0020_0000;
  image_size = 0x1000;
  brk_base = 0x0020_2000;
  brk_current = 0x0020_2000;
  brk_limit = 0x0024_0000;
  fs = no_volume;
  unset = record { de = []; de_lba = 0; de_offset = 0 };
  mem = λ a. 0;
  private = λ a. ltb a 0x0020_0000;
  out = [];
  keys = typed;
  ms = 0;
}

abbrev grown : Sys
grown = record running { brk_current = 0x0020_3000 }

-- A line that is read into the kernel's memory.
private_test : syscall_dispatch 2 0 0x0010_0000 16 running ≡ none
unfolding syscall_dispatch sys_read translate_app_ptr read_line is_clear
private_test = refl

brk_test : syscall_dispatch 15 0x0020_3000 0 0 running ≡ some (0x0020_3000, grown)
unfolding syscall_dispatch sys_brk
brk_test = refl

-- The application's side of the heap.
abbrev app_side : AppHeap
app_side = record { mem = λ a. 0; g_free = 0; base = 0; limit = 0; top = 0 }

e32_brk_lem_example :
    (v : ℕ) × (t : Sys) × (syscall_dispatch 15 0x0020_3000 0 0 running ≡ some (v, t))
    × IsBrk 0x0020_3000 running app_side v t
e32_brk_lem_example =
    e32_brk_lem 0x0020_3000 0 0 running app_side (omega arith) (omega arith)
      (omega arith, omega arith)

translate_app_ptr_lem_example :
    ((0x800 < 0x1000)
      × (0x800 + 16 ≤ 0x1000)
      × (translate_app_ptr running 0x800 16 ≡ 0x0020_0000 + 0x800))
    ⊎ (((0x1000 ≤ 0x800) ⊎ (0x1000 < 0x800 + 16)) × (translate_app_ptr running 0x800 16 ≡ 0x800))
translate_app_ptr_lem_example =
    translate_app_ptr_lem running 0x800 16 (λ e. absurd (omega (arith, e))) (omega arith)
