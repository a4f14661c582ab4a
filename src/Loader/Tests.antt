-- ===== src/Loader/Tests.antt =====
-- Headers that kernel/exec/e32_loader.c accepts.
use eclipse32_gui.Base.{◌+◌, ◌≤◌, ◌<◌, ◌≡◌, ◌⊎◌, refl, true, false, [], arith}
use eclipse32_gui.Base.Int.{pos}
use eclipse32_gui.Syscall.{Sys}
use eclipse32_gui.Syscall.Heap.{HeapInOrder}
use eclipse32_gui.Loader.{Header, runtime_max, e32_validate, set_up_heap}
use eclipse32_gui.Loader.Bounds.{set_up_heap_lem}

abbrev small : Header
small = record {
  magic = 0x3245_4345;
  version = 1;
  header_size = 40;
  flags = 0;
  entry_offset = 40;
  code_offset = 40;
  code_size = 100;
  data_offset = 140;
  data_size = 20;
  bss_size = 64;
  image_size = 160;
}

-- The code is read from and to an offset behind the image: this one ends behind the array.
abbrev sprawling : Header
sprawling = record small { code_offset = 0x30000; code_size = 0x20000; image_size = 0x20000 }

small_accepted : e32_validate small 160 ≡ true
unfolding e32_validate
small_accepted = refl

sprawling_accepted :
    (e32_validate sprawling 0x50000 ≡ true)
    × (runtime_max < sprawling.code_offset + sprawling.code_size)
unfolding e32_validate
sprawling_accepted = (refl, omega arith)

abbrev before : Sys
before = record {
  exit_requested = false;
  exit_code = pos 0;
  image_base = 0;
  image_size = 0;
  brk_base = 0;
  brk_current = 0;
  brk_limit = 0;
  fs = record {
    disk = record { sectors = λ d l. []; fails = λ d l. true };
    mounted = false;
    drive_idx = 0;
    lba_start = 0;
    bytes_per_sector = 0;
    sectors_per_cluster = 0;
    reserved_sectors = 0;
    fat_count = 0;
    sectors_per_fat = 0;
    root_cluster = 0;
    data_start_lba = 0;
    fat_start_lba = 0;
    total_clusters = 0;
    sector_buf = [];
    files = [];
  };
  unset = record { de = []; de_lba = 0; de_offset = 0 };
  mem = λ a. 0;
  private = λ a. false;
  out = [];
  keys = [];
  ms = 0;
}

set_up_heap_lem_example :
    HeapInOrder (set_up_heap 0x0020_0000 small before)
    × (((set_up_heap 0x0020_0000 small before).brk_limit ≡ 0)
        ⊎ ((0x0020_0000 + 160 + 64 ≤ (set_up_heap 0x0020_0000 small before).brk_base)
            × ((set_up_heap 0x0020_0000 small before).brk_limit ≤ 0x0020_0000 + runtime_max)))
set_up_heap_lem_example = set_up_heap_lem 0x0020_0000 small 160 before (omega arith) small_accepted
