-- ===== src/Loader.antt =====
-- kernel/exec/e32_loader.c: the check of an executable's header, and its loading and running.
--
-- `runtime` is the address of the array `g_e32_runtime`. The program that is loaded is a function of
-- the entry address and the state, which runs until the program returns.
pub mod Bounds
mod Tests
use eclipse32_gui.Base.{
  ℕ, ◌+◌, ◌*◌, ◌/◌, ◌%◌, ◌^◌, Bool, true, false, not, ◌&&◌, ◌||◌, Option, none, some, List,
  if◌then◌else◌, ◌==◌, ltb, leb,
}
use eclipse32_gui.Base.Int.{ℤ, pos, negsuc, ltb_ℤ}
use eclipse32_gui.Fat.{add32, sub32, le16, le32}
use eclipse32_gui.Fat.Files.{to_int32, to_word, fat32_seek}
use eclipse32_gui.Fat.Open.{fat32_open, fat32_close}
use eclipse32_gui.Fat.Transfer.{fat32_read}
use eclipse32_gui.Fat.Ops.{Stat, fat32_stat}
use eclipse32_gui.Syscall.{
  Sys, store_bytes, syscall_app_begin, syscall_set_app_image, syscall_set_app_heap,
}
use eclipse32_gui.Syscall.Io.{run}

-- `e32_header_t`
pub record Header : Type 0 where
  pub magic : ℕ
  pub version : ℕ
  pub header_size : ℕ
  pub flags : ℕ
  pub entry_offset : ℕ
  pub code_offset : ℕ
  pub code_size : ℕ
  pub data_offset : ℕ
  pub data_size : ℕ
  pub bss_size : ℕ
  pub image_size : ℕ

abbrev pub header_bytes : ℕ
header_bytes = 40

abbrev pub runtime_max : ℕ
runtime_max = 256 * 1024

unfoldable pub parse_header : List ℕ → Header
parse_header b = record {
  magic = le32 b 0;
  version = le16 b 4;
  header_size = le16 b 6;
  flags = le32 b 8;
  entry_offset = le32 b 12;
  code_offset = le32 b 16;
  code_size = le32 b 20;
  data_offset = le32 b 24;
  data_size = le32 b 28;
  bss_size = le32 b 32;
  image_size = le32 b 36;
}

unfoldable pub e32_validate : Header → ℕ → Bool
e32_validate h file_size =
    if not (h.magic == 0x3245_4345)
    then false
    else if not (h.version == 1)
    then false
    else if ltb h.header_size header_bytes
    then false
    else if ltb h.code_offset h.header_size
    then false
    else if ltb h.image_size h.code_size || ltb h.image_size h.data_size
    then false
    else if leb h.image_size h.entry_offset
    then false
    else if ltb file_size (add32 h.code_offset h.code_size)
    then false
    else if ltb file_size (add32 h.data_offset h.data_size)
    then false
    else if h.image_size == 0 || ltb runtime_max h.image_size
    then false
    else if ltb runtime_max h.bss_size
    then false
    else if ltb runtime_max (add32 h.image_size h.bss_size)
    then false
    else true

abbrev zero_range : ℕ → ℕ → (ℕ → ℕ) → ℕ → ℕ
zero_range p n mem x = if leb p x && ltb x (p + n) then 0 else mem x

abbrev same_int : ℤ → ℕ → Bool
same_int z n = to_word z == n % 2 ^ 32

-- A part of the file goes to the image: whether the seek and the read did what they should.
unfoldable pub load_part : ℕ → ℤ → ℕ → ℕ → Sys → Bool × Sys
load_part image fd offset size s =
    let (p, s1) = run (fat32_seek fd (to_int32 offset) 0) s in
    let ((n, bytes), s2) = run (fat32_read fd size) s1 in
    let s3 = record s2 { mem = store_bytes (add32 image offset) bytes s2.mem } in
    if ltb_ℤ p (pos 0) then (false, s1) else (same_int n size, s3)

-- The heap of the program: what is left of the array behind the image, from the next page on.
unfoldable pub set_up_heap : ℕ → Header → Sys → Sys
set_up_heap runtime h s =
    let img_end = add32 (add32 runtime h.image_size) h.bss_size in
    let base = add32 img_end 4095 / 4096 * 4096 in
    let limit = add32 runtime runtime_max in
    if ltb base limit then syscall_set_app_heap base limit s else syscall_set_app_heap 0 0 s

-- The program runs; its result is the exit code where it asked to exit.
unfoldable pub run_image : (ℕ → Sys → ℤ × Sys) → ℕ → Header → Sys → ℤ × Sys
run_image program runtime h s =
    let base = add32 runtime h.code_offset in
    let size = add32 (sub32 h.image_size h.code_offset) h.bss_size in
    let ready = set_up_heap runtime h (syscall_set_app_image base size (syscall_app_begin s)) in
    let (rc, s') = program (add32 runtime h.entry_offset) ready in
    (
      (if s'.exit_requested then s'.exit_code else rc),
      syscall_set_app_heap 0 0 (syscall_set_app_image 0 0 s'),
    )

abbrev close_with : ℤ → ℤ → Sys → ℤ × Sys
close_with fd code s = let (r, s') = run (fat32_close fd) s in (code, s')

abbrev closed_then : ℤ → Sys → Sys
closed_then fd s = let (r, s') = run (fat32_close fd) s in s'

-- The program with the header `h` is loaded from the open file and run.
unfoldable pub load_and_run : (ℕ → Sys → ℤ × Sys) → ℕ → ℤ → Header → Sys → ℤ × Sys
load_and_run program runtime fd h s =
    let cleared = record s { mem = zero_range runtime (add32 h.image_size h.bss_size) s.mem } in
    let (code_ok, s1) = load_part runtime fd h.code_offset h.code_size cleared in
    let (data_ok, s2) =
      if h.data_size == 0 then (true, s1) else load_part runtime fd h.data_offset h.data_size s1 in
    if not code_ok
    then close_with fd (negsuc 15) s1
    else if not data_ok
    then close_with fd (negsuc 16) s2
    else run_image program runtime h (closed_then fd s2)

abbrev with_header : (ℕ → Sys → ℤ × Sys) → ℕ → ℤ → ℕ → (ℤ × List ℕ) × Sys → ℤ × Sys
with_header program runtime fd file_size ((n, bytes), s) =
    if not (same_int n header_bytes)
    then close_with fd (negsuc 12) s
    else if not (e32_validate (parse_header bytes) file_size)
    then close_with fd (negsuc 13) s
    else load_and_run program runtime fd (parse_header bytes) s

abbrev with_file : (ℕ → Sys → ℤ × Sys) → ℕ → ℕ → ℤ × Sys → ℤ × Sys
with_file program runtime file_size (fd, s) =
    if ltb_ℤ fd (pos 0)
    then (negsuc 11, s)
    else with_header program runtime fd file_size (run (fat32_read fd header_bytes) s)

abbrev with_stat : (ℕ → Sys → ℤ × Sys) → ℕ → List ℕ → Option Stat × Sys → ℤ × Sys
with_stat program runtime path (none, s) = (negsuc 9, s)
with_stat program runtime path (some st, s) =
    if st.is_dir
    then (negsuc 9, s)
    else if ltb st.size header_bytes
    then (negsuc 10, s)
    else with_file program runtime st.size (run (fat32_open path 0 s.unset) s)

unfoldable pub e32_exec_file_argv : (ℕ → Sys → ℤ × Sys) → ℕ → List ℕ → Sys → ℤ × Sys
e32_exec_file_argv program runtime path s =
    with_stat program runtime path (run (fat32_stat path s.unset) s)
