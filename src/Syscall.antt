-- ===== src/Syscall.antt =====
-- kernel/syscall/syscall.c: the state of the system call layer, pointers of applications, and the
-- calls that need no file system. Fat/Files and the other modules of Fat are called by Syscall/Io.
--
-- The memory is a function from an address to the byte there. The kernel's own variables and code lie in
-- the same memory, where pointers of applications can lead; `private` says at which addresses. What is written to the console or to
-- the output callback is collected in `out`; the keys that are still to come are a list.
pub mod Line
pub mod Io
pub mod Dispatch
pub mod Heap
pub mod Laws
mod Tests
use eclipse32_gui.Base.{
  ℕ, zero, suc, ◌+◌, ◌-◌, ◌%◌, ◌^◌, Bool, true, false, not, ◌&&◌, ◌||◌, Option, none, some, List,
  [], ◌∷◌, ◌++◌, if◌then◌else◌, ◌==◌, ltb, leb,
}
use eclipse32_gui.Base.Int.{ℤ, pos, negsuc}
use eclipse32_gui.Fat.{Fs}
use eclipse32_gui.Fat.Dir.{Found}
use eclipse32_gui.Fat.Files.{to_int32}
use eclipse32_gui.Keyboard.{KeyEvent}

-- The static variables with what the calls act on; `unset` is what a local variable that the code
-- does not initialise holds.
pub record Sys : Type 0 where
  pub exit_requested : Bool
  pub exit_code : ℤ
  pub image_base : ℕ
  pub image_size : ℕ
  pub brk_base : ℕ
  pub brk_current : ℕ
  pub brk_limit : ℕ
  pub fs : Fs
  pub unset : Found
  pub mem : ℕ → ℕ
  pub private : ℕ → Bool
  pub out : List ℕ
  pub keys : List KeyEvent
  pub ms : ℕ

-- `none` while a call waits for a key that has not come, and where a call reads or overwrites the
-- kernel's own variables or code through a pointer of the application: the code then goes on with what
-- it has overwritten, which the model does not follow.
abbrev pub Result : Type 0
Result = Option (ℤ × Sys)

abbrev pub give : ℤ → Sys → Result
give v s = some (v, s)

abbrev pub fail : Sys → Result
fail s = some (negsuc 0, s)

abbrev pub ptr_ok : ℕ → Bool
ptr_ok p = not (p == 0) && (leb 0x0010_0000 p && ltb p 0xfff0_0000)

unfoldable pub translate_app_ptr : Sys → ℕ → ℕ → ℕ
translate_app_ptr s raw len =
    if not (s.image_base == 0) && (ltb raw s.image_size && leb len (s.image_size - raw))
    then (s.image_base + raw) % 2 ^ 32
    else raw

unfoldable pub load_bytes : ℕ → ℕ → (ℕ → ℕ) → List ℕ
load_bytes zero p mem = []
load_bytes (suc n) p mem = mem p ∷ load_bytes n (p + 1) mem

unfoldable pub store_bytes : ℕ → List ℕ → (ℕ → ℕ) → ℕ → ℕ
store_bytes p [] mem = mem
store_bytes p (b ∷ bs) mem = store_bytes (p + 1) bs (λ x. if x == p then b else mem x)

-- Bytes in the memory that belong neither to the kernel nor, by wrapping around, to low addresses.
unfoldable pub is_clear : (ℕ → Bool) → ℕ → List ℕ → Bool
is_clear private p [] = true
is_clear private p (b ∷ bs) = ltb p (2 ^ 32) && (not (private p) && is_clear private (p + 1) bs)

-- Bytes of the application are read, or written with an answer.
abbrev pub reading : ℕ → List ℕ → Sys → Result → Result
reading p bs s r = if is_clear s.private p bs then r else none

abbrev pub storing : ℕ → List ℕ → ℤ → Sys → Result
storing p bs v s = reading p bs s (give v (record s { mem = store_bytes p bs s.mem }))

-- The string at an address, cut off after `n` bytes.
unfoldable pub c_string : ℕ → ℕ → (ℕ → ℕ) → List ℕ
c_string zero p mem = []
c_string (suc n) p mem = if mem p == 0 then [] else mem p ∷ c_string n (p + 1) mem

unfoldable pub sys_exit : ℕ → Sys → Result
sys_exit code s =
    give (to_int32 code) (record s { exit_requested = true; exit_code = to_int32 code })

unfoldable pub sys_brk : ℕ → Sys → Result
sys_brk addr s =
    if s.brk_limit == 0 || s.brk_base == 0
    then fail s
    else if addr == 0
    then give (to_int32 s.brk_current) s
    else if ltb addr s.brk_base
    then fail s
    else if ltb s.brk_limit addr
    then fail s
    else give (to_int32 addr) (record s { brk_current = addr })

-- The loop of `pit_sleep_ms` ends at the target, or at once when that has passed.
unfoldable pub sys_sleep_ms : ℕ → Sys → Result
sys_sleep_ms ms s =
    let target = (s.ms + ms) % 2 ^ 32 in
    give (pos 0) (if ltb s.ms target then record s { ms = target } else s)

unfoldable pub sys_isatty : ℕ → Sys → Result
sys_isatty fd s = give (if leb fd 2 then pos 1 else pos 0) s

unfoldable pub sys_getcwd : ℕ → ℕ → Sys → Result
sys_getcwd ptr size s =
    let buf = translate_app_ptr s ptr size in
    if ltb size 2
    then fail s
    else if not (ptr_ok buf)
    then fail s
    else storing buf (b'/' ∷ 0 ∷ []) (pos 0) s

unfoldable pub syscall_app_begin : Sys → Sys
syscall_app_begin s = record s { exit_requested = false; exit_code = pos 0 }

unfoldable pub syscall_set_app_image : ℕ → ℕ → Sys → Sys
syscall_set_app_image base size s = record s { image_base = base; image_size = size }

unfoldable pub syscall_set_app_heap : ℕ → ℕ → Sys → Sys
syscall_set_app_heap base limit s = record s {
  brk_base = base;
  brk_current = base;
  brk_limit = limit;
}
