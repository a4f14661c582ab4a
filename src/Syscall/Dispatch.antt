-- ===== src/Syscall/Dispatch.antt =====
-- The table and the dispatcher of kernel/syscall/syscall.c. The registers are the call's number and
-- its first three arguments; no call reads the others.
use eclipse32_gui.Base.{ℕ, zero, suc, Option, none, some, List, [], ◌∷◌}
use eclipse32_gui.Base.Int.{ℤ, pos, negsuc}
use eclipse32_gui.Fat.Files.{to_int32, to_word}
use eclipse32_gui.Syscall.{
  Sys, Result, give, sys_exit, sys_brk, sys_sleep_ms, sys_isatty, sys_getcwd,
}
use eclipse32_gui.Syscall.Io.{
  sys_write, sys_read, sys_open, sys_close, sys_seek, sys_fstat, sys_readfile, sys_mkdir,
  sys_unlink, sys_rename, sys_readdir,
}

abbrev pub enosys : ℤ
enosys = negsuc 37

-- The calls, from the number 1 on.
abbrev pub calls : List (ℕ → ℕ → ℕ → Sys → Result)
calls =
    sys_write
    ∷ sys_read
    ∷ (λ a b c. sys_open a b)
    ∷ (λ a b c. sys_close a)
    ∷ sys_seek
    ∷ (λ a b c. sys_fstat a b)
    ∷ sys_readfile
    ∷ (λ a b c. sys_exit a)
    ∷ (λ a b c. sys_mkdir a)
    ∷ (λ a b c. sys_unlink a)
    ∷ (λ a b c. sys_rename a b)
    ∷ sys_readdir
    ∷ (λ a b c s. give (to_int32 s.ms) s)
    ∷ (λ a b c. sys_sleep_ms a)
    ∷ (λ a b c. sys_brk a)
    ∷ (λ a b c. give (pos 1))
    ∷ (λ a b c. sys_isatty a)
    ∷ (λ a b c. sys_getcwd a b)
    ∷ (λ a b c. give enosys)
    ∷ []

abbrev pub call_at : List (ℕ → ℕ → ℕ → Sys → Result) → ℕ → Option (ℕ → ℕ → ℕ → Sys → Result)
call_at l zero = none
call_at [] (suc n) = none
call_at (f ∷ l) (suc zero) = some f
call_at (f ∷ l) (suc (suc n)) = call_at l (suc n)

abbrev pub syscall_table : ℕ → Option (ℕ → ℕ → ℕ → Sys → Result)
syscall_table num = call_at calls num

abbrev pub to_eax : Result → Option (ℕ × Sys)
to_eax none = none
to_eax (some (v, s)) = some (to_word v, s)

abbrev pub call_or_refuse : Option (ℕ → ℕ → ℕ → Sys → Result) → ℕ → ℕ → ℕ → Sys → Option (ℕ × Sys)
call_or_refuse none a b c s = some (to_word enosys, s)
call_or_refuse (some f) a b c s = to_eax (f a b c s)

-- The value of `eax` after the call, and the state; `none` while the call waits for a key.
unfoldable pub syscall_dispatch : ℕ → ℕ → ℕ → ℕ → Sys → Option (ℕ × Sys)
syscall_dispatch num a b c s = call_or_refuse (syscall_table num) a b c s
