-- ===== src/Lib.antt =====
-- Eclipse32, a 32-bit x86 operating system in C: models of its kernel's components, and what holds
-- of them.
--
-- Parts. Paths are from the repository's root.
--   Base       shared tests, lists, bits and integers
--   KString    the string routines of kernel/initramfs/initramfs.c
--   Env        the environment store of kernel/initramfs/initramfs.c, over KString
--   Ring       the event rings of the keyboard and mouse drivers
--   Keyboard   kernel/drivers/keyboard/keyboard.c, over Ring
--   Mouse      kernel/drivers/mouse/mouse.c, over Ring
--   Pmm        kernel/mm/pmm.c, the bitmap page frame allocator
--   Heap       kernel/mm/heap.c, the kernel heap, over Pmm
--   Vmm        kernel/mm/vmm.c, page tables, over Pmm
--   Fat        kernel/fs/fat32/fat32.c, over a disk that stands for kernel/drivers/disk/ata.c
--   Syscall    kernel/syscall/syscall.c, over Fat and the key events of Keyboard
--   Loader     kernel/exec/e32_loader.c, over Fat and Syscall
--   Vga        kernel/drivers/vga/vga.c, the text console, and its vga_printf
--   Shell      shell/shell.c: Path, History, Vars and Tokens for path resolution, the history, the
--              variables with aliases and expansion, and the tokenizer; Readline, the line editor,
--              over History, Keyboard and Vga; Ed, the editor ed, over Keyboard, Fat and Vga
--   Libc       apps/sdk/libc/stdlib.c, the reading of numbers, and malloc and free over sbrk of
--              apps/sdk/libc/unistd.c
--
-- Conventions. A machine word is a natural number, and each operation that can wrap is written with
-- its `% 2 ^ 32`. A byte is a number below 256. A C string is the list of the bytes from its pointer
-- on; reading past the list's end gives the NUL. A fixed array is a list, and a write outside it
-- changes nothing in the model: the theorems about arrays carry the bounds as hypotheses. Static
-- variables are the fields of a record that each operation takes and returns.
--
-- Loops are recursions on the list, or on the number of rounds left. The walks along a cluster chain
-- are given one round more than the volume has clusters, which a chain inside the volume that visits
-- no cluster twice cannot use up; on other chains the code may run on where the model stops.
--
-- The loops over a string, of vga_printf, path_resolve, expand_vars and tokenize, are given a round for
-- each byte, and a round reads one or more; the loop that reads a file for ed has a round for each byte
-- that a file can have.
--
-- The kernel's variables lie in the memory that applications can point into. A system call that would
-- read or overwrite them through such a pointer has no result in the model. A line that readline recalls
-- into a buffer that it overruns is followed, but not what else the bytes behind the buffer hold.
--
-- A path that a system call reads from memory is cut off at 65536 bytes. The program that the loader
-- starts, and what an uninitialised variable holds, are parameters.
--
-- Not modelled: drawing, port input and output, assembly and floating point, for which the model has
-- no counterpart; and so far the execution of lines and the built-in commands of the shell, the window
-- system (kernel/gui), kcalloc and krealloc of the kernel heap, the package installer
-- (shell/ins_pkg.c), and the applications and the rest of their C library (apps).
pub mod Base
pub mod Env
pub mod Fat
pub mod Heap
pub mod KString
pub mod Keyboard
pub mod Libc
pub mod Loader
pub mod Mouse
pub mod Pmm
pub mod Ring
pub mod Shell
pub mod Syscall
pub mod Vga
pub mod Vmm
