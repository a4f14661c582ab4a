-- ===== src/Libc.antt =====
-- apps/sdk/libc/stdlib.c, of the C library of the applications: Numbers for the reading of numbers,
-- Malloc for the allocator.
pub mod Numbers
pub mod Parse
pub mod Malloc
pub mod Brk
pub mod FreeList
pub mod Taken
pub mod Fresh
mod Tests
