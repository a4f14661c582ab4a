-- ===== src/KString/Move.antt =====
-- The overlapping copy, `memmove` of kernel/initramfs/initramfs.c.
use eclipse32_gui.Base.{ℕ, zero, suc, ◌+◌, ◌-◌, ◌≤◌, ◌<◌, ◌≡◌, arith, ltb, leb, ◌&&◌, if◌then◌else◌}
use eclipse32_gui.KString.{Memory, store, kmemcpy, copy_down, memmove}

-- What an address holds after the `n` bytes at `s` have been moved to `d`.
abbrev pub moved : ℕ → ℕ → ℕ → Memory → Memory
moved d s n m a = if leb d a && ltb a (d + n) then m (s + (a - d)) else m a

kmemcpy_below : (d s n : ℕ) (m : Memory) (a : ℕ) → d < s → kmemcpy d s n m a ≡ moved d s n m a
unfolding kmemcpy
kmemcpy_below d s zero m a h = ground arith
kmemcpy_below d s (suc n) m a h =
    ground (arith, kmemcpy_below (d + 1) (s + 1) n (store m d (m s)) a)

copy_down_above :
    (d s n d' s' : ℕ) (m : Memory) (a : ℕ)
    → s ≤ d
    → d' ≡ d + n
    → s' ≡ s + n
    → copy_down d' s' n m a ≡ moved d s n m a
unfolding copy_down
copy_down_above d s zero d' s' m a h e f = ground arith
copy_down_above d s (suc n) d' s' m a h e f =
    ground (arith, copy_down_above d s n (d' - 1) (s' - 1) (store m (d' - 1) (m (s' - 1))) a)

-- `memmove` leaves at `d` the `n` bytes that stood at `s` before the call and changes no other
-- address, however the two ranges overlap.
pub memmove_lem : (d s n : ℕ) (m : Memory) (a : ℕ) → memmove d s n m a ≡ moved d s n m a
unfolding memmove
memmove_lem d s n m a =
    ground (arith, kmemcpy_below d s n m a, copy_down_above d s n (d + n) (s + n) m a)
