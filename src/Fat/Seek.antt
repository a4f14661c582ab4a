-- ===== src/Fat/Seek.antt =====
-- The positions of open files in kernel/fs/fat32/fat32.c.
use eclipse32_gui.Base.{
  ℕ, ◌^◌, ◌≤◌, ◌<◌, ◌≡◌, refl, ap, inl, inr, true, false, some, if◌then◌else◌, ◌==◌, arith,
  Bool-cases, ltb, leb, get_or,
}
use eclipse32_gui.Base.Int.{ℤ, pos, negsuc, pos_part, ◌+ℤ◌}
use eclipse32_gui.Fat.{Fs, File, u32}
use eclipse32_gui.Fat.Files.{
  closed, slot_of, put_file, to_int32, wrap32, seek_target, seek_clamp, fat32_seek,
}

abbrev pub file_at : Fs → ℕ → File
file_at s fd = get_or s.files fd closed

-- A descriptor in the table that is in use.
abbrev pub IsOpen : Fs → ℕ → Type 0
IsOpen s fd = (fd < 32) × ((file_at s fd).used ≡ true)

IsOpen-slot_of : (s : Fs) (fd : ℕ) → IsOpen s fd → slot_of s (pos fd) ≡ some fd
unfolding slot_of
IsOpen-slot_of s fd (l, u) = let inside : leb 32 fd ≡ false = ground arith in rw inside (rw u refl)

clamped :
    (size : ℕ) (t : ℤ)
    → size < 2 ^ 31
    → (n : ℕ) × (n ≤ size) × (seek_clamp size t ≡ pos n) × ((m : ℕ) → t ≡ pos m → m ≤ size → n ≡ m)
unfolding seek_clamp
clamped size (pos k) h = elim (Bool-cases (ltb size k)) [
  | inl e ↦ (size, omega arith, ground arith, (λ m q l. absurd (ground arith)))
  | inr e ↦ (k, ground arith, ground arith, (λ m q l. ap pos_part q))
]
clamped size (negsuc k) h = (0, omega arith, ground arith, (λ m q l. absurd (ground arith)))

-- The sum that `fat32_seek` clamps.
abbrev sum_of : File → ℤ → ℕ → ℤ
sum_of f off whence =
    if whence == 0
    then off
    else if whence == 1
    then wrap32 (to_int32 f.offset +ℤ off)
    else wrap32 (to_int32 f.size +ℤ off)

seek_target-sum_of :
    (f : File) (off : ℤ) (whence : ℕ)
    → whence ≤ 2
    → seek_target f off whence ≡ some (sum_of f off whence)
unfolding seek_target
seek_target-sum_of f off whence w = ground arith

fat32_seek_step :
    (s : Fs) (fd : ℕ) (off : ℤ) (whence : ℕ) (t : ℤ) (n : ℕ)
    → slot_of s (pos fd) ≡ some fd
    → seek_target (file_at s fd) off whence ≡ some t
    → seek_clamp (file_at s fd).size t ≡ pos n
    → n < u32
    → fat32_seek (pos fd) off whence s
      ≡ (pos n, put_file fd (record (file_at s fd) { offset = n }) s)
unfolding fat32_seek
fat32_seek_step s fd off whence t n o e c l = ground (arith, o, e, c)

-- On an open file of less than 2 GiB, `fat32_seek` with one of the three values of `whence` answers
-- a position between 0 and the size of the file, whatever the offset, makes it the file's position
-- and changes nothing else; with `whence` 0 and an offset in the file, the position is the offset.
pub fat32_seek_lem :
    (s : Fs) (fd : ℕ) (off : ℤ) (whence : ℕ)
    → IsOpen s fd
    → whence ≤ 2
    → (file_at s fd).size < 2 ^ 31
    → (n : ℕ) × (n ≤ (file_at s fd).size)
      × (fat32_seek (pos fd) off whence s
          ≡ (pos n, put_file fd (record (file_at s fd) { offset = n }) s))
      × ((m : ℕ) → whence ≡ 0 → off ≡ pos m → m ≤ (file_at s fd).size → n ≡ m)
fat32_seek_lem s fd off whence o w h =
    let t = sum_of (file_at s fd) off whence in
    let (n, l, c, same) = clamped (file_at s fd).size t h in
    (
      n,
      l,
      fat32_seek_step s fd off whence t n (IsOpen-slot_of s fd o)
          (seek_target-sum_of (file_at s fd) off whence w) c (omega arith),
      (λ m z e k. same m (rw z e) k),
    )
