-- ===== src/Fat/Files.antt =====
-- The table of open files of kernel/fs/fat32/fat32.c, and the seek. A file descriptor is an integer; a
-- flag word is tested bit by bit.
use eclipse32_gui.Base.{
  ℕ, ◌-◌, ◌/◌, ◌%◌, ◌^◌, Bool, false, Option, none, some, if◌then◌else◌, ◌==◌, ltb, leb, get_or,
  set, replicate,
}
use eclipse32_gui.Base.Int.{ℤ, pos, negsuc, ltb_ℤ, ◌+ℤ◌}
use eclipse32_gui.Fat.{Fs, File, M, pure, ◌>>=◌, ◌>>◌, get_fs, u32, minus_one, write_sector}

abbrev pub max_open_files : ℕ
max_open_files = 32

abbrev pub flag : ℕ → ℕ → Bool
flag flags weight = flags / weight % 2 == 1

abbrev pub closed : File
closed = record {
  used = false;
  first_cluster = 0;
  cur_cluster = 0;
  cur_sector = 0;
  offset = 0;
  size = 0;
  writable = false;
  is_dir = false;
  buf = replicate 512 0;
  buf_dirty = false;
  buf_lba = 0;
  de_lba = 0;
  de_offset = 0;
}

-- The table slot of a descriptor; `none` where the tests of the functions refuse it.
unfoldable pub slot_of : Fs → ℤ → Option ℕ
slot_of s (negsuc n) = none
slot_of s (pos fd) =
    if leb max_open_files fd
    then none
    else if (get_or s.files fd closed).used
    then some fd
    else none

abbrev pub put_file : ℕ → File → Fs → Fs
put_file fd f s = record s { files = set s.files fd f }

-- A dirty buffer goes to its sector.
unfoldable pub flush : File → M File
unfolding write_sector
flush f =
    if f.buf_dirty
    then (do write_sector f.buf_lba f.buf; pure (record f { buf_dirty = false }))
    else pure f

-- The reading of a 32-bit word as `int32_t`, and the wrapping of a sum to it.
abbrev pub to_int32 : ℕ → ℤ
to_int32 u = if ltb u (2 ^ 31) then pos u else negsuc (2 ^ 32 - u - 1)

abbrev pub wrap32 : ℤ → ℤ
wrap32 (pos n) = to_int32 (n % u32)
wrap32 (negsuc n) = to_int32 (u32 - 1 - n % u32)

-- The target of a seek; `none` where `whence` is none of the three.
unfoldable pub seek_target : File → ℤ → ℕ → Option ℤ
seek_target f off whence =
    if whence == 0
    then some off
    else if whence == 1
    then some (wrap32 (to_int32 f.offset +ℤ off))
    else if whence == 2
    then some (wrap32 (to_int32 f.size +ℤ off))
    else none

-- The two tests that keep the position in the file; a position is a word, the result an `int32_t`.
unfoldable pub seek_clamp : ℕ → ℤ → ℤ
seek_clamp size t =
    let t' = if ltb_ℤ t (pos 0) then pos 0 else t in
    if ltb_ℤ (pos size) t' then to_int32 size else t'

abbrev pub to_word : ℤ → ℕ
to_word (pos n) = n % u32
to_word (negsuc n) = u32 - 1 - n % u32

unfoldable pub fat32_seek : ℤ → ℤ → ℕ → M ℤ
fat32_seek fd off whence = do
  s ← get_fs
  elim (slot_of s fd) [
    | none ↦ pure minus_one
    | some i ↦
        let f = get_or s.files i closed in
        elim (seek_target f off whence) [
          | none ↦ pure minus_one
          | some t ↦
              let to = seek_clamp f.size t in
              (λ u. (to, put_file i (record f { offset = to_word to }) u))
        ]
  ]
