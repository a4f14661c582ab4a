-- ===== src/Fat/Transfer.antt =====
-- Reading and writing files in kernel/fs/fat32/fat32.c.
use eclipse32_gui.Base.{
  ℕ, zero, suc, ◌+◌, ◌-◌, ◌/◌, ◌%◌, Bool, true, false, not, Option, none, some, List, [], ◌++◌,
  if◌then◌else◌, ◌==◌, ltb, leb, get_or, take, drop, length, min,
}
use eclipse32_gui.Base.Int.{ℤ, pos}
use eclipse32_gui.Fat.{
  File, M, pure, ◌>>=◌, ◌>>◌, get_fs, add32, sub32, u32, end_of_chain, minus_one, read_sector,
  cluster_lba, fat_get_entry, fat_set_entry, fat_alloc_cluster,
}
use eclipse32_gui.Fat.Files.{closed, slot_of, put_file, flush, to_int32}

-- `i` steps along the chain for a reader: `none` where it ends first.
unfoldable pub walk : ℕ → ℕ → M (Option ℕ)
unfolding fat_get_entry
walk zero cluster = pure (some cluster)
walk (suc i) cluster = do
  next ← fat_get_entry cluster
  if leb end_of_chain next then pure none else walk i next

-- The file's buffer is given the sector; false where reading it fails.
unfoldable pub buffer_sector : File → ℕ → M (Bool × File)
unfolding flush read_sector
buffer_sector f lba = if f.buf_lba == lba then pure (true, f) else do
  f' ← flush f
  r ← read_sector lba
  pure (elim r [ none ↦ (false, f') | some b ↦ (true, record f' { buf = b; buf_lba = lba }) ])

-- What a transfer leaves: the value returned, the bytes moved and the file.
pub record Transfer : Type 0 where
  pub value : ℤ
  pub bytes : List ℕ
  pub file : File

abbrev chunk : ℕ → ℕ → ℕ
chunk offset remaining = min (512 - offset % 512) remaining

-- The loop of `fat32_read` with `out` read so far; each round moves a byte or more, so `remaining`
-- rounds are enough.
unfoldable pub read_loop : ℕ → File → ℕ → List ℕ → M Transfer
unfolding walk buffer_sector
read_loop zero f remaining out =
    pure (record { value = to_int32 (length out % u32); bytes = out; file = f })
read_loop (suc n) f remaining out =
    if remaining == 0
    then pure (record { value = to_int32 (length out % u32); bytes = out; file = f })
    else do
      s ← get_fs
      let to_copy = chunk f.offset remaining
      let index = f.offset / 512
      w ← walk (index / s.sectors_per_cluster) f.first_cluster
      elim w [
        | none ↦ pure (record { value = to_int32 (length out % u32); bytes = out; file = f })
        | some cluster ↦ (do
          (ok, f') ← buffer_sector f (add32 (cluster_lba s cluster) (index % s.sectors_per_cluster))
          if not ok
              then pure (record { value = minus_one; bytes = out; file = f' })
              else read_loop n (record f' { offset = add32 f.offset to_copy }) (remaining - to_copy)
                  (out ++ take to_copy (drop (f.offset % 512) f'.buf)))
      ]

-- How much of the request is left after the test against the size.
abbrev pub readable : File → ℕ → ℕ
readable f count = if ltb f.size (add32 f.offset count) then sub32 f.size f.offset else count

unfoldable pub fat32_read : ℤ → ℕ → M (ℤ × List ℕ)
unfolding slot_of read_loop
fat32_read fd count = do
  s ← get_fs
  elim (slot_of s fd) [
    | none ↦ pure (minus_one, [])
    | some i ↦
        let f = get_or s.files i closed in
        if leb f.size f.offset then pure (pos 0, []) else do
          t ← read_loop (readable f count) f (readable f count) []
          (λ u. ((t.value, t.bytes), put_file i t.file u))
  ]

-- `i` steps along the chain for a writer, which adds clusters at its end; `none` when the disk is
-- full.
unfoldable pub walk_extend : ℕ → ℕ → M (Option ℕ)
unfolding fat_get_entry fat_alloc_cluster fat_set_entry
walk_extend zero cluster = pure (some cluster)
walk_extend (suc i) cluster = do
  next ← fat_get_entry cluster
  if not (leb end_of_chain next) then walk_extend i next else do
    new ← fat_alloc_cluster
    if new == 0 then pure none else do fat_set_entry cluster new; walk_extend i new

-- The first cluster, given to a file that has none; 0 when the disk is full.
unfoldable pub first_of : File → M ℕ
unfolding fat_alloc_cluster
first_of f = if f.first_cluster == 0 then fat_alloc_cluster else pure f.first_cluster

-- As `buffer_sector`, for a writer: a sector that cannot be read leaves the old bytes.
unfoldable pub claim_sector : File → ℕ → M File
unfolding buffer_sector
claim_sector f lba = do (ok, f') ← buffer_sector f lba; pure (record f' { buf_lba = lba })

abbrev put_bytes : File → ℕ → List ℕ → File
put_bytes f moved bytes = record f {
  buf = take (f.offset % 512) f.buf ++ (take moved bytes ++ drop (f.offset % 512 + moved) f.buf);
  buf_dirty = true;
  offset = add32 f.offset moved;
  size = if ltb f.size (add32 f.offset moved) then add32 f.offset moved else f.size;
}

-- The loop of `fat32_write` with the bytes that are left; each round moves a byte or more, so
-- as many rounds as bytes are enough.
unfoldable pub write_loop : ℕ → File → List ℕ → ℕ → M (ℕ × File)
unfolding first_of walk_extend claim_sector
write_loop zero f bytes written = pure (written, f)
write_loop (suc n) f bytes written = if length bytes == 0 then pure (written, f) else do
  first ← first_of f
  if first == 0 then pure (written, f) else do
    s ← get_fs
    let f1 = record f { first_cluster = first }
    let moved = chunk f.offset (length bytes)
    let index = f.offset / 512
    w ← walk_extend (index / s.sectors_per_cluster) first
    elim w [
      | none ↦ pure (written, f1)
      | some cluster ↦ (do
        f2 ← claim_sector f1 (add32 (cluster_lba s cluster) (index % s.sectors_per_cluster))
        write_loop n (put_bytes f2 moved bytes) (drop moved bytes) (written + moved))
    ]

unfoldable pub fat32_write : ℤ → List ℕ → M ℤ
unfolding slot_of write_loop
fat32_write fd bytes = do
  s ← get_fs
  elim (slot_of s fd) [
    | none ↦ pure minus_one
    | some i ↦
        let f = get_or s.files i closed in
        if not f.writable then pure minus_one else do
          (written, f') ← write_loop (length bytes) f bytes 0
          (λ u. (to_int32 (written % u32), put_file i f' u))
  ]
