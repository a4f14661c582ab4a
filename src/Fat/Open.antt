-- ===== src/Fat/Open.antt =====
-- Opening and closing files in kernel/fs/fat32/fat32.c.
use eclipse32_gui.Base.{
  ℕ, zero, suc, ◌+◌, ◌/◌, ◌%◌, true, false, not, ◌&&◌, ◌||◌, Option, none, some, List,
  if◌then◌else◌, ◌==◌, get_or,
}
use eclipse32_gui.Base.Int.{ℤ, pos}
use eclipse32_gui.Fat.{
  File, M, pure, ◌>>=◌, ◌>>◌, get_fs, put16, put32, minus_one, read_sector, write_sector,
  fat_set_entry, fat_alloc_cluster, free_chain,
}
use eclipse32_gui.Fat.Names.{name_to_83}
use eclipse32_gui.Fat.Dir.{
  Found, attr_of, is_dir_attr, cluster_of, size_of, resolve, parent_cluster, new_entry,
  dir_add_entry,
}
use eclipse32_gui.Fat.Files.{max_open_files, flag, closed, slot_of, put_file, flush}

-- The lowest unused slot, of `n` from `i` on.
unfoldable pub free_fd : ℕ → ℕ → List File → Option ℕ
free_fd zero i files = none
free_fd (suc n) i files = if (get_or files i closed).used then free_fd n (i + 1) files else some i

unfoldable pub new_file : Found → ℕ → File → File
new_file f flags old = record old {
  used = true;
  first_cluster = cluster_of f.de;
  cur_cluster = cluster_of f.de;
  cur_sector = 0;
  offset = 0;
  size = size_of f.de;
  writable = flag flags 1 || flag flags 2;
  is_dir = is_dir_attr (attr_of f.de);
  buf_dirty = false;
  buf_lba = 0xffff_ffff;
  de_lba = f.de_lba;
  de_offset = f.de_offset;
}

-- The creation of a file that does not exist; `none` where `fat32_open` returns -1.
unfoldable pub create_file : List ℕ → Found → M (Option Found)
unfolding parent_cluster dir_add_entry new_entry name_to_83
create_file path out = do
  (parent, last) ← parent_cluster path out
  if parent == 0 then pure none else do
    first ← fat_alloc_cluster
    if first == 0 then pure none else do
      s ← get_fs
      ok ← dir_add_entry (s.total_clusters + 1) parent (new_entry (name_to_83 last) 0x20 first 0)
      if ok then resolve path out else do fat_set_entry first 0; pure none

-- The file of `FAT32_O_TRUNC`.
unfoldable pub truncate : File → M File
unfolding free_chain fat_alloc_cluster
truncate f = do
  s ← get_fs
  free_chain (s.total_clusters + 1) f.first_cluster
  new ← fat_alloc_cluster
  pure (
      if new == 0
      then record f { size = 0; offset = 0 }
      else record f { first_cluster = new; cur_cluster = new; size = 0; offset = 0 })

abbrev at_end : ℕ → File → File
at_end flags f = if flag flags 0x400 then record f { offset = f.size } else f

abbrev install : ℕ → File → M ℤ
install fd f s = (pos fd, put_file fd f s)

unfoldable pub open_found : Found → ℕ → M ℤ
unfolding free_fd new_file truncate
open_found f flags = do
  s ← get_fs
  elim (free_fd max_open_files 0 s.files) [
    | none ↦ pure minus_one
    | some fd ↦
        let file = new_file f flags (get_or s.files fd closed) in
        if flag flags 0x200
        then (do file' ← truncate file; install fd (at_end flags file'))
        else install fd (at_end flags file)
  ]

unfoldable pub fat32_open : List ℕ → ℕ → Found → M ℤ
unfolding resolve create_file open_found
fat32_open path flags out = do
  s ← get_fs
  if not s.mounted then pure minus_one else do
    r ← resolve path out
    elim r [
      | some f ↦ open_found f flags
      | none ↦ if not (flag flags 0x40) then pure minus_one else do
        c ← create_file path out
        elim c [ none ↦ pure minus_one | some f ↦ open_found f flags ]
    ]

-- The size and first cluster go back to the directory entry.
unfoldable pub write_back : File → M (Unit {0})
unfolding read_sector write_sector
write_back f = if not (f.writable && not (f.de_lba == 0)) then pure tt else do
  r ← read_sector f.de_lba
  elim r [
    | none ↦ pure tt
    | some tmp ↦ (do
      let sized = put32 tmp (f.de_offset + 28) f.size
      let high = put16 sized (f.de_offset + 20) (f.first_cluster / 65536 % 65536)
      write_sector f.de_lba (put16 high (f.de_offset + 26) (f.first_cluster % 65536))
      pure tt)
  ]

unfoldable pub fat32_close : ℤ → M ℤ
unfolding slot_of flush write_back
fat32_close fd = do
  s ← get_fs
  elim (slot_of s fd) [
    | none ↦ pure minus_one
    | some i ↦ (do
      f ← flush (get_or s.files i closed)
      write_back f
      (λ t. (pos 0, put_file i (record f { used = false }) t)))
  ]
