-- ===== src/Fat/Ops.antt =====
-- The operations on whole directories of kernel/fs/fat32/fat32.c: stat, mkdir, delete and rename.
use eclipse32_gui.Base.{
  ℕ, ◌+◌, ◌-◌, ◌/◌, ◌%◌, Bool, true, false, not, Option, none, some, List, ◌++◌, if◌then◌else◌,
  ◌==◌, set, replicate,
}
use eclipse32_gui.Fat.{
  M, pure, ◌>>=◌, ◌>>◌, get_fs, put16, put32, load_buf, write_sector, cluster_lba,
  fat_alloc_cluster, free_chain,
}
use eclipse32_gui.Fat.Names.{name_to_83}
use eclipse32_gui.Fat.Dir.{
  Found, attr_of, is_dir_attr, cluster_of, size_of, resolve, parent_cluster, new_entry,
  dir_add_entry, zero_cluster, overwrite,
}
use eclipse32_gui.Fat.Listing.{is_root}

-- `fat32_stat_t`
pub record Stat : Type 0 where
  pub size : ℕ
  pub cluster : ℕ
  pub is_dir : Bool

unfoldable pub fat32_stat : List ℕ → Found → M (Option Stat)
unfolding resolve
fat32_stat path out = do
  s ← get_fs
  if is_root path
      then pure (
          some (record {
            size = 0;
            cluster = (if s.mounted then s.root_cluster else 0);
            is_dir = true;
          }))
      else if not s.mounted
      then pure none
      else do
        r ← resolve path out
        pure (elim r [
          | none ↦ none
          | some f ↦ some (record {
            size = size_of f.de;
            cluster = cluster_of f.de;
            is_dir = is_dir_attr (attr_of f.de);
          })
        ])

-- The entry of `.` or `..`, of which only some fields are written over the old bytes.
unfoldable pub dot_entry : List ℕ → ℕ → ℕ → ℕ → List ℕ
dot_entry buf o dots cluster =
    put32
      (put16
        (put16
          (set (overwrite buf o (replicate dots b'.' ++ replicate (11 - dots) 32)) (o + 11) 0x10)
          (o + 20) (cluster / 65536 % 65536))
        (o + 26) (cluster % 65536))
      (o + 28) 0

unfoldable pub fat32_mkdir : List ℕ → Found → M Bool
unfolding resolve parent_cluster fat_alloc_cluster zero_cluster load_buf dot_entry write_sector
    dir_add_entry new_entry name_to_83
fat32_mkdir path out = do
  s ← get_fs
  if not s.mounted then pure false else do
    r ← resolve path out
    elim r [
      | some f ↦ pure false
      | none ↦ (do
        (parent, last) ← parent_cluster path out
        if parent == 0 then pure false else do
          new ← fat_alloc_cluster
          if new == 0 then pure false else do
            zero_cluster s.sectors_per_cluster 0 new
            ok ← load_buf (cluster_lba s new)
            if not ok then pure false else do
              t ← get_fs
              let buf' = dot_entry (dot_entry t.sector_buf 0 1 new) 32 2 parent
              (λ u. write_sector (cluster_lba s new) buf' (record u { sector_buf = buf' }))
              dir_add_entry (s.total_clusters + 1) parent (new_entry (name_to_83 last) 0x10 new 0))
    ]

-- The first byte of an entry is set to E5: whether the read and the write succeed.
unfoldable pub erase_entry : Found → M (Bool × Bool)
unfolding load_buf write_sector
erase_entry f = do
  ok ← load_buf f.de_lba
  if not ok then pure (false, false) else do
    t ← get_fs
    let buf' = set t.sector_buf f.de_offset 0xe5
    w ← (λ u. write_sector f.de_lba buf' (record u { sector_buf = buf' }))
    pure (true, w)

unfoldable pub fat32_delete : List ℕ → Found → M Bool
unfolding resolve erase_entry free_chain
fat32_delete path out = do
  s ← get_fs
  if not s.mounted then pure false else do
    r ← resolve path out
    elim r [
      | none ↦ pure false
      | some f ↦ (do
        (ok, w) ← erase_entry f
        if not w
            then pure false
            else do free_chain (s.total_clusters + 1) (cluster_of f.de); pure true)
    ]

unfoldable pub fat32_rename : List ℕ → List ℕ → Found → M Bool
unfolding resolve parent_cluster erase_entry dir_add_entry new_entry name_to_83
fat32_rename oldpath newpath out = do
  s ← get_fs
  if not s.mounted then pure false else do
    r ← resolve oldpath out
    elim r [
      | none ↦ pure false
      | some f ↦ (do
        (parent, last) ← parent_cluster newpath out
        if parent == 0 then pure false else do
          (ok, w) ← erase_entry f
          if not ok
              then pure false
              else dir_add_entry (s.total_clusters + 1) parent
                  (new_entry (name_to_83 last) (attr_of f.de) (cluster_of f.de) (size_of f.de)))
    ]
