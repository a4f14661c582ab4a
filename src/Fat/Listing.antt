-- ===== src/Fat/Listing.antt =====
-- The listing of a directory in kernel/fs/fat32/fat32.c.
use eclipse32_gui.Base.{
  ℕ, zero, suc, ◌+◌, ◌-◌, ◌/◌, ◌%◌, Bool, true, false, not, ◌&&◌, ◌||◌, Option, none, some, List,
  [], ◌∷◌, ◌++◌, if◌then◌else◌, ◌==◌, leb, get_or, take, drop, length,
}
use eclipse32_gui.KString.{peek, next}
use eclipse32_gui.Fat.{
  M, pure, ◌>>=◌, get_fs, add32, end_of_chain, load_buf, cluster_lba, fat_get_entry,
}
use eclipse32_gui.Fat.Names.{name_of_83}
use eclipse32_gui.Fat.Dir.{Found, attr_of, is_dir_attr, cluster_of, size_of, resolve}

-- `fat32_dir_entry_t`
pub record DirEntry : Type 0 where
  pub name : List ℕ
  pub size : ℕ
  pub cluster : ℕ
  pub is_dir : Bool
  pub is_hidden : Bool

unfoldable pub list_entry : List ℕ → DirEntry
unfolding name_of_83
list_entry de = record {
  name = name_of_83 (take 11 de);
  size = size_of de;
  cluster = cluster_of de;
  is_dir = is_dir_attr (attr_of de);
  is_hidden = attr_of de / 2 % 2 == 1;
}

-- The entries that the listing skips.
abbrev pub skipped : List ℕ → Bool
skipped de =
    get_or de 0 0 == 0xe5 || attr_of de == 0x0f || attr_of de / 8 % 2 == 1 || get_or de 0 0 == b'.'

-- The entries of a sector, `n` of them from the offset `o` on, with room for `room` more: what is
-- listed, and whether the end of the directory was met.
unfoldable pub list_sector : ℕ → ℕ → ℕ → List ℕ → List DirEntry × Bool
unfolding list_entry
list_sector zero o room buf = ([], false)
list_sector (suc n) o room buf =
    let de = take 32 (drop o buf) in
    let skip = skipped de in
    let (more, stop) = list_sector n (o + 32) (if skip then room else room - 1) buf in
    if room == 0
    then ([], false)
    else if get_or de 0 0 == 0
    then ([], true)
    else if skip
    then (more, stop)
    else (list_entry de ∷ more, stop)

-- The sectors of a cluster, `n` of them from the `i`th on.
unfoldable pub list_cluster : ℕ → ℕ → ℕ → ℕ → M (List DirEntry × Bool)
unfolding load_buf list_sector
list_cluster zero i cluster room = pure ([], false)
list_cluster (suc n) i cluster room = if room == 0 then pure ([], false) else do
  s ← get_fs
  ok ← load_buf (add32 (cluster_lba s cluster) i)
  s ← get_fs
  if not ok then pure ([], true) else do
    let (here, stop) = list_sector 16 0 room s.sector_buf
    if stop then pure (here, true) else do
      (more, stop') ← list_cluster n (i + 1) cluster (room - length here)
      pure (here ++ more, stop')

unfoldable pub list_dir : ℕ → ℕ → ℕ → M (List DirEntry)
unfolding list_cluster fat_get_entry
list_dir zero cluster room = pure []
list_dir (suc n) cluster room = if leb end_of_chain cluster || room == 0 then pure [] else do
  s ← get_fs
  (here, stop) ← list_cluster s.sectors_per_cluster 0 cluster room
  if stop then pure here else do
    next ← fat_get_entry cluster
    more ← list_dir n next (room - length here)
    pure (here ++ more)

abbrev pub is_root : List ℕ → Bool
is_root path = peek path == b'/' && peek (next path) == 0

-- `none` is the result -1; else the entries that are written, as many as the result says.
unfoldable pub fat32_readdir : List ℕ → ℕ → Found → M (Option (List DirEntry))
unfolding resolve list_dir
fat32_readdir path max_entries out = do
  s ← get_fs
  if not s.mounted
      then pure none
      else if is_root path
      then (do l ← list_dir (s.total_clusters + 1) s.root_cluster max_entries; pure (some l))
      else do
        r ← resolve path out
        elim r [
          | none ↦ pure none
          | some f ↦ if not (is_dir_attr (attr_of f.de)) then pure none else do
            l ← list_dir (s.total_clusters + 1) (cluster_of f.de) max_entries
            pure (some l)
        ]
