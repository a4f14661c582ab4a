-- ===== src/Fat/Dir.antt =====
-- Directory entries and paths of kernel/fs/fat32/fat32.c. An entry is its 32 bytes.
--
-- A walk along a cluster chain takes as many steps as it is given; the callers give one more than
-- the volume has clusters, which an acyclic chain cannot use up.
use eclipse32_gui.Base.{
  ℕ, zero, suc, ◌+◌, ◌*◌, ◌/◌, ◌%◌, Bool, false, not, ◌||◌, Option, none, some, List, [], ◌∷◌, ◌++◌,
  if◌then◌else◌, ◌==◌, leb, get_or, set, take, drop, replicate, length,
}
use eclipse32_gui.KString.{peek, text}
use eclipse32_gui.Fat.{
  Fs, M, pure, ◌>>=◌, ◌>>◌, get_fs, add32, le16, le32, put16, put32, end_of_chain, load_buf,
  write_sector, cluster_lba, fat_get_entry, fat_set_entry, fat_alloc_cluster,
}
use eclipse32_gui.Fat.Names.{name_to_83, match_83}

-- `fat32_found_t`
pub record Found : Type 0 where
  pub de : List ℕ
  pub de_lba : ℕ
  pub de_offset : ℕ

abbrev pub attr_of : List ℕ → ℕ
attr_of de = get_or de 11 0

abbrev pub is_dir_attr : ℕ → Bool
is_dir_attr attr = attr / 16 % 2 == 1

abbrev pub cluster_of : List ℕ → ℕ
cluster_of de = le16 de 20 * 65536 + le16 de 26

abbrev pub size_of : List ℕ → ℕ
size_of de = le32 de 28

-- What the look at a sector's entries says: the end of the directory, no match, or a match.
pub data Look : Type 0 where
  ended : Look
  passed : Look
  hit : ℕ → Look

-- `n` entries from the offset `o` on.
unfoldable pub look_entries : ℕ → ℕ → List ℕ → List ℕ → Look
unfolding match_83
look_entries zero o buf name = passed
look_entries (suc n) o buf name =
    let rest = look_entries n (o + 32) buf name in
    let first = get_or buf o 0 in
    if first == 0
    then ended
    else if first == 0xe5 || get_or buf (o + 11) 0 == 0x0f
    then rest
    else if match_83 11 (drop o buf) name
    then hit o
    else rest

-- What the search of a cluster says.
pub data Search : Type 0 where
  absent : Search
  further : Search
  found : Found → Search

-- The sectors of a cluster, `n` of them from the `i`th on.
unfoldable pub find_in_cluster : ℕ → ℕ → ℕ → List ℕ → M Search
unfolding load_buf look_entries
find_in_cluster zero i cluster name = pure further
find_in_cluster (suc n) i cluster name = do
  s ← get_fs
  let lba = add32 (cluster_lba s cluster) i
  ok ← load_buf lba
  s ← get_fs
  if not ok then pure absent else elim (look_entries 16 0 s.sector_buf name) [
    | ended ↦ pure absent
    | passed ↦ find_in_cluster n (i + 1) cluster name
    | hit o ↦
        pure (found (record { de = take 32 (drop o s.sector_buf); de_lba = lba; de_offset = o }))
  ]

unfoldable pub find_in_dir : ℕ → ℕ → List ℕ → M (Option Found)
unfolding find_in_cluster fat_get_entry
find_in_dir zero cluster name = pure none
find_in_dir (suc n) cluster name = if leb end_of_chain cluster then pure none else do
  s ← get_fs
  r ← find_in_cluster s.sectors_per_cluster 0 cluster name
  elim r [
    | absent ↦ pure none
    | further ↦ (do next ← fat_get_entry cluster; find_in_dir n next name)
    | found f ↦ pure (some f)
  ]

-- The next component of a path: at most `n` characters before a slash, and what follows them.
unfoldable pub split_component : ℕ → List ℕ → List ℕ × List ℕ
split_component zero p = ([], p)
split_component (suc n) [] = ([], [])
split_component (suc n) (c ∷ p) =
    let (comp, rest) = split_component n p in
    if c == 0 || c == b'/' then ([], c ∷ p) else (c ∷ comp, rest)

abbrev skip_slash : List ℕ → List ℕ
skip_slash [] = []
skip_slash (c ∷ p) = if c == b'/' then p else c ∷ p

unfoldable pub resolve_loop : ℕ → List ℕ → ℕ → M (Option Found)
unfolding split_component name_to_83 find_in_dir
resolve_loop zero p cur = pure none
resolve_loop (suc n) p cur = if peek p == 0 then pure none else do
  let (comp, rest) = split_component 12 p
  let p' = skip_slash rest
  s ← get_fs
  r ← find_in_dir (s.total_clusters + 1) cur (name_to_83 comp)
  elim r [
    | none ↦ pure none
    | some f ↦
        if peek p' == 0
        then pure (some f)
        else if not (is_dir_attr (attr_of f.de))
        then pure none
        else resolve_loop n p' (cluster_of f.de)
  ]

-- What is written to `out` for the root directory; the rest of `out` stays as the caller had it.
unfoldable pub root_found : Fs → Found → Found
root_found s out = record out {
  de = put32 (set (put16 (put16 out.de 20 (s.root_cluster / 65536)) 26 s.root_cluster) 11 16) 28 0;
}

-- `fat32_resolve`; `out` is the caller's variable before the call.
unfoldable pub resolve : List ℕ → Found → M (Option Found)
unfolding resolve_loop root_found
resolve path out = do
  s ← get_fs
  let p = skip_slash path
  if not s.mounted
      then pure none
      else if peek p == 0
      then pure (some (root_found s out))
      else resolve_loop (length p) p s.root_cluster

-- The place of the last slash.
unfoldable pub last_slash : List ℕ → ℕ → Option ℕ → Option ℕ
last_slash [] i last = last
last_slash (c ∷ p) i last = last_slash p (i + 1) (if c == b'/' then some i else last)

-- `path_parent_cluster`: the cluster, 0 where there is none, and the last component. The callers'
-- buffers hold thirteen bytes; the copy itself has no bound.
unfoldable pub parent_cluster : List ℕ → Found → M (ℕ × List ℕ)
unfolding resolve last_slash
parent_cluster path out = do
  s ← get_fs
  let tmp = take 255 (text path)
  elim (last_slash tmp 0 none) [
    | none ↦ pure (s.root_cluster, tmp)
    | some slash ↦ if slash == 0 then pure (s.root_cluster, drop 1 tmp) else do
      r ← resolve (take slash tmp) out
      elim r [
        | none ↦ pure (0, drop (slash + 1) tmp)
        | some f ↦
            pure (if is_dir_attr (attr_of f.de) then cluster_of f.de else 0, drop (slash + 1) tmp)
      ]
  ]

-- The 32 bytes of a new entry.
unfoldable pub new_entry : List ℕ → ℕ → ℕ → ℕ → List ℕ
new_entry name attr cluster size =
    put32
      (put16 (put16 (take 11 name ++ attr ∷ replicate 20 0) 20 (cluster / 65536 % 65536)) 26
        (cluster % 65536))
      28 size

abbrev pub overwrite : List ℕ → ℕ → List ℕ → List ℕ
overwrite buf o bytes = take o buf ++ (bytes ++ drop (o + length bytes) buf)

-- The first entry, of `n` from the offset `o` on, that is unused or deleted.
unfoldable pub free_slot : ℕ → ℕ → List ℕ → Option ℕ
free_slot zero o buf = none
free_slot (suc n) o buf =
    if get_or buf o 0 == 0 || get_or buf o 0 == 0xe5 then some o else free_slot n (o + 32) buf

-- What an attempt to write the entry into a cluster says.
pub data Attempt : Type 0 where
  no_room : Attempt
  done : Bool → Attempt

unfoldable pub add_in_cluster : ℕ → ℕ → ℕ → List ℕ → M Attempt
unfolding load_buf write_sector free_slot
add_in_cluster zero i cluster entry = pure no_room
add_in_cluster (suc n) i cluster entry = do
  s ← get_fs
  let lba = add32 (cluster_lba s cluster) i
  ok ← load_buf lba
  s ← get_fs
  if not ok then pure (done false) else elim (free_slot 16 0 s.sector_buf) [
    | none ↦ add_in_cluster n (i + 1) cluster entry
    | some o ↦ (do
      let buf' = overwrite s.sector_buf o entry
      w ← (λ t. write_sector lba buf' (record t { sector_buf = buf' }))
      pure (done w))
  ]

-- `n` sectors of a cluster are filled with zeros.
unfoldable pub zero_cluster : ℕ → ℕ → ℕ → M (Unit {0})
unfolding write_sector
zero_cluster zero i cluster = pure tt
zero_cluster (suc n) i cluster = do
  s ← get_fs
  write_sector (add32 (cluster_lba s cluster) i) (replicate 512 0)
  zero_cluster n (i + 1) cluster

-- `dir_add_entry`, true where it returns 0.
unfoldable pub dir_add_entry : ℕ → ℕ → List ℕ → M Bool
unfolding add_in_cluster zero_cluster fat_alloc_cluster fat_get_entry fat_set_entry
dir_add_entry zero cluster entry = pure false
dir_add_entry (suc n) cluster entry = if leb end_of_chain cluster then pure false else do
  s ← get_fs
  r ← add_in_cluster s.sectors_per_cluster 0 cluster entry
  elim r [
    | done w ↦ pure w
    | no_room ↦ (do
      next ← fat_get_entry cluster
      if not (leb end_of_chain next) then dir_add_entry n next entry else do
        new ← fat_alloc_cluster
        if new == 0 then pure false else do
          fat_set_entry cluster new
          zero_cluster s.sectors_per_cluster 0 new
          dir_add_entry n new entry)
  ]
