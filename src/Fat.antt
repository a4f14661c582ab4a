-- ===== src/Fat.antt =====
-- kernel/fs/fat32/fat32.c: the state of the file system over a disk, sector access, the file
-- allocation table, and cluster chains.
--
-- The disk stands for the ATA driver of kernel/drivers/disk/ata.c: the bytes of each sector of each
-- drive, and the sectors at which the transfers fail. A function of the file takes the state and
-- returns its result beside the new state.
pub mod Names
pub mod Dir
pub mod Files
pub mod Open
pub mod Transfer
pub mod Mount
pub mod Listing
pub mod Ops
pub mod Table
pub mod Chain
pub mod Free
pub mod Seek
pub mod Case
mod Tests
use eclipse32_gui.Base.{
  ℕ, zero, suc, ◌+◌, ◌-◌, ◌*◌, ◌/◌, ◌%◌, ◌^◌, Bool, true, false, not, ◌&&◌, ◌||◌, Option, none,
  some, List, [], ◌∷◌, if◌then◌else◌, ◌==◌, ltb, leb, get_or, set,
}
use eclipse32_gui.Base.Int.{ℤ, pos, negsuc}

abbrev pub u32 : ℕ
u32 = 2 ^ 32

abbrev pub add32 : ℕ → ℕ → ℕ
add32 a b = (a + b) % u32

abbrev pub sub32 : ℕ → ℕ → ℕ
sub32 a b = (a + u32 - b) % u32

abbrev pub mul32 : ℕ → ℕ → ℕ
mul32 a b = a * b % u32

-- The first value that ends a chain.
abbrev pub end_of_chain : ℕ
end_of_chain = 0x0fff_fff8

abbrev pub minus_one : ℤ
minus_one = negsuc 0

pub record Disk : Type 0 where
  pub sectors : ℕ → ℕ → List ℕ
  pub fails : ℕ → ℕ → Bool

-- `fat32_file_t`
pub record File : Type 0 where
  pub used : Bool
  pub first_cluster : ℕ
  pub cur_cluster : ℕ
  pub cur_sector : ℕ
  pub offset : ℕ
  pub size : ℕ
  pub writable : Bool
  pub is_dir : Bool
  pub buf : List ℕ
  pub buf_dirty : Bool
  pub buf_lba : ℕ
  pub de_lba : ℕ
  pub de_offset : ℕ

-- `fat32_fs_t` with the open file table and the disk.
pub record Fs : Type 0 where
  pub disk : Disk
  pub mounted : Bool
  pub drive_idx : ℕ
  pub lba_start : ℕ
  pub bytes_per_sector : ℕ
  pub sectors_per_cluster : ℕ
  pub reserved_sectors : ℕ
  pub fat_count : ℕ
  pub sectors_per_fat : ℕ
  pub root_cluster : ℕ
  pub data_start_lba : ℕ
  pub fat_start_lba : ℕ
  pub total_clusters : ℕ
  pub sector_buf : List ℕ
  pub files : List File

abbrev pub M : Type 0 → Type 0
M A = Fs → A × Fs

abbrev pub pure : {A : Type 0} → A → M A
pure a s = (a, s)

infixl 5 ◌>>=◌ ◌>>◌
abbrev pub ◌>>=◌ : {A B : Type 0} → M A → (A → M B) → M B
◌>>=◌ m f s = let (a, s') = m s in f a s'

abbrev pub ◌>>◌ : {A B : Type 0} → M A → M B → M B
◌>>◌ m k s = k (m s).1

abbrev pub get_fs : M Fs
get_fs s = (s, s)

-- Little-endian fields of a byte array.
abbrev pub le16 : List ℕ → ℕ → ℕ
le16 b o = get_or b o 0 + 256 * get_or b (o + 1) 0

abbrev pub le32 : List ℕ → ℕ → ℕ
le32 b o =
    get_or b o 0
    + 256 * get_or b (o + 1) 0
    + 65536 * get_or b (o + 2) 0
    + 16777216 * get_or b (o + 3) 0

abbrev pub put16 : List ℕ → ℕ → ℕ → List ℕ
put16 b o v = set (set b o (v % 256)) (o + 1) (v / 256 % 256)

abbrev pub put32 : List ℕ → ℕ → ℕ → List ℕ
put32 b o v =
    set (set (set (set b o (v % 256)) (o + 1) (v / 256 % 256)) (o + 2) (v / 65536 % 256)) (o + 3)
      (v / 16777216 % 256)

-- `read_sector`: `none` where the transfer fails.
unfoldable pub read_sector : ℕ → M (Option (List ℕ))
read_sector lba s =
    (if s.disk.fails s.drive_idx lba then none else some (s.disk.sectors s.drive_idx lba), s)

abbrev pub write_disk : Disk → ℕ → ℕ → List ℕ → Disk
write_disk d drive lba b = record d {
  sectors = λ i a. if i == drive && a == lba then b else d.sectors i a;
}

-- `write_sector`: whether the transfer succeeds.
unfoldable pub write_sector : ℕ → List ℕ → M Bool
write_sector lba b s =
    if s.disk.fails s.drive_idx lba
    then (false, s)
    else (true, record s { disk = write_disk s.disk s.drive_idx lba b })

-- `read_sector(lba, fs.sector_buf) == 0`
unfoldable pub load_buf : ℕ → M Bool
unfolding read_sector
load_buf lba = do
  r ← read_sector lba
  elim r [ none ↦ pure false | some b ↦ λ s. (true, record s { sector_buf = b }) ]

unfoldable pub cluster_lba : Fs → ℕ → ℕ
cluster_lba s cluster = add32 s.data_start_lba (mul32 (sub32 cluster 2) s.sectors_per_cluster)

abbrev pub fat_sector : Fs → ℕ → ℕ
fat_sector s cluster = add32 s.fat_start_lba (mul32 cluster 4 / 512)

abbrev pub fat_offset : ℕ → ℕ
fat_offset cluster = mul32 cluster 4 % 512

unfoldable pub fat_get_entry : ℕ → M ℕ
unfolding load_buf
fat_get_entry cluster s =
    let (ok, s') = load_buf (fat_sector s cluster) s in
    if ok then (le32 s'.sector_buf (fat_offset cluster) % 2 ^ 28, s') else (0x0fff_ffff, s')

-- The top four bits of an entry are kept.
abbrev pub merge_entry : ℕ → ℕ → ℕ
merge_entry old value = old / 2 ^ 28 * 2 ^ 28 + value % 2 ^ 28

unfoldable pub fat_set_entry : ℕ → ℕ → M Bool
unfolding load_buf write_sector
fat_set_entry cluster value s =
    let (ok, s') = load_buf (fat_sector s cluster) s in
    let o = fat_offset cluster in
    let buf' = put32 s'.sector_buf o (merge_entry (le32 s'.sector_buf o) value) in
    if ok
    then write_sector (fat_sector s cluster) buf' (record s' { sector_buf = buf' })
    else (false, s')

-- The search of `fat_alloc_cluster` with `n` clusters left from `c` on; 0 when none is free.
unfoldable pub alloc_from : ℕ → ℕ → M ℕ
unfolding fat_get_entry fat_set_entry
alloc_from zero c = pure 0
alloc_from (suc n) c = do
  e ← fat_get_entry c
  if e == 0 then (do fat_set_entry c 0x0fff_ffff; pure c) else alloc_from n (c + 1)

unfoldable pub fat_alloc_cluster : M ℕ
unfolding alloc_from
fat_alloc_cluster s = alloc_from (add32 s.total_clusters 2 - 2) 2 s

-- The loop that frees a chain, in `fat32_open` and `fat32_delete`, for at most `n` clusters.
unfoldable pub free_chain : ℕ → ℕ → M (Unit {0})
unfolding fat_get_entry fat_set_entry
free_chain zero c = pure tt
free_chain (suc n) c =
    if leb 2 c && ltb c end_of_chain
    then (do next ← fat_get_entry c; fat_set_entry c 0; free_chain n next)
    else pure tt
