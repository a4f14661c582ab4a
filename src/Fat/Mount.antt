-- ===== src/Fat/Mount.antt =====
-- The mount of kernel/fs/fat32/fat32.c.
use eclipse32_gui.Base.{
  ℕ, zero, suc, ◌+◌, ◌/◌, Bool, true, false, not, ◌&&◌, ◌||◌, none, some, List, if◌then◌else◌, ◌==◌,
  get_or, map,
}
use eclipse32_gui.Base.Int.{ℤ, pos}
use eclipse32_gui.Fat.{
  Fs, File, M, pure, ◌>>=◌, add32, sub32, mul32, le16, le32, minus_one, read_sector,
}

abbrev is_fat_type : ℕ → Bool
is_fat_type t = t == 0x0b || t == 0x0c || t == 0x0e || t == 0x06 || t == 0x04

-- The start of the first FAT partition, of the `n` table entries at `o`; 0 where there is none.
unfoldable pub partition_lba : ℕ → ℕ → List ℕ → ℕ
partition_lba zero o mbr = 0
partition_lba (suc n) o mbr =
    if is_fat_type (get_or mbr (o + 4) 0) then le32 mbr (o + 8) else partition_lba n (o + 16) mbr

-- The fields of the BIOS parameter block that the tests read.
abbrev pub bpb_sector_size : List ℕ → ℕ
bpb_sector_size b = le16 b 11

abbrev pub bpb_cluster_size : List ℕ → ℕ
bpb_cluster_size b = get_or b 13 0

abbrev pub bpb_fats : List ℕ → ℕ
bpb_fats b = get_or b 16 0

abbrev pub bpb_valid : List ℕ → Bool
bpb_valid b = bpb_sector_size b == 512 && not (bpb_fats b == 0) && not (bpb_cluster_size b == 0)

abbrev or_if_zero : ℕ → ℕ → ℕ
or_if_zero a b = if a == 0 then b else a

-- The fields that a valid block sets.
unfoldable pub set_geometry : ℕ → List ℕ → Fs → Fs
set_geometry part b s =
    let spf = or_if_zero (le32 b 36) (le16 b 22) in
    let fat_start = add32 part (le16 b 14) in
    let data_start = add32 fat_start (mul32 (bpb_fats b) spf) in
    let total = or_if_zero (le32 b 32) (le16 b 19) in
    record s {
      mounted = true;
      lba_start = part;
      bytes_per_sector = bpb_sector_size b;
      sectors_per_cluster = bpb_cluster_size b;
      reserved_sectors = le16 b 14;
      fat_count = bpb_fats b;
      sectors_per_fat = spf;
      root_cluster = or_if_zero (le32 b 44) 2;
      fat_start_lba = fat_start;
      data_start_lba = data_start;
      total_clusters = sub32 total (sub32 data_start part) / bpb_cluster_size b;
      files = map (λ (f : File). record f { used = false }) s.files;
    }

unfoldable pub fat32_mount : ℕ → M ℤ
unfolding read_sector partition_lba set_geometry
fat32_mount drive s =
    let start = record s { drive_idx = drive; mounted = false } in
    (do
      m ← read_sector 0
      elim m [
        | none ↦ pure minus_one
        | some mbr ↦
            let part = partition_lba 4 0x1be mbr in
            if part == 0 && not (bpb_valid mbr) then pure minus_one else do
              v ← read_sector part
              elim v [
                | none ↦ pure minus_one
                | some vbr ↦
                    if bpb_valid vbr
                    then (λ t. (pos 0, set_geometry part vbr t))
                    else pure minus_one
              ]
      ])
      start
