-- ===== src/Fat/Tests.antt =====
-- Runs of kernel/fs/fat32/fat32.c on a small volume.
use eclipse32_gui.Base.{
  ℕ, ◌%◌, ◌^◌, ◌≤◌, ◌≡◌, refl, true, false, List, [], ◌∷◌, inl, inr, if◌then◌else◌, ◌==◌, replicate,
  arith, Bool-cases,
}
use eclipse32_gui.Base.Int.{pos, negsuc}
use eclipse32_gui.Fat.{
  Fs, put32, read_sector, write_sector, load_buf, fat_get_entry, fat_set_entry, alloc_from,
  fat_alloc_cluster, free_chain,
}
use eclipse32_gui.Fat.Files.{closed, put_file, fat32_seek}
use eclipse32_gui.Fat.Table.{Works}
use eclipse32_gui.Fat.Chain.{Searched, fat_get_entry-fat_set_entry, fat_alloc_cluster_lem}
use eclipse32_gui.Fat.Free.{Freed, free_chain_lem}
use eclipse32_gui.Fat.Seek.{file_at, fat32_seek_lem}

-- The cluster 2 leads to 3, which ends its chain; 4 and 5 are free.
abbrev table : List ℕ
table = put32 (put32 (replicate 512 0) 8 3) 12 0x0fff_ffff

abbrev volume : Fs
volume = record {
  disk = record {
    sectors = λ d l. if l == 1 then table else replicate 512 0;
    fails = λ d l. false;
  };
  mounted = true;
  drive_idx = 0;
  lba_start = 0;
  bytes_per_sector = 512;
  sectors_per_cluster = 1;
  reserved_sectors = 1;
  fat_count = 1;
  sectors_per_fat = 1;
  root_cluster = 2;
  data_start_lba = 2;
  fat_start_lba = 1;
  total_clusters = 4;
  sector_buf = replicate 512 0;
  files = record closed { used = true; size = 100; offset = 30 } ∷ [];
}

volume-Works : Works volume
unfolding Works
volume-Works lba = (refl, elim (Bool-cases (lba == 1)) [ inl e ↦ rw e refl | inr e ↦ rw e refl ])

fat_get_entry-fat_set_entry_example :
    let (ok, t) = fat_set_entry 4 5 volume in
    (ok ≡ true)
    × ((fat_get_entry 2 t).0 ≡ (if 2 == 4 then 5 % 2 ^ 28 else (fat_get_entry 2 volume).0))
    × Works t
fat_get_entry-fat_set_entry_example =
    fat_get_entry-fat_set_entry volume 4 2 5 volume-Works (omega arith, omega arith)
      (omega arith, omega arith)

fat_alloc_cluster_lem_example : Searched volume 4 2 (fat_alloc_cluster volume)
fat_alloc_cluster_lem_example =
    fat_alloc_cluster_lem volume volume-Works (omega arith) (omega arith)

alloc_test : (fat_alloc_cluster volume).0 ≡ 4
unfolding fat_alloc_cluster alloc_from fat_get_entry fat_set_entry load_buf read_sector write_sector
alloc_test = refl

free_chain_lem_example : Freed volume (2 ∷ 3 ∷ []) (free_chain 5 2 volume).1
free_chain_lem_example =
    free_chain_lem volume 5 2 (2 ∷ 3 ∷ []) volume-Works (omega arith)
      (
        refl,
        omega arith,
        omega arith,
        refl,
        (refl, omega arith, omega arith, refl, inr (omega arith)),
      )
      (omega arith)

fat32_seek_lem_example :
    (n : ℕ) × (n ≤ 100)
    × (fat32_seek (pos 0) (negsuc 200) 1 volume
        ≡ (pos n, put_file 0 (record (file_at volume 0) { offset = n }) volume))
    × ((m : ℕ) → ◌≡◌ {A = ℕ} 1 0 → negsuc 200 ≡ pos m → m ≤ 100 → n ≡ m)
fat32_seek_lem_example =
    fat32_seek_lem volume 0 (negsuc 200) 1 (omega arith, refl) (omega arith) (omega arith)

abbrev path : List ℕ
path = b'/' ∷ b'a' ∷ b'/' ∷ b'k' ∷ b'e' ∷ b'r' ∷ b'.' ∷ b'c' ∷ []
