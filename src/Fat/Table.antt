-- ===== src/Fat/Table.antt =====
-- The file allocation table of kernel/fs/fat32/fat32.c as a function from clusters to entries.
use eclipse32_gui.Base.{
  ℕ, ◌+◌, ◌/◌, ◌%◌, ◌^◌, ◌≤◌, ◌<◌, ◌≡◌, refl, ◌∙◌, sym, eq-cases, ap, ◌≢◌, ◌⊎◌, inl, inr, true,
  false, List, ◌&&◌, ◌==◌, get_or, set, length, length-set, get_or-set_self, get_or-set_ne, arith,
  Bool-cases,
}
use eclipse32_gui.Fat.{
  Fs, u32, le32, put32, read_sector, write_sector, load_buf, write_disk, fat_sector, fat_offset,
  merge_entry, fat_get_entry, fat_set_entry,
}

-- A drive on which every transfer succeeds and a sector has 512 bytes.
unfoldable pub Works : Fs → Type 0
Works s =
    (lba : ℕ)
    → (s.disk.fails s.drive_idx lba ≡ false) × (length (s.disk.sectors s.drive_idx lba) ≡ 512)

-- The entry of a cluster as the disk holds it.
abbrev pub entry : Fs → ℕ → ℕ
entry s c = le32 (s.disk.sectors s.drive_idx (fat_sector s c)) (fat_offset c) % 2 ^ 28

-- The cluster numbers for which the sector of the table does not wrap around.
abbrev pub InTable : Fs → ℕ → Type 0
InTable s c = (c < 2 ^ 28) × (s.fat_start_lba + 2 ^ 21 < u32)

-- The four bytes that `put32` writes, and the others, which it leaves.
get_or-put32_ne :
    (b : List ℕ) (o v j : ℕ) → (j < o) ⊎ (o + 4 ≤ j) → get_or (put32 b o v) j 0 ≡ get_or b j 0
get_or-put32_ne b o v j h =
    get_or-set_ne _ (o + 3) j _ 0 (λ e. absurd (omega arith))
    ∙ get_or-set_ne _ (o + 2) j _ 0 (λ e. absurd (omega arith))
    ∙ get_or-set_ne _ (o + 1) j _ 0 (λ e. absurd (omega arith))
    ∙ get_or-set_ne b o j _ 0 (λ e. absurd (omega arith))

pub le32-put32_ne :
    (b : List ℕ) (o p v : ℕ) → (p + 4 ≤ o) ⊎ (o + 4 ≤ p) → le32 (put32 b o v) p ≡ le32 b p
le32-put32_ne b o p v h = omega (
  arith,
  get_or-put32_ne b o v p (omega arith),
  get_or-put32_ne b o v (p + 1) (omega arith),
  get_or-put32_ne b o v (p + 2) (omega arith),
  get_or-put32_ne b o v (p + 3) (omega arith),
)

pub length-put32 : (b : List ℕ) (o v : ℕ) → length (put32 b o v) ≡ length b
length-put32 b o v =
    length-set _ (o + 3) _ ∙ length-set _ (o + 2) _ ∙ length-set _ (o + 1) _ ∙ length-set b o _

module _ (b : List ℕ) (o v : ℕ) (h : o + 4 ≤ length b) where
  get_or-put32_0 : get_or (put32 b o v) o 0 ≡ v % 256
  get_or-put32_0 =
      get_or-set_ne _ (o + 3) o _ 0 (λ e. absurd (omega arith))
      ∙ get_or-set_ne _ (o + 2) o _ 0 (λ e. absurd (omega arith))
      ∙ get_or-set_ne _ (o + 1) o _ 0 (λ e. absurd (omega arith))
      ∙ get_or-set_self b o _ 0 (omega arith)

  get_or-put32_1 : get_or (put32 b o v) (o + 1) 0 ≡ v / 256 % 256
  get_or-put32_1 =
      get_or-set_ne _ (o + 3) (o + 1) _ 0 (λ e. absurd (omega arith))
      ∙ get_or-set_ne _ (o + 2) (o + 1) _ 0 (λ e. absurd (omega arith))
      ∙ get_or-set_self _ (o + 1) _ 0 (omega (arith, length-set b o (v % 256)))

  get_or-put32_2 : get_or (put32 b o v) (o + 2) 0 ≡ v / 65536 % 256
  get_or-put32_2 =
      get_or-set_ne _ (o + 3) (o + 2) _ 0 (λ e. absurd (omega arith))
      ∙ get_or-set_self _ (o + 2) _ 0 (
          omega (
            arith,
            length-set b o (v % 256),
            length-set (set b o (v % 256)) (o + 1) (v / 256 % 256),
          ))

  get_or-put32_3 : get_or (put32 b o v) (o + 3) 0 ≡ v / 16777216 % 256
  get_or-put32_3 = get_or-set_self _ (o + 3) _ 0 (
      omega (
        arith,
        length-set b o (v % 256),
        length-set (set b o (v % 256)) (o + 1) (v / 256 % 256),
        length-set (set (set b o (v % 256)) (o + 1) (v / 256 % 256)) (o + 2) (v / 65536 % 256),
      ))

  pub le32-put32 : le32 (put32 b o v) o ≡ v % u32
  le32-put32 = omega (arith, get_or-put32_0, get_or-put32_1, get_or-put32_2, get_or-put32_3)

module _ (s : Fs) (w : Works s) where
  load_buf_lem :
      (lba : ℕ) → load_buf lba s ≡ (true, record s { sector_buf = s.disk.sectors s.drive_idx lba })
  unfolding load_buf read_sector Works
  load_buf_lem lba = ground (arith, (w lba).0)

  -- Reading an entry also leaves its sector in the buffer.
  abbrev pub looked : ℕ → Fs
  looked c = record s { sector_buf = s.disk.sectors s.drive_idx (fat_sector s c) }

  pub fat_get_entry_lem : (c : ℕ) → fat_get_entry c s ≡ (entry s c, looked c)
  unfolding fat_get_entry
  fat_get_entry_lem c = rw (load_buf_lem (fat_sector s c)) refl

  pub looked-Works : (c : ℕ) → Works (looked c)
  unfolding Works
  looked-Works c = w

  -- The sector with the new entry.
  abbrev pub with_entry : ℕ → ℕ → List ℕ
  with_entry c v =
      let b = s.disk.sectors s.drive_idx (fat_sector s c) in
      put32 b (fat_offset c) (merge_entry (le32 b (fat_offset c)) v)

  abbrev pub changed : ℕ → ℕ → Fs
  changed c v = record s {
    sector_buf = with_entry c v;
    disk = write_disk s.disk s.drive_idx (fat_sector s c) (with_entry c v);
  }

  pub fat_set_entry_lem : (c v : ℕ) → fat_set_entry c v s ≡ (true, changed c v)
  unfolding fat_set_entry write_sector Works
  fat_set_entry_lem c v = rw (load_buf_lem (fat_sector s c)) (rw ((w (fat_sector s c)).0) refl)

  pub changed-Works : (c v : ℕ) → Works (changed c v)
  unfolding Works
  changed-Works c v lba = (
    (w lba).0,
    elim (Bool-cases (s.drive_idx == s.drive_idx && lba == fat_sector s c)) [
      | inl e ↦ rw e (length-put32 _ (fat_offset c) _ ∙ (w (fat_sector s c)).1)
      | inr e ↦ rw e ((w lba).1)
    ],
  )

  sector_same :
      (c v lba : ℕ)
      → lba ≡ fat_sector s c
      → (changed c v).disk.sectors s.drive_idx lba ≡ with_entry c v
  sector_same c v lba h = ground arith

  sector_other :
      (c v lba : ℕ)
      → lba ≢ fat_sector s c
      → (changed c v).disk.sectors s.drive_idx lba ≡ s.disk.sectors s.drive_idx lba
  sector_other c v lba h = ground arith

  offset_fits : (c : ℕ) → fat_offset c + 4 ≤ length (s.disk.sectors s.drive_idx (fat_sector s c))
  unfolding Works
  offset_fits c = omega (arith, (w (fat_sector s c)).1)

  pub changed_same : (c v : ℕ) → entry (changed c v) c ≡ v % 2 ^ 28
  changed_same c v =
      ap (λ b. le32 b (fat_offset c) % 2 ^ 28) (sector_same c v (fat_sector s c) refl)
      ∙ omega (
        arith,
        le32-put32 (s.disk.sectors s.drive_idx (fat_sector s c)) (fat_offset c)
            (merge_entry (le32 (s.disk.sectors s.drive_idx (fat_sector s c)) (fat_offset c)) v)
            (offset_fits c),
      )

  apart :
      (c d : ℕ)
      → InTable s c
      → InTable s d
      → d ≢ c
      → fat_sector s d ≡ fat_sector s c
      → (fat_offset d + 4 ≤ fat_offset c) ⊎ (fat_offset c + 4 ≤ fat_offset d)
  apart c d ic id h e = ground arith

  pub changed_other :
      (c d v : ℕ) → InTable s c → InTable s d → d ≢ c → entry (changed c v) d ≡ entry s d
  changed_other c d v ic id h = elim (eq-cases (fat_sector s d) (fat_sector s c)) [
    | inl same ↦
        ap (λ b. le32 b (fat_offset d) % 2 ^ 28) (sector_same c v (fat_sector s d) same)
        ∙ ap (λ x. x % 2 ^ 28)
            (le32-put32_ne _ (fat_offset c) (fat_offset d) _ (apart c d ic id h same))
        ∙ ap (λ l. le32 (s.disk.sectors s.drive_idx l) (fat_offset d) % 2 ^ 28) (sym same)
    | inr ne ↦ ap (λ b. le32 b (fat_offset d) % 2 ^ 28) (sector_other c v (fat_sector s d) ne)
  ]
