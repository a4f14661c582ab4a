-- ===== src/Fat/Chain.antt =====
-- The allocation of a cluster and the freeing of a chain in kernel/fs/fat32/fat32.c, on a drive on
-- which the transfers succeed.
use eclipse32_gui.Base.{
  ℕ, zero, suc, ◌+◌, ◌%◌, ◌^◌, subst, ◌≤◌, ◌<◌, ◌≡◌, refl, ap, sym, ◌∙◌, ◌≢◌, ◌⊎◌, inl, inr, true,
  if◌then◌else◌, ◌==◌, arith, eq-cases,
}
use eclipse32_gui.Fat.{Fs, u32, fat_get_entry, fat_set_entry, alloc_from, fat_alloc_cluster}
use eclipse32_gui.Fat.Table.{
  Works, InTable, entry, looked, looked-Works, changed, fat_get_entry_lem, fat_set_entry_lem,
  changed-Works, changed_same, changed_other,
}

-- Setting an entry: on a drive that works, for cluster numbers of 28 bits and a table that ends
-- below the last sector number, `fat_set_entry` succeeds, an entry read afterwards is the value's
-- low 28 bits at the cluster that was set and what it was at every other, and the drive still works.
pub fat_get_entry-fat_set_entry :
    (s : Fs) (c d v : ℕ)
    → Works s
    → InTable s c
    → InTable s d
    → let (ok, t) = fat_set_entry c v s in
      (ok ≡ true)
      × ((fat_get_entry d t).0 ≡ (if d == c then v % 2 ^ 28 else (fat_get_entry d s).0))
      × Works t
fat_get_entry-fat_set_entry s c d v w ic id =
    let t = changed s w c v in
    let wt = changed-Works s w c v in
    let read = ap (λ p. p.0) (fat_get_entry_lem t wt d) in
    rw (fat_set_entry_lem s w c v) (
      refl,
      elim (eq-cases d c) [
        | inl e ↦ read ∙ ap (entry t) e ∙ changed_same s w c v ∙ ground arith
        | inr ne ↦
            read
            ∙ changed_other s w c d v ic id ne
            ∙ sym (ap (λ p. p.0) (fat_get_entry_lem s w d))
            ∙ ground arith
      ],
      wt,
    )

-- What the search for a free cluster, of `n` from `c` on, may answer.
abbrev pub Searched : Fs → ℕ → ℕ → ℕ × Fs → Type 0
Searched s n c (r, t) =
    Works t
    × (((r ≡ 0) × ((d : ℕ) → c ≤ d → d < c + n → entry s d ≢ 0) × ((d : ℕ) → entry t d ≡ entry s d))
        ⊎ ((c ≤ r)
            × (r < c + n)
            × (entry s r ≡ 0)
            × ((d : ℕ) → c ≤ d → d < r → entry s d ≢ 0)
            × (entry t r ≡ 0x0fff_ffff)
            × ((d : ℕ) → InTable s d → d ≢ r → entry t d ≡ entry s d)))

module _ (s : Fs) (w : Works s) (n c : ℕ) where
  alloc_hit :
      entry s c ≡ 0
      → alloc_from (suc n) c s ≡ (c, changed (looked s w c) (looked-Works s w c) c 0x0fff_ffff)
  unfolding alloc_from
  alloc_hit e =
      rw (fat_get_entry_lem s w c)
        (rw e (rw (fat_set_entry_lem (looked s w c) (looked-Works s w c) c 0x0fff_ffff) refl))

  alloc_miss : entry s c ≢ 0 → alloc_from (suc n) c s ≡ alloc_from n (c + 1) (looked s w c)
  unfolding alloc_from
  alloc_miss ne = rw (fat_get_entry_lem s w c) (ground arith)

-- What is known of the search from the next cluster on, for a cluster that is not free.
Searched-next :
    (s : Fs) (n c : ℕ) (r : ℕ × Fs)
    → entry s c ≢ 0
    → Searched s n (c + 1) r
    → Searched s (suc n) c r
Searched-next s n c (r, t) ne (w, inl (z, all, same)) = (
  w,
  inl (
    z,
    (λ d h k. elim (eq-cases d c) [
      | inl e ↦ subst (λ x. entry s x ≢ 0) (sym e) ne
      | inr m ↦ all d (omega arith) (omega arith)
    ]),
    same,
  ),
)
Searched-next s n c (r, t) ne (w, inr (h, k, z, all, now, others)) = (
  w,
  inr (
    omega arith,
    omega arith,
    z,
    (λ d h' k'. elim (eq-cases d c) [
      | inl e ↦ subst (λ x. entry s x ≢ 0) (sym e) ne
      | inr m ↦ all d (omega arith) k'
    ]),
    now,
    others,
  ),
)

alloc_from_lem :
    (s : Fs) (n c : ℕ)
    → Works s
    → ((d : ℕ) → d < c + n → InTable s d)
    → Searched s n c (alloc_from n c s)
unfolding alloc_from
alloc_from_lem s zero c w i = (w, inl (refl, (λ d h k. absurd (omega arith)), λ d. refl))
alloc_from_lem s (suc n) c w i = elim (eq-cases (entry s c) 0) [
  | inl e ↦ rw (alloc_hit s w n c e) (
    changed-Works (looked s w c) (looked-Works s w c) c 0x0fff_ffff,
    inr (
      omega arith,
      omega arith,
      e,
      (λ d h k. absurd (omega arith)),
      changed_same (looked s w c) (looked-Works s w c) c 0x0fff_ffff,
      (λ d id ne.
          changed_other (looked s w c) (looked-Works s w c) c d 0x0fff_ffff (i c (omega arith)) id
            ne),
    ),
  )
  | inr ne ↦ rw (alloc_miss s w n c ne) (
      Searched-next s n c _ ne
        (alloc_from_lem (looked s w c) n (c + 1) (looked-Works s w c) (λ d h. i d (omega arith))))
]

-- On a drive that works, whose table holds every cluster of the volume, `fat_alloc_cluster` answers
-- 0 only when no cluster of the volume is free, and then leaves every entry as it is; otherwise it
-- answers the lowest free cluster, whose entry now ends a chain, and leaves every other entry. The
-- drive still works.
pub fat_alloc_cluster_lem :
    (s : Fs)
    → Works s
    → s.total_clusters + 2 ≤ 2 ^ 28
    → s.fat_start_lba + 2 ^ 21 < u32
    → Searched s s.total_clusters 2 (fat_alloc_cluster s)
unfolding fat_alloc_cluster
fat_alloc_cluster_lem s w h k =
    subst (λ n. Searched s s.total_clusters 2 (alloc_from n 2 s)) (omega arith)
      (alloc_from_lem s s.total_clusters 2 w (λ d l. (omega arith, k)))
