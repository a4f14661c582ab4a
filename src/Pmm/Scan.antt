-- ===== src/Pmm/Scan.antt =====
-- The search of `pmm_alloc_page` in kernel/mm/pmm.c: it finds the first page whose bit is clear.
use native.Mathlib.Nat.{pow-suc}
use eclipse32_gui.Base.{
  ℕ, zero, suc, ◌+◌, ◌-◌, ◌*◌, ◌/◌, ◌%◌, ◌^◌, ◌<◌, ◌≡◌, refl, true, false, ◌==◌, ltb, arith, ==_iff,
  ltb→lt, Bool-cases, inl, inr, ◌⊎◌,
}
use eclipse32_gui.Base.Bits.{bit, passes_below, passes_below-lt}
use eclipse32_gui.Pmm.{Pmm, u32, word, test_bit, ctz, take_page, page_addr, alloc_loop, alloc_page}
use eclipse32_gui.Pmm.Bitmap.{test_bit-digit, AllWords, word-lt}

-- The lowest clear digit of `w`, found as the lowest set digit of its complement.
pub ctz-lt : (n w : ℕ) → w + 1 < 2 ^ n → ctz n (2 ^ n - 1 - w) < n
unfolding ctz
ctz-lt zero w h = absurd (omega arith)
ctz-lt (suc n) w h = elim (Bool-cases ((2 ^ suc n - 1 - w) % 2 == 1)) [
  | inl e ↦ rw e (omega arith)
  | inr e ↦ ground (arith, pow-suc 2 n, half, ctz-lt n (w / 2))
]
  where
    half : (2 ^ suc n - 1 - w) / 2 ≡ 2 ^ n - 1 - w / 2
    half = omega (arith, pow-suc 2 n)

pub bit-ctz : (n w : ℕ) → w + 1 < 2 ^ n → bit w (ctz n (2 ^ n - 1 - w)) ≡ false
unfolding ctz bit
bit-ctz zero w h = absurd (omega arith)
bit-ctz (suc n) w h = elim (Bool-cases ((2 ^ suc n - 1 - w) % 2 == 1)) [
  | inl e ↦ rw e (ground (arith, pow-suc 2 n))
  | inr e ↦ rw (e, half) (bit-ctz n (w / 2) (ground (arith, pow-suc 2 n)))
]
  where
    half : (2 ^ suc n - 1 - w) / 2 ≡ 2 ^ n - 1 - w / 2
    half = omega (arith, pow-suc 2 n)

pub bit-below_ctz : (n w j : ℕ) → w + 1 < 2 ^ n → j < ctz n (2 ^ n - 1 - w) → bit w j ≡ true
unfolding ctz bit
bit-below_ctz zero w j h k = absurd (omega arith)
bit-below_ctz (suc n) w zero h k = ground (arith, pow-suc 2 n)
bit-below_ctz (suc n) w (suc j) h k = ground (arith, pow-suc 2 n, half, bit-below_ctz n (w / 2) j)
  where
    half : (2 ^ suc n - 1 - w) / 2 ≡ 2 ^ n - 1 - w / 2
    half = omega (arith, pow-suc 2 n)

ones_table : passes_below 32 (bit (2 ^ 32 - 1)) ≡ true
unfolding passes_below bit
ones_table = refl

-- The page is the first one that is free, and the call takes it.
pub record Taken (s : Pmm) (page : ℕ) (r : Pmm × ℕ) : Type 0 where
  pub below : page < s.total_pages
  pub free : test_bit s.bitmap page ≡ false
  pub first : (q : ℕ) → q < page → test_bit s.bitmap q ≡ true
  pub result : r ≡ (take_page s page, page_addr s page)

-- Every page is used, and the call changes nothing.
pub record Exhausted (s : Pmm) (r : Pmm × ℕ) : Type 0 where
  pub full : (q : ℕ) → q < s.total_pages → test_bit s.bitmap q ≡ true
  pub result : r ≡ (s, 0)

module _ (s : Pmm) (words : AllWords s.bitmap) where
  -- The pages of the words before word `i` are used.
  abbrev UsedBefore : ℕ → Type 0
  UsedBefore i = (q : ℕ) → q < i * 32 → q < s.total_pages → test_bit s.bitmap q ≡ true

  abbrev candidate : ℕ → ℕ
  candidate i = i * 32 + ctz 32 (u32 - 1 - word s.bitmap i)

  used_in_full_word : (i : ℕ) → word s.bitmap i ≡ u32 - 1 → UsedBefore i → UsedBefore (i + 1)
  used_in_full_word i e h q k t = elim (Bool-cases (ltb q (i * 32))) [
    | inl p ↦ h q (ltb→lt _ _ p) t
    | inr p ↦
        let same : q / 32 ≡ i = ground arith in
        rw (test_bit-digit, same, e)
          (passes_below-lt 32 (bit (2 ^ 32 - 1)) (q % 32) (omega arith) ones_table)
  ]

  used_below_candidate :
      (i : ℕ)
      → word s.bitmap i + 1 < 2 ^ 32
      → UsedBefore i
      → (q : ℕ) → q < candidate i
      → q < s.total_pages
      → test_bit s.bitmap q ≡ true
  used_below_candidate i e h q k t = elim (Bool-cases (ltb q (i * 32))) [
    | inl p ↦ h q (ltb→lt _ _ p) t
    | inr p ↦
        let same : q / 32 ≡ i = ground (arith, ctz-lt 32 (word s.bitmap i) e) in
        rw (test_bit-digit, same)
          (bit-below_ctz 32 (word s.bitmap i) (q % 32) e
            (ground (arith, ctz-lt 32 (word s.bitmap i) e)))
  ]

  candidate_free : (i : ℕ) → word s.bitmap i + 1 < 2 ^ 32 → test_bit s.bitmap (candidate i) ≡ false
  candidate_free i e =
      let small = ctz-lt 32 (word s.bitmap i) e in
      let at : candidate i / 32 ≡ i = omega arith in
      let place : candidate i % 32 ≡ ctz 32 (u32 - 1 - word s.bitmap i) = omega arith in
      rw (test_bit-digit, at, place) (bit-ctz 32 (word s.bitmap i) e)

  alloc_loop-cases :
      (n i : ℕ)
      → n + i ≡ (s.total_pages + 31) / 32
      → UsedBefore i
      → ((page : ℕ) × Taken s page (alloc_loop s n i)) ⊎ Exhausted s (alloc_loop s n i)
  unfolding alloc_loop
  alloc_loop-cases zero i e h = inr (record { full = λ q t. h q (omega arith) t; result = refl })
  alloc_loop-cases (suc n) i e h = elim (Bool-cases (word s.bitmap i == u32 - 1)) [
    | inl f ↦
        rw f (alloc_loop-cases n (i + 1) (omega arith) (used_in_full_word i ((==_iff _ _).0 f) h))
    | inr f ↦
        let room : word s.bitmap i + 1 < 2 ^ 32 = ground (arith, word-lt s.bitmap i words) in
        elim (Bool-cases (ltb (candidate i) s.total_pages)) [
          | inl t ↦ inl (
            candidate i,
            record {
              below = ltb→lt _ _ t;
              free = candidate_free i room;
              first = λ q k. used_below_candidate i room h q k (ground arith);
              result = rw (f, t) refl;
            },
          )
          | inr t ↦
              rw (f, t)
                (alloc_loop-cases n (i + 1) (omega arith)
                  (λ q k u. used_below_candidate i room h q (ground arith) u))
        ]
  ]

  pub alloc_page-cases : ((page : ℕ) × Taken s page (alloc_page s)) ⊎ Exhausted s (alloc_page s)
  unfolding alloc_page
  alloc_page-cases =
      alloc_loop-cases ((s.total_pages + 31) / 32) 0 (omega arith) (λ q k t. absurd (omega arith))
