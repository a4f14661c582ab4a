-- ===== src/Pmm/Init.antt =====
-- `pmm_init` of kernel/mm/pmm.c: every managed page starts free.
use eclipse32_gui.Base.{
  Bool, ℕ, zero, suc, ◌+◌, ◌-◌, ◌*◌, ◌/◌, ◌%◌, ◌^◌, ◌≤◌, ◌<◌, ◌≡◌, refl, sym, ◌∙◌, true, false, not,
  ◌||◌, List, if◌then◌else◌, ◌==◌, leb, length, length-set, set, arith, Bool-cases, inl, inr,
}
use eclipse32_gui.Base.Bits.{bit, bit-zero, passes_below, passes_below-lt}
use eclipse32_gui.Pmm.{u32, word, test_bit, clear_words, init}
use eclipse32_gui.Pmm.Bitmap.{AllWords, get_or-set, set-AllWords, test_bit-digit}
use eclipse32_gui.Pmm.Inv.{count_free, IsValid}

length-clear_words : (n : ℕ) (bm : List ℕ) → length (clear_words n bm) ≡ length bm
unfolding clear_words
length-clear_words zero bm = refl
length-clear_words (suc n) bm = length-set (clear_words n bm) n 0 ∙ length-clear_words n bm

clear_words-AllWords : (n : ℕ) (bm : List ℕ) → AllWords bm → AllWords (clear_words n bm)
unfolding clear_words
clear_words-AllWords zero bm a = a
clear_words-AllWords (suc n) bm a =
    set-AllWords (clear_words n bm) n 0 (clear_words-AllWords n bm a) (omega arith)

word-clear_words :
    (n : ℕ) (bm : List ℕ) (i : ℕ) → n ≤ length bm → i < n → word (clear_words n bm) i ≡ 0
unfolding clear_words
word-clear_words zero bm i h k = absurd (omega arith)
word-clear_words (suc n) bm i h k = ground (
  arith,
  get_or-set (clear_words n bm) n i 0 (u32 - 1),
  length-clear_words n bm,
  word-clear_words n bm i,
)

abbrev tail_word : ℕ → ℕ
tail_word rem = u32 - 1 - (2 ^ rem - 1)

abbrev tail_row : ℕ → ℕ → Bool
tail_row r j = leb r j || not (bit (tail_word r) j)

abbrev tail_rows : ℕ → Bool
tail_rows r = passes_below 32 (tail_row r)

tail_table : passes_below 32 tail_rows ≡ true
unfolding passes_below bit
tail_table = refl

bit-tail_word : (r j : ℕ) → r < 32 → j < r → bit (tail_word r) j ≡ false
bit-tail_word r j h k = ground (
  arith,
  passes_below-lt 32 (tail_row r) j (omega arith) (passes_below-lt 32 tail_rows r h tail_table),
)

-- The bitmap that `pmm_init` leaves, over `total` pages.
abbrev init_bitmap : List ℕ → ℕ → List ℕ
init_bitmap bm total =
    let cleared = clear_words ((total + 31) / 32) bm in
    if total % 32 == 0 then cleared else set cleared (total / 32) (tail_word (total % 32))

init_bitmap-free :
    (bm : List ℕ) (total q : ℕ)
    → total ≤ 32 * length bm
    → q < total
    → test_bit (init_bitmap bm total) q ≡ false
init_bitmap-free bm total q h k = elim (Bool-cases (total % 32 == 0)) [
  | inl e ↦ rw e (rw (test_bit-digit, zeroed) (bit-zero (q % 32)))
  | inr e ↦ rw e (elim (Bool-cases (q / 32 == total / 32)) [
    | inl z ↦
        rw (test_bit-digit, last z)
          (bit-tail_word (total % 32) (q % 32) (omega arith) (ground arith))
    | inr z ↦ rw (test_bit-digit, other z) (bit-zero (q % 32))
  ])
]
  where
    cleared : List ℕ
    cleared = clear_words ((total + 31) / 32) bm

    zeroed : word cleared (q / 32) ≡ 0
    zeroed = word-clear_words ((total + 31) / 32) bm (q / 32) (omega arith) (omega arith)

    last :
        (q / 32 == total / 32) ≡ true
        → word (set cleared (total / 32) (tail_word (total % 32))) (q / 32) ≡ tail_word (total % 32)
    last z = ground (
      arith,
      get_or-set cleared (total / 32) (q / 32) (tail_word (total % 32)) (u32 - 1),
      length-clear_words ((total + 31) / 32) bm,
    )

    other :
        (q / 32 == total / 32) ≡ false
        → word (set cleared (total / 32) (tail_word (total % 32))) (q / 32) ≡ 0
    other z =
        ground (
          arith,
          get_or-set cleared (total / 32) (q / 32) (tail_word (total % 32)) (u32 - 1),
          zeroed,
        )

init_bitmap-room :
    (bm : List ℕ) (total : ℕ) → total ≤ 32 * length bm → total ≤ 32 * length (init_bitmap bm total)
init_bitmap-room bm total h = ground (
  arith,
  length-clear_words ((total + 31) / 32) bm,
  length-set (clear_words ((total + 31) / 32) bm) (total / 32) (tail_word (total % 32)),
)

init_bitmap-AllWords : (bm : List ℕ) (total : ℕ) → AllWords bm → AllWords (init_bitmap bm total)
init_bitmap-AllWords bm total a = ground (
  arith,
  clear_words-AllWords ((total + 31) / 32) bm a,
  set-AllWords (clear_words ((total + 31) / 32) bm) (total / 32) (tail_word (total % 32))
      (clear_words-AllWords ((total + 31) / 32) bm a),
)

count_free_all :
    (bm : List ℕ) (n : ℕ) → ((q : ℕ) → q < n → test_bit bm q ≡ false) → count_free bm n ≡ n
count_free_all bm zero h = refl
count_free_all bm (suc n) h = ground (arith, h n, count_free_all bm n (λ q k. h q (omega arith)))

-- For a bitmap of 32-bit words that has a bit for every page, an address above 0 and a range that
-- ends below 4 GB, `pmm_init` gives a valid allocator of `size / 4096` pages, all of them free.
pub init-IsValid :
    (bm : List ℕ) (base size : ℕ)
    → AllWords bm
    → size / 4096 ≤ 32 * length bm
    → 0 < base
    → base + 4095 + size < 2 ^ 32
    → IsValid (init bm base size)
      × ((init bm base size).total_pages ≡ size / 4096)
      × ((q : ℕ) → q < size / 4096 → test_bit (init bm base size).bitmap q ≡ false)
unfolding init
init-IsValid bm base size a room pos fits = (
  record {
    room = init_bitmap-room bm (size / 4096) room;
    words = init_bitmap-AllWords bm (size / 4096) a;
    counted = sym (count_free_all (init_bitmap bm (size / 4096)) (size / 4096) free);
    aligned = omega arith;
    above = omega arith;
    fits = omega arith;
  },
  refl,
  free,
)
  where
    free : (q : ℕ) → q < size / 4096 → test_bit (init_bitmap bm (size / 4096)) q ≡ false
    free q k = init_bitmap-free bm (size / 4096) q room k
