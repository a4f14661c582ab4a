-- ===== src/Heap/Given.antt =====
-- What a request of kmalloc of kernel/mm/heap.c comes to.
use eclipse32_gui.Base.{
  ℕ, ◌+◌, ◌*◌, ◌/◌, ◌<◌, ◌≤◌, ◌⊎◌, false, List, [], ◌∷◌, Option, none, some, ◌≡◌,
}
use mathlib.Core.Option
use eclipse32_gui.Pmm.{u32}
use eclipse32_gui.Heap.{Heap, hdr_size, min_block, data_size, is_free, next_of, prev_of}
use eclipse32_gui.Heap.Split.{IsOutside, IsSplit}

-- The neighbours of a block on the list, and the list's head where that is another block, are outside
-- the block, whose size is a word.
abbrev pub IsLoose : Heap → ℕ → Type 0
IsLoose h b =
    (data_size b h < u32)
    × IsOutside (prev_of b h) b (data_size b h)
    × IsOutside (next_of b h) b (data_size b h)
    × ((prev_of b h ≡ 0) ⊎ IsOutside h.free_list b (data_size b h))

abbrev pub AreLoose : Heap → List ℕ → Type 0
AreLoose h [] = Unit
AreLoose h (b ∷ bs) = IsLoose h b × AreLoose h bs

-- The size asked for, rounded up to a multiple of 8.
abbrev pub rounded : ℕ → ℕ
rounded n = (n + 7) / 8 * 8

-- What a request for `size` bytes comes to in the heap `h`, by the block that is found: the answer and
-- the heap after it.
abbrev pub IsAnswer : ℕ → Heap → Option ℕ → ℕ × Heap → Type 0
IsAnswer size h none r = r ≡ (0, h)
IsAnswer size h (some b) r =
    (r.0 ≡ b + hdr_size)
    × (is_free b r.1 ≡ false)
    × (((data_size b h < size + min_block) × (data_size b r.1 ≡ data_size b h))
        ⊎ ((size + min_block ≤ data_size b h) × IsSplit b size (data_size b h) r.1))
