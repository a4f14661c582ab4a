-- ===== src/Heap/Links.antt =====
-- The doubly linked free list of kernel/mm/heap.c.
use eclipse32_gui.Base.{ℕ, ◌+◌, ◌≤◌, ◌≡◌, ◌≢◌, ◌⊎◌, refl, ap, ◌∙◌, arith}
use eclipse32_gui.Heap.{Heap, hdr_size, next_of, prev_of, put, fl_remove, fl_add}

-- Headers that do not overlap.
abbrev pub AreApart : ℕ → ℕ → Type 0
AreApart a b = (a + hdr_size ≤ b) ⊎ (b + hdr_size ≤ a)

fl_add_lem :
    (b : ℕ) (h : Heap)
    → h.free_list ≢ 0
    → fl_add b h ≡ record (put (h.free_list + 12) b (put (b + 12) 0 (put (b + 8) h.free_list h))) {
      free_list = b;
    }
unfolding fl_add put
fl_add_lem b h nz = ground (arith, nz)

-- The heap with a block put on its list before the first.
abbrev added : ℕ → Heap → Heap
added b h = record (put (h.free_list + 12) b (put (b + 12) 0 (put (b + 8) h.free_list h))) {
  free_list = b;
}

added_prev : (b : ℕ) (h : Heap) → AreApart b h.free_list → prev_of b (added b h) ≡ 0
unfolding put
added_prev b h apart = ground (arith, apart)

added_next : (b : ℕ) (h : Heap) → AreApart b h.free_list → next_of b (added b h) ≡ h.free_list
unfolding put
added_next b h apart = ground (arith, apart)

-- Taking the first of two blocks or more off the list.
fl_remove_first :
    (b : ℕ) (h : Heap)
    → prev_of b h ≡ 0
    → next_of b h ≢ 0
    → fl_remove b h
      ≡ put
          (b + 8)
          0
          (put (b + 12) 0 (put (next_of b h + 12) 0 (record h { free_list = next_of b h })))
unfolding fl_remove
fl_remove_first b h p n = rw p (ground (arith, p, n))

abbrev removed : ℕ → Heap → Heap
removed b h =
    put (b + 8) 0
      (put (b + 12) 0 (put (h.free_list + 12) 0 (record (added b h) { free_list = h.free_list })))

removed_word :
    (b x : ℕ) (h : Heap)
    → prev_of h.free_list h ≡ 0
    → x ≢ b + 8
    → x ≢ b + 12
    → (removed b h).mem x ≡ h.mem x
unfolding put
removed_word b x h first x1 x2 = grind (arith, first, x1, x2)

both_steps :
    (b : ℕ) (h : Heap)
    → h.free_list ≢ 0
    → AreApart b h.free_list
    → fl_remove b (fl_add b h) ≡ removed b h
both_steps b h nz apart =
    let n = added_next b h apart in
    rw (fl_add_lem b h nz) (
      fl_remove_first b (added b h) (added_prev b h apart) (rw n nz)
      ∙ ap
          (λ f.
            put (b + 8) 0 (put (b + 12) 0 (put (f + 12) 0 (record (added b h) { free_list = f }))))
          n)

-- A block that is put on a list that is not empty and whose first block has no previous one, and is
-- taken off again, leaves the list's head and every word but its own links as they were.
pub fl_remove-fl_add :
    (b x : ℕ) (h : Heap)
    → h.free_list ≢ 0
    → prev_of h.free_list h ≡ 0
    → AreApart b h.free_list
    → x ≢ b + 8
    → x ≢ b + 12
    → ((fl_remove b (fl_add b h)).free_list ≡ h.free_list)
      × ((fl_remove b (fl_add b h)).mem x ≡ h.mem x)
unfolding put
fl_remove-fl_add b x h nz first apart x1 x2 =
    rw (both_steps b h nz apart) (refl, removed_word b x h first x1 x2)
