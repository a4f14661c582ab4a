-- ===== src/Loader/Bounds.antt =====
-- What an accepted header of kernel/exec/e32_loader.c promises, and where the program's heap lies.
use eclipse32_gui.Base.{
  ℕ, ◌+◌, ◌*◌, ◌/◌, ◌^◌, ◌≤◌, ◌<◌, ◌≡◌, refl, inl, inr, ◌⊎◌, true, ltb, arith, Bool-cases,
}
use eclipse32_gui.Fat.{add32}
use eclipse32_gui.Syscall.{Sys, syscall_set_app_heap}
use eclipse32_gui.Syscall.Heap.{HeapInOrder}
use eclipse32_gui.Loader.{Header, header_bytes, runtime_max, e32_validate, set_up_heap}

-- A header that is accepted has its entry point inside the image, its code and its data no larger
-- than the image, its code behind itself, and an image that with its zeroed part fits the array.
pub e32_validate_lem :
    (h : Header) (file_size : ℕ)
    → e32_validate h file_size ≡ true
    → (header_bytes ≤ h.header_size)
      × (h.header_size ≤ h.code_offset)
      × (h.entry_offset < h.image_size)
      × (h.code_size ≤ h.image_size)
      × (h.data_size ≤ h.image_size)
      × (h.image_size + h.bss_size ≤ runtime_max)
unfolding e32_validate
e32_validate_lem h file_size e = ground (arith, e)

-- For an accepted header, and an array that ends below the end of memory, the heap that the loader
-- sets up is in order, and it is empty at 0 or lies in the array behind the image and its zeroed
-- part.
pub set_up_heap_lem :
    (runtime : ℕ) (h : Header) (file_size : ℕ) (s : Sys)
    → runtime + runtime_max + 4096 ≤ 2 ^ 32
    → e32_validate h file_size ≡ true
    → let t = set_up_heap runtime h s in
      HeapInOrder t
      × ((t.brk_limit ≡ 0)
          ⊎ ((runtime + h.image_size + h.bss_size ≤ t.brk_base)
              × (t.brk_limit ≤ runtime + runtime_max)))
unfolding set_up_heap syscall_set_app_heap
set_up_heap_lem runtime h file_size s r e =
    let (small, behind, entry, code, initial, fits) = e32_validate_lem h file_size e in
    let base = add32 (add32 (add32 runtime h.image_size) h.bss_size) 4095 / 4096 * 4096 in
    elim (Bool-cases (ltb base (add32 runtime runtime_max))) [
      | inl l ↦
          rw l ((omega arith, ground (arith, l)), inr (omega (arith, fits, r), omega (arith, r)))
      | inr l ↦ rw l ((omega arith, omega arith), inl refl)
    ]
