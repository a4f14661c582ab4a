-- ===== src/KString/Tests.antt =====
-- Runs of the string routines of kernel/initramfs/initramfs.c, and their theorems at short buffers.
use eclipse32_gui.Base.{ℕ, ◌≡◌, refl, none, some, List, [], ◌∷◌, arith}
use eclipse32_gui.Base.Int.{pos, negsuc}
use eclipse32_gui.KString.{
  text, kstrcmp, kstrncmp, kstrlen, kstrncpy, kstrchr, kstrrchr, kmemset, kmemcmp, memmove,
}
use eclipse32_gui.KString.Copy.{text-kstrncpy}
use eclipse32_gui.KString.Move.{memmove_lem}

abbrev letter : List ℕ
letter = b'a' ∷ []

abbrev usr : List ℕ
usr = b'u' ∷ b's' ∷ b'r' ∷ []

compare_runs : kstrcmp usr (b'u' ∷ b't' ∷ []) ≡ negsuc 0
unfolding kstrcmp
compare_runs = refl

prefix_runs : kstrncmp usr (b'u' ∷ b's' ∷ b'x' ∷ []) 2 ≡ pos 0
unfolding kstrncmp
prefix_runs = refl

chr_runs : (kstrchr usr b'r' ≡ some 2) × (kstrchr usr 0 ≡ some 3) × (kstrrchr usr b'x' ≡ none)
unfolding kstrchr kstrrchr
chr_runs = (refl, refl, refl)

set_runs : kmemset (1 ∷ 2 ∷ 3 ∷ []) 257 2 ≡ 1 ∷ 1 ∷ 3 ∷ []
unfolding kmemset
set_runs = refl

cmp_runs : kmemcmp (1 ∷ 2 ∷ []) (1 ∷ 1 ∷ []) 2 ≡ pos 1
unfolding kmemcmp
cmp_runs = refl

len_runs : kstrlen (1 ∷ 2 ∷ 0 ∷ 3 ∷ []) ≡ 2
unfolding kstrlen
len_runs = refl

move_runs : memmove 1 0 3 (λ a. a) 3 ≡ 2
unfolding memmove
move_runs = refl

text-kstrncpy_example : text (kstrncpy (9 ∷ 9 ∷ 0 ∷ []) usr 2) ≡ b'u' ∷ b's' ∷ []
text-kstrncpy_example = text-kstrncpy (9 ∷ 9 ∷ 0 ∷ []) usr 2 (omega arith) refl

memmove_lem_example : memmove 1 0 3 (λ a. a) 3 ≡ 2
memmove_lem_example = memmove_lem 1 0 3 (λ a. a) 3
