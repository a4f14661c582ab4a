-- ===== src/KString/Compare.antt =====
-- What the comparisons of kernel/initramfs/initramfs.c decide.
use eclipse32_gui.Base.{ℕ, zero, suc, ◌≡◌, refl, ◌↔◌, true, List, [], ◌∷◌, arith, length, take}
use eclipse32_gui.Base.Int.{ℤ, pos}
use eclipse32_gui.KString.{text, is_zero, kstrcmp, kstrncmp, kstrlen}

pub is_zero→ : (z : ℤ) → is_zero z ≡ true → z ≡ pos 0
is_zero→ z h = ground arith

-- `kstrcmp` gives 0 on equal texts.
kstrcmp_of_eq : (a b : List ℕ) → text a ≡ text b → is_zero (kstrcmp a b) ≡ true
unfolding kstrcmp
kstrcmp_of_eq [] [] h = refl
kstrcmp_of_eq [] (y ∷ b) h = ground arith
kstrcmp_of_eq (x ∷ a) [] h = ground arith
kstrcmp_of_eq (x ∷ a) (y ∷ b) h = ground (arith, kstrcmp_of_eq a b)

kstrcmp_zero : (a b : List ℕ) → is_zero (kstrcmp a b) ≡ true → text a ≡ text b
unfolding kstrcmp
kstrcmp_zero [] [] h = refl
kstrcmp_zero [] (y ∷ b) h = ground arith
kstrcmp_zero (x ∷ a) [] h = ground arith
kstrcmp_zero (x ∷ a) (y ∷ b) h = ground (arith, kstrcmp_zero a b)

-- `kstrcmp` returns 0 exactly when the two buffers hold the same text up to their first NUL,
-- whatever stands behind it.
pub kstrcmp-zero_iff : (a b : List ℕ) → (is_zero (kstrcmp a b) ≡ true) ↔ (text a ≡ text b)
kstrcmp-zero_iff a b = (kstrcmp_zero a b, kstrcmp_of_eq a b)

take-text-zero :
    (n : ℕ) (a b : List ℕ) → is_zero (kstrncmp a b n) ≡ true → take n (text a) ≡ take n (text b)
unfolding kstrncmp
take-text-zero zero a b h = refl
take-text-zero (suc n) [] [] h = refl
take-text-zero (suc n) [] (y ∷ b) h = ground arith
take-text-zero (suc n) (x ∷ a) [] h = ground arith
take-text-zero (suc n) (x ∷ a) (y ∷ b) h = ground (arith, take-text-zero n a b)

zero_of_take-text :
    (n : ℕ) (a b : List ℕ) → take n (text a) ≡ take n (text b) → is_zero (kstrncmp a b n) ≡ true
unfolding kstrncmp
zero_of_take-text zero a b h = refl
zero_of_take-text (suc n) [] [] h = refl
zero_of_take-text (suc n) [] (y ∷ b) h = ground arith
zero_of_take-text (suc n) (x ∷ a) [] h = ground arith
zero_of_take-text (suc n) (x ∷ a) (y ∷ b) h = ground (arith, zero_of_take-text n a b)

-- `kstrncmp` returns 0 exactly when the first `n` bytes of the two texts agree.
pub kstrncmp-zero_iff :
    (n : ℕ) (a b : List ℕ) → (is_zero (kstrncmp a b n) ≡ true) ↔ (take n (text a) ≡ take n (text b))
kstrncmp-zero_iff n a b = (take-text-zero n a b, zero_of_take-text n a b)

pub kstrlen-length : (s : List ℕ) → kstrlen s ≡ length (text s)
unfolding kstrlen
kstrlen-length [] = refl
kstrlen-length (c ∷ s) = ground (arith, kstrlen-length s)
