-- ===== src/KString/Copy.antt =====
-- What the copies into a buffer of kernel/initramfs/initramfs.c leave there.
use eclipse32_gui.Base.{
  ℕ, zero, suc, ◌+◌, ◌≤◌, ◌<◌, ◌≡◌, refl, ap, some, List, [], ◌∷◌, ◌++◌, arith, ◌==◌, if◌then◌else◌,
  length, get_or, take, Bool-cases, inl, inr,
}
use eclipse32_gui.KString.{text, kstrncpy, kstrcpy, kstrcat}

pub length-kstrncpy : (dst src : List ℕ) (n : ℕ) → length (kstrncpy dst src n) ≡ length dst
unfolding kstrncpy
length-kstrncpy [] src n = refl
length-kstrncpy (d ∷ dst) src zero = refl
length-kstrncpy (d ∷ dst) [] (suc n) = ap suc (length-kstrncpy dst [] n)
length-kstrncpy (d ∷ dst) (c ∷ src) (suc n) =
    ap suc (length-kstrncpy dst (if c == 0 then [] else src) n)

-- The bytes from `n` on are not written.
pub get_or-kstrncpy_ge :
    (dst src : List ℕ) (n i d : ℕ) → n ≤ i → get_or (kstrncpy dst src n) i d ≡ get_or dst i d
unfolding kstrncpy
get_or-kstrncpy_ge [] src n i d h = refl
get_or-kstrncpy_ge (x ∷ dst) src zero i d h = refl
get_or-kstrncpy_ge (x ∷ dst) src (suc n) zero d h = absurd (omega arith)
get_or-kstrncpy_ge (x ∷ dst) [] (suc n) (suc i) d h = get_or-kstrncpy_ge dst [] n i d (omega arith)
get_or-kstrncpy_ge (x ∷ dst) (c ∷ src) (suc n) (suc i) d h =
    get_or-kstrncpy_ge dst (if c == 0 then [] else src) n i d (omega arith)

text-kstrncpy_nil :
    (dst : List ℕ) (n : ℕ) → n < length dst → get_or dst n 1 ≡ 0 → text (kstrncpy dst [] n) ≡ []
unfolding kstrncpy
text-kstrncpy_nil [] n h e = absurd (omega arith)
text-kstrncpy_nil (x ∷ dst) zero h e = ground arith
text-kstrncpy_nil (x ∷ dst) (suc n) h e = refl

-- With a NUL kept at index `n`, `kstrncpy` leaves the first `n` bytes of the text of `src`.
pub text-kstrncpy :
    (dst src : List ℕ) (n : ℕ)
    → n < length dst
    → get_or dst n 1 ≡ 0
    → text (kstrncpy dst src n) ≡ take n (text src)
unfolding kstrncpy
text-kstrncpy [] src n h e = absurd (omega arith)
text-kstrncpy (x ∷ dst) src zero h e = ground arith
text-kstrncpy (x ∷ dst) [] (suc n) h e = refl
text-kstrncpy (x ∷ dst) (c ∷ src) (suc n) h e = elim (Bool-cases (c == 0)) [
  | inl z ↦ rw z refl
  | inr p ↦ rw p (ap (λ t. c ∷ t) (text-kstrncpy dst src n (omega arith) e))
]

kstrcpy_fits :
    (dst src : List ℕ)
    → length (text src) < length dst
    → (r : List ℕ) × (kstrcpy dst src ≡ some r) × (text r ≡ text src) × (length r ≡ length dst)
unfolding kstrcpy
kstrcpy_fits [] src h = absurd (omega arith)
kstrcpy_fits (d ∷ dst) [] h = (0 ∷ dst, refl, refl, refl)
kstrcpy_fits (d ∷ dst) (c ∷ src) h = elim (Bool-cases (c == 0)) [
  | inl z ↦ (0 ∷ dst, rw z refl, rw z refl, refl)
  | inr p ↦
      let (r, e, t, l) = kstrcpy_fits dst src (ground arith) in
      (c ∷ r, ground arith, ground arith, ap suc l)
]

-- `kstrcat` appends the text of `src` to that of `dst` when both fit with one NUL, keeping the
-- buffer's size.
pub kstrcat-append :
    (dst src : List ℕ)
    → length (text dst) + length (text src) < length dst
    → (r : List ℕ) × (kstrcat dst src ≡ some r)
      × (text r ≡ text dst ++ text src)
      × (length r ≡ length dst)
unfolding kstrcat
kstrcat-append [] src h = absurd (omega arith)
kstrcat-append (d ∷ dst) src h = elim (Bool-cases (d == 0)) [
  | inl z ↦ let (r, e, t, l) = kstrcpy_fits (d ∷ dst) src (ground arith) in (r, rw z e, rw z t, l)
  | inr p ↦
      let (r, e, t, l) = kstrcat-append dst src (ground arith) in
      (d ∷ r, ground arith, ground arith, ap suc l)
]
