-- ===== src/Fat/Case.antt =====
-- The 8.3 names of kernel/fs/fat32/fat32.c do not tell small letters from capitals.
use eclipse32_gui.Base.{
  ℕ, zero, suc, ◌≡◌, refl, ap, ap₂, ◌∙◌, List, [], ◌∷◌, ◌++◌, map, inl, inr, ◌==◌, length, arith,
  Bool-cases, ◌||◌, length-append,
}
use eclipse32_gui.Fat.Names.{upper, last_part, base_field, ext_field, after_dot, name_to_83}

upper-upper : (c : ℕ) → upper (upper c) ≡ upper c
upper-upper c = ground arith

upper-zero : (c : ℕ) → (upper c == 0) ≡ (c == 0)
upper-zero c = ground arith

upper-dot : (c : ℕ) → (upper c == b'.') ≡ (c == b'.')
upper-dot c = ground arith

upper-slash : (c : ℕ) → (upper c == b'/') ≡ (c == b'/')
upper-slash c = ground arith

last_part-map : (p l : List ℕ) → last_part (map upper p) (map upper l) ≡ map upper (last_part p l)
unfolding last_part
last_part-map [] l = refl
last_part-map (c ∷ p) l = rw (upper-zero c) (
    rw (upper-slash c) (elim (Bool-cases (c == 0)) [
      | inl e ↦ rw e refl
      | inr e ↦ rw e (elim (Bool-cases (c == b'/')) [
        | inl s ↦ rw s (last_part-map p p)
        | inr s ↦ rw s (last_part-map p l)
      ])
    ]))

base_field-map : (n : ℕ) (s : List ℕ) → base_field n (map upper s) ≡ base_field n s
unfolding base_field
base_field-map zero s = refl
base_field-map (suc n) [] = refl
base_field-map (suc n) (c ∷ s) = rw (upper-zero c) (
    rw (upper-dot c) (elim (Bool-cases (c == 0 || c == b'.')) [
      | inl e ↦ rw e refl
      | inr e ↦ rw e (ap₂ (λ x y. x ∷ y) (upper-upper c) (base_field-map n s))
    ]))

ext_field-map : (n : ℕ) (s : List ℕ) → ext_field n (map upper s) ≡ ext_field n s
unfolding ext_field
ext_field-map zero s = refl
ext_field-map (suc n) [] = refl
ext_field-map (suc n) (c ∷ s) = rw (upper-zero c) (elim (Bool-cases (c == 0)) [
  | inl e ↦ rw e refl
  | inr e ↦ rw e (ap₂ (λ x y. x ∷ y) (upper-upper c) (ext_field-map n s))
])

after_dot-map : (s : List ℕ) → after_dot (map upper s) ≡ map upper (after_dot s)
unfolding after_dot
after_dot-map [] = refl
after_dot-map (c ∷ s) = rw (upper-zero c) (
    rw (upper-dot c) (elim (Bool-cases (c == 0)) [
      | inl e ↦ rw e refl
      | inr e ↦
          rw e
            (elim (Bool-cases (c == b'.')) [ inl d ↦ rw d refl | inr d ↦ rw d (after_dot-map s) ])
    ]))

length-base_field : (n : ℕ) (s : List ℕ) → length (base_field n s) ≡ n
unfolding base_field
length-base_field zero s = refl
length-base_field (suc n) [] = ap suc (length-base_field n [])
length-base_field (suc n) (c ∷ s) = ap suc (length-base_field n _)

length-ext_field : (n : ℕ) (s : List ℕ) → length (ext_field n s) ≡ n
unfolding ext_field
length-ext_field zero s = refl
length-ext_field (suc n) [] = ap suc (length-ext_field n [])
length-ext_field (suc n) (c ∷ s) = ap suc (length-ext_field n _)

-- For every path, the name that `name_to_83` makes of its last component has eleven bytes, and it
-- is the name made of the path in capitals: the names do not tell capitals from small letters.
pub name_to_83-map :
    (path : List ℕ)
    → (length (name_to_83 path) ≡ 11) × (name_to_83 (map upper path) ≡ name_to_83 path)
unfolding name_to_83
name_to_83-map path =
    let last = last_part path path in
    (
      omega (
        arith,
        length-append (base_field 8 last) (ext_field 3 (after_dot last)),
        length-base_field 8 last,
        length-ext_field 3 (after_dot last),
      ),
      rw (last_part-map path path) (
          ap₂ (λ x y. x ++ y) (base_field-map 8 last)
            (ap (ext_field 3) (after_dot-map last) ∙ ext_field-map 3 (after_dot last))),
    )
