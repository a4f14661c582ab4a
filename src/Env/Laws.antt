-- ===== src/Env/Laws.antt =====
-- The laws of the environment store of kernel/initramfs/initramfs.c.
use eclipse32_gui.Base.{
  ℕ, ◌≤◌, ◌≡◌, refl, sym, Bool, true, false, Option, none, some, List, [], ◌∷◌, arith,
  if◌then◌else◌, length, take, take_all, Bool-cases, Option-cases, inl, inr, ◌⊎◌, ◌≢◌,
}
use eclipse32_gui.KString.{text}
use eclipse32_gui.KString.Copy.{text-kstrncpy}
use eclipse32_gui.KString.Compare.{kstrcmp-zero_iff}
use eclipse32_gui.Env.{
  EnvVar, EnvTable, holds_key, write_value, fill_slot, update_existing, add_new, env_set, env_get,
  env_unset,
}
use eclipse32_gui.Env.Table.{
  IsSlot, AllSlots, Missing, AtMostOnce, env_set_existing, env_set_new, env_set_full,
  holds_key-write_value, holds_key-fill_slot, holds_key-fill_slot_ne,
}

-- Two keys that one slot holds have the same text.
pub same_text :
    (v : EnvVar) (j k : List ℕ) → holds_key v j ≡ true → holds_key v k ≡ true → text j ≡ text k
unfolding holds_key
same_text v j k p q = ground (arith, kstrcmp-zero_iff v.key k, kstrcmp-zero_iff v.key j)

pub holds_key_unused : (v : EnvVar) (k : List ℕ) → v.used ≡ false → holds_key v k ≡ false
unfolding holds_key
holds_key_unused v k h = ground arith

abbrev pub has_free : EnvTable → Bool
has_free [] = false
has_free (v ∷ t) = if v.used then has_free t else true

abbrev pub is_some {ℓ} : {A : Type ℓ} → Option A → Bool
is_some none = false
is_some (some a) = true

abbrev pub value_text : Option (List ℕ) → Option (List ℕ)
value_text none = none
value_text (some b) = some (text b)

pub get_of_Missing : (t : EnvTable) (k : List ℕ) → Missing t k → env_get t k ≡ none
unfolding env_get
get_of_Missing [] k m = refl
get_of_Missing (v ∷ t) k m = ground (arith, get_of_Missing t k m.1)

not_updated :
    (t r : EnvTable) (k x : List ℕ) → env_get t k ≡ none → update_existing t k x ≡ some r → ⊥
unfolding update_existing env_get
not_updated [] r k x n e = ground arith
not_updated (v ∷ t) r k x n e = elim (Option-cases (update_existing t k x)) [
  | inl m ↦ ground arith
  | inr (r', f) ↦ ground (arith, not_updated t r' k x)
]

pub Missing-of_update : (t : EnvTable) (k x : List ℕ) → update_existing t k x ≡ none → Missing t k
unfolding update_existing
Missing-of_update [] k x e = tt
Missing-of_update (v ∷ t) k x e = elim (Option-cases (update_existing t k x)) [
  | inl n ↦ ground (arith, Missing-of_update t k x n)
  | inr (r, f) ↦ ground arith
]

-- The value in the slot that `write_value` or `fill_slot` leaves.
text-write_value :
    (v : EnvVar) (x : List ℕ) → IsSlot v → text (write_value v x).value ≡ take 255 (text x)
unfolding write_value
text-write_value v x w = text-kstrncpy v.value x 255 (omega arith) w.value_end

text-fill_slot :
    (v : EnvVar) (k x : List ℕ) → IsSlot v → text (fill_slot v k x).value ≡ take 255 (text x)
unfolding fill_slot
text-fill_slot v k x w = text-kstrncpy v.value x 255 (omega arith) w.value_end

get-update :
    (t r : EnvTable) (k x : List ℕ)
    → AllSlots t
    → update_existing t k x ≡ some r
    → value_text (env_get r k) ≡ some (take 255 (text x))
unfolding update_existing env_get
get-update [] r k x a e = ground arith
get-update (v ∷ t) r k x a e = elim (Bool-cases (holds_key v k)) [
  | inl h ↦ ground (arith, holds_key-write_value v x k, text-write_value v x a.0)
  | inr h ↦ elim (Option-cases (update_existing t k x)) [
    | inl n ↦ ground arith
    | inr (r', f) ↦ ground (arith, get-update t r' k x a.1 f)
  ]
]

get-update_ne :
    (t r : EnvTable) (k j x : List ℕ)
    → text j ≢ text k
    → update_existing t k x ≡ some r
    → env_get r j ≡ env_get t j
unfolding update_existing env_get
get-update_ne [] r k j x ne e = ground arith
get-update_ne (v ∷ t) r k j x ne e = elim (Bool-cases (holds_key v k)) [
  | inl h ↦ ground (arith, holds_key-write_value v x j, other h)
  | inr h ↦ elim (Option-cases (update_existing t k x)) [
    | inl n ↦ ground arith
    | inr (r', f) ↦ ground (arith, get-update_ne t r' k j x ne f)
  ]
]
  where
    other : holds_key v k ≡ true → holds_key v j ≡ false
    other h = elim (Bool-cases (holds_key v j)) [
      | inl q ↦ absurd (ne (same_text v j k q h))
      | inr q ↦ q
    ]

get-add :
    (t r : EnvTable) (k x : List ℕ)
    → AllSlots t
    → Missing t k
    → length (text k) ≤ 63
    → add_new t k x ≡ some r
    → value_text (env_get r k) ≡ some (take 255 (text x))
unfolding add_new env_get
get-add [] r k x a m s e = ground arith
get-add (v ∷ t) r k x a m s e = elim (Bool-cases v.used) [
  | inr h ↦ ground (
    arith,
    holds_key-fill_slot v k x k a.0 (sym (take_all 63 (text k) s)),
    text-fill_slot v k x a.0,
  )
  | inl h ↦ elim (Option-cases (add_new t k x)) [
    | inl n ↦ ground arith
    | inr (r', f) ↦ ground (arith, get-add t r' k x a.1 m.1 s f)
  ]
]

get-add_ne :
    (t r : EnvTable) (k j x : List ℕ)
    → AllSlots t
    → text j ≢ take 63 (text k)
    → add_new t k x ≡ some r
    → env_get r j ≡ env_get t j
unfolding add_new env_get
get-add_ne [] r k j x a ne e = ground arith
get-add_ne (v ∷ t) r k j x a ne e = elim (Bool-cases v.used) [
  | inr h ↦ ground (arith, holds_key-fill_slot_ne v k x j a.0 ne, holds_key_unused v j h)
  | inl h ↦ elim (Option-cases (add_new t k x)) [
    | inl n ↦ ground arith
    | inr (r', f) ↦ ground (arith, get-add_ne t r' k j x a.1 ne f)
  ]
]

add-ne-none : (t : EnvTable) (k x : List ℕ) → has_free t ≡ true → add_new t k x ≢ none
unfolding add_new
add-ne-none [] k x h = ground arith
add-ne-none (v ∷ t) k x h = ground (arith, add-ne-none t k x)

add_full : (t : EnvTable) (k x : List ℕ) → has_free t ≡ false → add_new t k x ≡ none
unfolding add_new
add_full [] k x h = refl
add_full (v ∷ t) k x h = ground (arith, add_full t k x)

-- There is a place for the key: a free slot, or the slot that holds it.
abbrev pub HasPlace : EnvTable → List ℕ → Type 0
HasPlace t k = (has_free t ≡ true) ⊎ (is_some (env_get t k) ≡ true)

-- In a table whose buffers are intact, when the key's text has at most 63 bytes and there is a free
-- slot or one that holds the key, `env_get` after `env_set` of that key gives the first 255 bytes
-- of the value's text.
pub env_get-env_set :
    (t : EnvTable) (k x : List ℕ)
    → AllSlots t
    → length (text k) ≤ 63
    → HasPlace t k
    → value_text (env_get (env_set t k x) k) ≡ some (take 255 (text x))
env_get-env_set t k x a s place = elim (Option-cases (update_existing t k x)) [
  | inr (r, e) ↦ rw (env_set_existing t k x e) (get-update t r k x a e)
  | inl n ↦
      let m = Missing-of_update t k x n in
      elim (Option-cases (add_new t k x)) [
        | inr (r, e) ↦ rw (env_set_new t k x n e) (get-add t r k x a m s e)
        | inl f ↦ absurd (ground (arith, add-ne-none t k x, get_of_Missing t k m))
      ]
]

-- `env_set` leaves what `env_get` gives for every other key as it was: one whose text is neither
-- the key's nor the first 63 bytes of it.
pub env_get-env_set_ne :
    (t : EnvTable) (k j x : List ℕ)
    → AllSlots t
    → text j ≢ text k
    → text j ≢ take 63 (text k)
    → env_get (env_set t k x) j ≡ env_get t j
env_get-env_set_ne t k j x a ne ne63 = elim (Option-cases (update_existing t k x)) [
  | inr (r, e) ↦ rw (env_set_existing t k x e) (get-update_ne t r k j x ne e)
  | inl n ↦ elim (Option-cases (add_new t k x)) [
    | inr (r, e) ↦ rw (env_set_new t k x n e) (get-add_ne t r k j x a ne63 e)
    | inl f ↦ rw (env_set_full t k x n f) refl
  ]
]

-- When no slot is free and none holds the key, `env_set` drops the value and changes nothing.
pub env_set_dropped :
    (t : EnvTable) (k x : List ℕ) → has_free t ≡ false → env_get t k ≡ none → env_set t k x ≡ t
env_set_dropped t k x full absent = elim (Option-cases (update_existing t k x)) [
  | inl n ↦ env_set_full t k x n (add_full t k x full)
  | inr (r, e) ↦ absurd (not_updated t r k x absent e)
]

unset_other :
    (t : EnvTable) (k j : List ℕ) → text j ≢ text k → env_get (env_unset t k) j ≡ env_get t j
unfolding env_get env_unset
unset_other [] k j ne = refl
unset_other (v ∷ t) k j ne = elim (Bool-cases (holds_key v k)) [
  | inl h ↦ elim (Bool-cases (holds_key v j)) [
    | inl q ↦ absurd (ne (same_text v j k q h))
    | inr q ↦ ground (arith, holds_key_unused (record v { used = false }) j refl)
  ]
  | inr h ↦ ground (arith, unset_other t k j ne)
]

unset_once : (t : EnvTable) (k : List ℕ) → AtMostOnce t k → env_get (env_unset t k) k ≡ none
unfolding env_get env_unset
unset_once [] k o = refl
unset_once (v ∷ t) k (inl (h, o)) = ground (arith, unset_once t k o)
unset_once (v ∷ t) k (inr (h, m)) =
    ground (arith, holds_key_unused (record v { used = false }) k refl, get_of_Missing t k m)

-- When at most one slot holds the key, `env_unset` removes it and leaves what every other key has.
pub env_get-env_unset :
    (t : EnvTable) (k : List ℕ)
    → AtMostOnce t k
    → (env_get (env_unset t k) k ≡ none)
      × ((j : List ℕ) → text j ≢ text k → env_get (env_unset t k) j ≡ env_get t j)
env_get-env_unset t k o = (unset_once t k o, λ j ne. unset_other t k j ne)
