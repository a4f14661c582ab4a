-- ===== src/Env/Table.antt =====
-- The invariant of the environment table, and that its operations keep it.
use eclipse32_gui.Base.{
  ℕ, ◌≡◌, refl, true, false, none, some, List, [], ◌∷◌, arith, length, get_or, take, Bool-cases,
  Option-cases, inl, inr, ◌⊎◌,
}
use eclipse32_gui.KString.{text, kstrncpy}
use eclipse32_gui.KString.Compare.{kstrcmp-zero_iff}
use eclipse32_gui.KString.Copy.{length-kstrncpy, get_or-kstrncpy_ge, text-kstrncpy}
use eclipse32_gui.Env.{
  EnvVar, EnvTable, holds_key, write_value, fill_slot, update_existing, add_new, env_set,
}

-- Both buffers have their declared size, and the last byte of each is a NUL.
pub record IsSlot (v : EnvVar) : Type 0 where
  pub key_size : length v.key ≡ 64
  pub key_end : get_or v.key 63 1 ≡ 0
  pub value_size : length v.value ≡ 256
  pub value_end : get_or v.value 255 1 ≡ 0

abbrev pub AllSlots : EnvTable → Type 0
AllSlots [] = Unit {0}
AllSlots (v ∷ t) = IsSlot v × AllSlots t

pub write_value-IsSlot : (v : EnvVar) (x : List ℕ) → IsSlot v → IsSlot (write_value v x)
unfolding write_value
write_value-IsSlot v x w =
    omega
      (arith, length-kstrncpy v.value x 255, get_or-kstrncpy_ge v.value x 255 255 1 (omega arith))

pub fill_slot-IsSlot : (v : EnvVar) (k x : List ℕ) → IsSlot v → IsSlot (fill_slot v k x)
unfolding fill_slot
fill_slot-IsSlot v k x w = omega (
  arith,
  length-kstrncpy v.value x 255,
  length-kstrncpy v.key k 63,
  get_or-kstrncpy_ge v.value x 255 255 1 (omega arith),
  get_or-kstrncpy_ge v.key k 63 63 1 (omega arith),
)

update_existing-AllSlots :
    (t r : EnvTable) (k x : List ℕ) → AllSlots t → update_existing t k x ≡ some r → AllSlots r
unfolding update_existing
update_existing-AllSlots [] r k x a e = ground arith
update_existing-AllSlots (v ∷ t) r k x a e = elim (Bool-cases (holds_key v k)) [
  | inl h ↦ ground (arith, write_value-IsSlot v x a.0)
  | inr h ↦ elim (Option-cases (update_existing t k x)) [
    | inl n ↦ ground arith
    | inr (r', f) ↦ ground (arith, update_existing-AllSlots t r' k x a.1 f)
  ]
]

add_new-AllSlots :
    (t r : EnvTable) (k x : List ℕ) → AllSlots t → add_new t k x ≡ some r → AllSlots r
unfolding add_new
add_new-AllSlots [] r k x a e = ground arith
add_new-AllSlots (v ∷ t) r k x a e = elim (Bool-cases v.used) [
  | inr h ↦ ground (arith, fill_slot-IsSlot v k x a.0)
  | inl h ↦ elim (Option-cases (add_new t k x)) [
    | inl n ↦ ground arith
    | inr (r', f) ↦ ground (arith, add_new-AllSlots t r' k x a.1 f)
  ]
]

module _ (t : EnvTable) (k x : List ℕ) where
  pub env_set_existing : {r : EnvTable} → update_existing t k x ≡ some r → env_set t k x ≡ r
  unfolding env_set
  env_set_existing e = rw (e, env_set) refl

  pub env_set_new :
      {r : EnvTable} → update_existing t k x ≡ none → add_new t k x ≡ some r → env_set t k x ≡ r
  unfolding env_set
  env_set_new e f = rw (e, f, env_set) refl

  pub env_set_full : update_existing t k x ≡ none → add_new t k x ≡ none → env_set t k x ≡ t
  unfolding env_set
  env_set_full e f = rw (e, f, env_set) refl

-- `env_set` keeps every slot's two buffers at their declared size, with a NUL as last byte.
pub env_set-AllSlots : (t : EnvTable) (k x : List ℕ) → AllSlots t → AllSlots (env_set t k x)
env_set-AllSlots t k x a = elim (Option-cases (update_existing t k x)) [
  | inr (r, e) ↦ rw (env_set_existing t k x e) (update_existing-AllSlots t r k x a e)
  | inl n ↦ elim (Option-cases (add_new t k x)) [
    | inr (r, e) ↦ rw (env_set_new t k x n e) (add_new-AllSlots t r k x a e)
    | inl m ↦ rw (env_set_full t k x n m) a
  ]
]

-- At most one slot in use holds the key.
abbrev pub Missing : EnvTable → List ℕ → Type 0
Missing [] k = Unit {0}
Missing (v ∷ t) k = (holds_key v k ≡ false) × Missing t k

abbrev pub AtMostOnce : EnvTable → List ℕ → Type 0
AtMostOnce [] k = Unit {0}
AtMostOnce (v ∷ t) k =
    ((holds_key v k ≡ false) × AtMostOnce t k) ⊎ ((holds_key v k ≡ true) × Missing t k)

-- The slot after a write holds the key exactly as before.
pub holds_key-write_value :
    (v : EnvVar) (x k : List ℕ) → holds_key (write_value v x) k ≡ holds_key v k
unfolding holds_key write_value
holds_key-write_value v x k = refl

-- Equal texts are held alike.
pub holds_key_congr :
    (v : EnvVar) (k j : List ℕ) → text k ≡ text j → holds_key v k ≡ true → holds_key v j ≡ true
unfolding holds_key
holds_key_congr v k j e h = ground (arith, kstrcmp-zero_iff v.key k, kstrcmp-zero_iff v.key j)

-- A filled slot holds the texts whose text is the first 63 bytes of the key.
pub holds_key-fill_slot :
    (v : EnvVar) (k x j : List ℕ)
    → IsSlot v
    → text j ≡ take 63 (text k)
    → holds_key (fill_slot v k x) j ≡ true
unfolding holds_key fill_slot
holds_key-fill_slot v k x j w e = ground (
  arith,
  kstrcmp-zero_iff (kstrncpy v.key k 63) j,
  text-kstrncpy v.key k 63 (omega arith) w.key_end,
)

pub holds_key-fill_slot_ne :
    (v : EnvVar) (k x j : List ℕ)
    → IsSlot v
    → (text j ≡ take 63 (text k) → ⊥)
    → holds_key (fill_slot v k x) j ≡ false
unfolding holds_key fill_slot
holds_key-fill_slot_ne v k x j w ne = ground (
  arith,
  kstrcmp-zero_iff (kstrncpy v.key k 63) j,
  text-kstrncpy v.key k 63 (omega arith) w.key_end,
)
