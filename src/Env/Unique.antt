-- ===== src/Env/Unique.antt =====
-- No key stands in two slots of the table of kernel/initramfs/initramfs.c, and what happens to a key
-- that is longer than a slot's buffer.
use eclipse32_gui.Base.{
  ℕ, zero, suc, ◌≤◌, ◌<◌, ◌≡◌, refl, ap, ◌∙◌, false, none, some, List, [], ◌∷◌, arith, length,
  get_or, take, take_all, Bool-cases, Option-cases, inl, inr, ◌≢◌,
}
use eclipse32_gui.KString.{text, is_zero, kstrcmp}
use eclipse32_gui.KString.Compare.{kstrcmp-zero_iff}
use eclipse32_gui.Env.{
  EnvTable, holds_key, fill_slot, update_existing, add_new, env_set, env_get, env_unset, clear_used,
}
use eclipse32_gui.Env.Table.{
  AllSlots, Missing, AtMostOnce, env_set_existing, env_set_new, env_set_full, holds_key_congr,
  holds_key-write_value, holds_key-fill_slot_ne, env_set-AllSlots,
}
use eclipse32_gui.Env.Laws.{holds_key_unused, Missing-of_update, get_of_Missing}

update-Missing :
    (t r : EnvTable) (k x j : List ℕ) → update_existing t k x ≡ some r → Missing t j → Missing r j
unfolding update_existing
update-Missing [] r k x j e m = ground arith
update-Missing (v ∷ t) r k x j e m = elim (Bool-cases (holds_key v k)) [
  | inl h ↦ ground (arith, holds_key-write_value v x j)
  | inr h ↦ elim (Option-cases (update_existing t k x)) [
    | inl n ↦ ground arith
    | inr (r', f) ↦ ground (arith, update-Missing t r' k x j f m.1)
  ]
]

update-AtMostOnce :
    (t r : EnvTable) (k x j : List ℕ)
    → update_existing t k x ≡ some r
    → AtMostOnce t j
    → AtMostOnce r j
unfolding update_existing
update-AtMostOnce [] r k x j e o = ground arith
update-AtMostOnce (v ∷ t) r k x j e o = elim (Bool-cases (holds_key v k)) [
  | inl h ↦ ground (arith, holds_key-write_value v x j)
  | inr h ↦ elim (Option-cases (update_existing t k x)) [
    | inl n ↦ ground arith
    | inr (r', f) ↦ elim o [
      | inl p ↦ ground (arith, update-AtMostOnce t r' k x j f p.1)
      | inr p ↦ ground (arith, update-Missing t r' k x j f p.1)
    ]
  ]
]

once_of_Missing : (t : EnvTable) (j : List ℕ) → Missing t j → AtMostOnce t j
once_of_Missing [] j m = tt
once_of_Missing (v ∷ t) j m = inl (m.0, once_of_Missing t j m.1)

-- A key whose slot is new.
add-once : (t r : EnvTable) (k x j : List ℕ) → Missing t j → add_new t k x ≡ some r → AtMostOnce r j
unfolding add_new
add-once [] r k x j m e = ground arith
add-once (v ∷ t) r k x j m e = elim (Bool-cases v.used) [
  | inr h ↦ elim (Bool-cases (holds_key (fill_slot v k x) j)) [
    | inl q ↦ ground arith
    | inr q ↦ ground (arith, once_of_Missing t j m.1)
  ]
  | inl h ↦ elim (Option-cases (add_new t k x)) [
    | inl n ↦ ground arith
    | inr (r', f) ↦ ground (arith, add-once t r' k x j m.1 f)
  ]
]

add-Missing_ne :
    (t r : EnvTable) (k x j : List ℕ)
    → AllSlots t
    → text j ≢ take 63 (text k)
    → Missing t j
    → add_new t k x ≡ some r
    → Missing r j
unfolding add_new
add-Missing_ne [] r k x j a ne m e = ground arith
add-Missing_ne (v ∷ t) r k x j a ne m e = elim (Bool-cases v.used) [
  | inr h ↦ ground (arith, holds_key-fill_slot_ne v k x j a.0 ne)
  | inl h ↦ elim (Option-cases (add_new t k x)) [
    | inl n ↦ ground arith
    | inr (r', f) ↦ ground (arith, add-Missing_ne t r' k x j a.1 ne m.1 f)
  ]
]

add-AtMostOnce_ne :
    (t r : EnvTable) (k x j : List ℕ)
    → AllSlots t
    → text j ≢ take 63 (text k)
    → AtMostOnce t j
    → add_new t k x ≡ some r
    → AtMostOnce r j
unfolding add_new
add-AtMostOnce_ne [] r k x j a ne o e = ground arith
add-AtMostOnce_ne (v ∷ t) r k x j a ne o e = elim (Bool-cases v.used) [
  | inr h ↦ ground (arith, holds_key-fill_slot_ne v k x j a.0 ne, holds_key_unused v j h)
  | inl h ↦ elim (Option-cases (add_new t k x)) [
    | inl n ↦ ground arith
    | inr (r', f) ↦ elim o [
      | inl p ↦ ground (arith, add-AtMostOnce_ne t r' k x j a.1 ne p.1 f)
      | inr p ↦ ground (arith, add-Missing_ne t r' k x j a.1 ne p.1 f)
    ]
  ]
]

Missing-congr : (t : EnvTable) (k j : List ℕ) → text j ≡ text k → Missing t k → Missing t j
Missing-congr [] k j e m = tt
Missing-congr (v ∷ t) k j e m = elim (Bool-cases (holds_key v j)) [
  | inl q ↦ ground (arith, holds_key_congr v j k e q)
  | inr q ↦ (q, Missing-congr t k j e m.1)
]

-- `env_set` of a key of at most 63 bytes keeps every key in at most one slot.
pub env_set-AtMostOnce :
    (t : EnvTable) (k x j : List ℕ)
    → AllSlots t
    → length (text k) ≤ 63
    → AtMostOnce t j
    → AtMostOnce (env_set t k x) j
env_set-AtMostOnce t k x j a s o = elim (Option-cases (update_existing t k x)) [
  | inr (r, e) ↦ rw (env_set_existing t k x e) (update-AtMostOnce t r k x j e o)
  | inl n ↦ elim (Option-cases (add_new t k x)) [
    | inl f ↦ rw (env_set_full t k x n f) o
    | inr (r, f) ↦ rw (env_set_new t k x n f) (elim (Bool-cases (is_zero (kstrcmp j k))) [
      | inl q ↦
          let same = (kstrcmp-zero_iff j k).0 q in
          add-once t r k x j (Missing-congr t k j same (Missing-of_update t k x n)) f
      | inr q ↦ add-AtMostOnce_ne t r k x j a (λ e. not_zero q (e ∙ take_all 63 (text k) s)) o f
    ])
  ]
]
  where
    not_zero : is_zero (kstrcmp j k) ≡ false → text j ≡ text k → ⊥
    not_zero q e = ground (arith, kstrcmp-zero_iff j k)

unset-Missing : (t : EnvTable) (k j : List ℕ) → Missing t j → Missing (env_unset t k) j
unfolding env_unset
unset-Missing [] k j m = tt
unset-Missing (v ∷ t) k j m =
    ground (arith, holds_key_unused (record v { used = false }) j refl, unset-Missing t k j m.1)

-- `env_unset` keeps every key in at most one slot.
pub env_unset-AtMostOnce :
    (t : EnvTable) (k j : List ℕ) → AtMostOnce t j → AtMostOnce (env_unset t k) j
unfolding env_unset
env_unset-AtMostOnce [] k j o = tt
env_unset-AtMostOnce (v ∷ t) k j (inl (h, o)) =
    ground
      (arith, holds_key_unused (record v { used = false }) j refl, env_unset-AtMostOnce t k j o)
env_unset-AtMostOnce (v ∷ t) k j (inr (h, m)) = ground (
  arith,
  holds_key_unused (record v { used = false }) j refl,
  once_of_Missing t j m,
  unset-Missing t k j m,
)

pub clear_used-Missing : (t : EnvTable) (j : List ℕ) → Missing (clear_used t) j
unfolding clear_used
clear_used-Missing [] j = tt
clear_used-Missing (v ∷ t) j =
    (holds_key_unused (record v { used = false }) j refl, clear_used-Missing t j)

-- A text that ends with the buffer's last byte is shorter than the buffer.
length-text_lt : (b : List ℕ) (n : ℕ) → n < length b → get_or b n 1 ≡ 0 → length (text b) ≤ n
length-text_lt [] n h e = absurd (omega arith)
length-text_lt (c ∷ b) zero h e = ground arith
length-text_lt (c ∷ b) (suc n) h e = ground (arith, length-text_lt b n)

long-Missing : (t : EnvTable) (k : List ℕ) → AllSlots t → 63 < length (text k) → Missing t k
unfolding holds_key
long-Missing [] k a h = tt
long-Missing (v ∷ t) k a h = ground (
  arith,
  kstrcmp-zero_iff v.key k,
  ap length {x = text v.key} {y = text k},
  length-text_lt v.key 63,
  long-Missing t k a.1 h,
)

-- A key of more than 63 bytes is stored cut off and never found: whatever the table holds,
-- `env_get` right after `env_set` of such a key gives nothing.
pub env_set_long_key :
    (t : EnvTable) (k x : List ℕ)
    → AllSlots t
    → 63 < length (text k)
    → env_get (env_set t k x) k ≡ none
env_set_long_key t k x a h =
    get_of_Missing (env_set t k x) k (long-Missing (env_set t k x) k (env_set-AllSlots t k x a) h)
