-- ===== src/Env.antt =====
-- The environment store of kernel/initramfs/initramfs.c: a table of slots, each with two fixed
-- buffers. The table is searched from slot 0 on; a pointer to a value is that value's buffer.
pub mod Table
pub mod Laws
pub mod Unique
mod Tests
use eclipse32_gui.Base.{
  ℕ, Bool, true, false, ◌&&◌, not, Option, none, some, List, [], ◌∷◌, if◌then◌else◌, replicate, map,
}
use eclipse32_gui.KString.{is_zero, kstrcmp, kstrncpy}
use mathlib.Core.Option

abbrev pub max_env_vars : ℕ
max_env_vars = 64

abbrev pub env_key_len : ℕ
env_key_len = 64

abbrev pub env_val_len : ℕ
env_val_len = 256

-- `env_var_t`
pub record EnvVar : Type 0 where
  pub used : Bool
  pub key : List ℕ
  pub value : List ℕ

abbrev pub EnvTable : Type 0
EnvTable = List EnvVar

-- `env_table[i].used && kstrcmp(env_table[i].key, key) == 0`
unfoldable pub holds_key : EnvVar → List ℕ → Bool
holds_key v k = v.used && is_zero (kstrcmp v.key k)

unfoldable pub write_value : EnvVar → List ℕ → EnvVar
write_value v x = record v { value = kstrncpy v.value x 255 }

unfoldable pub fill_slot : EnvVar → List ℕ → List ℕ → EnvVar
fill_slot v k x = record { used = true; key = kstrncpy v.key k 63; value = kstrncpy v.value x 255 }

-- The first loop of `env_set`: `none` when no slot holds the key.
unfoldable pub update_existing : EnvTable → List ℕ → List ℕ → Option EnvTable
update_existing [] k x = none
update_existing (v ∷ t) k x =
    if holds_key v k
    then some (write_value v x ∷ t)
    else Option.map (λ r. v ∷ r) (update_existing t k x)

-- The second loop: `none` when every slot is in use.
unfoldable pub add_new : EnvTable → List ℕ → List ℕ → Option EnvTable
add_new [] k x = none
add_new (v ∷ t) k x =
    if v.used then Option.map (λ r. v ∷ r) (add_new t k x) else some (fill_slot v k x ∷ t)

abbrev pub or_else : Option EnvTable → EnvTable → EnvTable
or_else none t = t
or_else (some r) t = r

unfoldable pub env_set : EnvTable → List ℕ → List ℕ → EnvTable
env_set t k x = elim (update_existing t k x) [ some r ↦ r | none ↦ or_else (add_new t k x) t ]

unfoldable pub env_get : EnvTable → List ℕ → Option (List ℕ)
env_get [] k = none
env_get (v ∷ t) k = if holds_key v k then some v.value else env_get t k

unfoldable pub env_unset : EnvTable → List ℕ → EnvTable
env_unset [] k = []
env_unset (v ∷ t) k = if holds_key v k then record v { used = false } ∷ t else v ∷ env_unset t k

-- The clearing loop of `initramfs_start`.
unfoldable pub clear_used : EnvTable → EnvTable
clear_used [] = []
clear_used (v ∷ t) = record v { used = false } ∷ clear_used t

-- The table in zeroed static storage.
abbrev pub empty_slot : EnvVar
empty_slot = record { used = false; key = replicate 64 0; value = replicate 256 0 }

abbrev pub initial_table : EnvTable
initial_table = replicate 64 empty_slot
