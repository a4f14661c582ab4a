-- ===== src/Env/Tests.antt =====
-- Runs of the environment store of kernel/initramfs/initramfs.c, and its laws at a table of two slots.
use eclipse32_gui.Base.{ℕ, ◌≡◌, refl, inl, none, some, List, [], ◌∷◌, arith, replicate}
use eclipse32_gui.KString.{kstrcmp, kstrncpy}
use eclipse32_gui.Env.{
  EnvTable, empty_slot, holds_key, fill_slot, update_existing, add_new, env_set, env_get, env_unset,
}
use eclipse32_gui.Env.Table.{AllSlots, env_set-AllSlots}
use eclipse32_gui.Env.Laws.{value_text, env_get-env_set}

abbrev home : List ℕ
home = b'H' ∷ b'O' ∷ b'M' ∷ b'E' ∷ []

abbrev root : List ℕ
root = b'/' ∷ b'r' ∷ []

abbrev table : EnvTable
table = empty_slot ∷ empty_slot ∷ []

table-AllSlots : AllSlots table
table-AllSlots = omega arith

abbrev long_key : List ℕ
long_key = replicate 64 b'x'

set_then_get : value_text (env_get (env_set table home root) home) ≡ some root
unfolding env_get env_set update_existing add_new holds_key fill_slot kstrcmp kstrncpy
set_then_get = refl

unset_then_get : env_get (env_unset (env_set table home root) home) home ≡ none
unfolding env_get env_set update_existing add_new holds_key fill_slot kstrcmp kstrncpy env_unset
unset_then_get = refl

env_set-AllSlots_example : AllSlots (env_set table home root)
env_set-AllSlots_example = env_set-AllSlots table home root table-AllSlots

env_get-env_set_example : value_text (env_get (env_set table home root) home) ≡ some root
env_get-env_set_example = env_get-env_set table home root table-AllSlots (omega arith) (inl refl)
