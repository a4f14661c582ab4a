-- ===== src/Shell/Vars/Tests.antt =====
-- Variables that shell/shell.c sets and expands.
use eclipse32_gui.Base.{
  ℕ, ◌≤◌, ◌≡◌, ◌≢◌, refl, false, List, [], ◌∷◌, ◌++◌, none, arith, length, inr, ◌⊎◌,
}
use mathlib.Core.Option
use eclipse32_gui.KString.{kstrcmp}
use eclipse32_gui.Shell.Vars.{
  Pair, set_pair, get_pair, var_get, expand_vars, expand_loop, expand_piece, value_in, read_name,
  read_reference, status_digits,
}
use eclipse32_gui.Shell.Vars.Table.{IsSetTo, HasRoom, IsFull, set_pair-IsSetTo}
use eclipse32_gui.Shell.Vars.Expand.{reference, expand_vars-reference}

abbrev os : List ℕ
os = b'O' ∷ b'S' ∷ []

abbrev one_var : List Pair
one_var = record { name = os; value = b'e' ∷ b'3' ∷ [] } ∷ []

-- `$OS-$?` where the status is 42
expand_test :
    expand_vars [] one_var 42 100 (b'$' ∷ b'O' ∷ b'S' ∷ b'-' ∷ b'$' ∷ b'?' ∷ [])
    ≡ b'e' ∷ b'3' ∷ b'-' ∷ b'4' ∷ b'2' ∷ []
unfolding expand_vars expand_loop expand_piece read_name read_reference status_digits var_get
    get_pair kstrcmp
expand_test = refl

os_held : get_pair os one_var ≢ none
unfolding get_pair kstrcmp
os_held = Option.some-ne-none (b'e' ∷ b'3' ∷ [])

os_not_held : get_pair (b'U' ∷ []) one_var ≡ none
unfolding get_pair kstrcmp
os_not_held = refl

-- A table of one slot, which is full.
set_pair-IsSetTo_example :
    (length (set_pair 1 (b'U' ∷ []) (b'x' ∷ []) one_var) ≤ 1)
    × ((HasRoom 1 (b'U' ∷ []) one_var
          × IsSetTo (b'U' ∷ []) (b'x' ∷ []) one_var (set_pair 1 (b'U' ∷ []) (b'x' ∷ []) one_var))
        ⊎ (IsFull 1 (b'U' ∷ []) one_var × (set_pair 1 (b'U' ∷ []) (b'x' ∷ []) one_var ≡ one_var)))
set_pair-IsSetTo_example =
    set_pair-IsSetTo 1 (b'U' ∷ []) (b'x' ∷ []) one_var (omega arith) (omega arith)

value_of_os : length (value_in [] one_var os) ≡ 2
unfolding var_get get_pair kstrcmp
value_of_os = refl

expand_vars-reference_example :
    expand_vars [] one_var 0 100 ((b'<' ∷ []) ++ b'$' ∷ reference false os (b'>' ∷ []))
    ≡ (b'<' ∷ []) ++ (value_in [] one_var os ++ b'>' ∷ [])
expand_vars-reference_example =
    expand_vars-reference [] one_var 0 100 false (b'<' ∷ []) b'O' (b'S' ∷ []) (b'>' ∷ [])
      (refl, refl, tt) (refl, refl, tt) (omega arith) (refl, (refl, tt)) (inr refl)
      (omega (arith, value_of_os))
