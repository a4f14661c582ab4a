-- ===== src/Shell/Vars/Table.antt =====
-- The tables of variables and of aliases of shell/shell.c as maps from names to values.
use eclipse32_gui.Base.{
  ℕ, suc, ◌≤◌, ◌<◌, ◌≡◌, ◌≢◌, refl, sym, ◌∙◌, ap, subst, true, false, List, [], ◌∷◌, ◌++◌, Option,
  none, some, ltb, take, length, length-append, arith, Bool-cases, Option-cases, inl, inr, ◌⊎◌,
  take_all, ltb→lt,
}
use mathlib.Core.Option
use eclipse32_gui.KString.{text}
use eclipse32_gui.KString.Compare.{kstrcmp-zero_iff}
use eclipse32_gui.Shell.{same_string}
use eclipse32_gui.Shell.Vars.{Pair, replace_value, new_pair, set_pair, get_pair}

same_string_refl : (a : List ℕ) → same_string a a ≡ true
same_string_refl a = (kstrcmp-zero_iff a a).1 refl

pub same_string_other :
    (a b c : List ℕ) → same_string a b ≡ true → text b ≢ text c → same_string a c ≡ false
same_string_other a b c h k = elim (Bool-cases (same_string a c)) [
  | inl e ↦ absurd (k (sym ((kstrcmp-zero_iff a b).0 h) ∙ (kstrcmp-zero_iff a c).0 e))
  | inr e ↦ e
]

-- What a table with a name set says: of the name, and of every other.
abbrev pub IsSetTo : List ℕ → List ℕ → List Pair → List Pair → Type 0
IsSetTo name value t r =
    (get_pair name r ≡ some (take 1023 value))
    × ((other : List ℕ) → text name ≢ text other → get_pair other r ≡ get_pair other t)

IsSetTo-cons :
    (name value : List ℕ) (p : Pair) (t r : List Pair)
    → same_string p.name name ≡ false
    → IsSetTo name value t r
    → IsSetTo name value (p ∷ t) (p ∷ r)
unfolding get_pair
IsSetTo-cons name value p t r h k = (
  rw h k.0,
  λ other q. elim (Bool-cases (same_string p.name other)) [
    | inl e ↦ rw e refl
    | inr e ↦ rw e (k.1 other q)
  ],
)

-- What the search of a name comes to.
abbrev Replaced : List ℕ → List ℕ → List Pair → Option (List Pair) → Type 0
Replaced name value t none = get_pair name t ≡ none
Replaced name value t (some r) =
    IsSetTo name value t r × (length r ≡ length t) × (get_pair name t ≢ none)

IsSetTo-head :
    (name value : List ℕ) (p : Pair) (t : List Pair)
    → same_string p.name name ≡ true
    → IsSetTo name value (p ∷ t) (record p { value = take 1023 value } ∷ t)
unfolding get_pair
IsSetTo-head name value p t e =
    (rw e refl, λ other q. rw (same_string_other p.name name other e q) refl)

replace_value-Replaced :
    (name value : List ℕ) (t : List Pair) → Replaced name value t (replace_value name value t)
unfolding replace_value get_pair
replace_value-Replaced name value [] = refl
replace_value-Replaced name value (p ∷ t) = elim (Bool-cases (same_string p.name name)) [
  | inl e ↦ rw e (IsSetTo-head name value p t e, refl, rw e (Option.some-ne-none p.value))
  | inr e ↦
      let rest = replace_value-Replaced name value t in
      elim (Option-cases (replace_value name value t)) [
        | inl n ↦ rw (e, n) (rw e (subst (Replaced name value t) n rest))
        | inr (r, f) ↦
            let found = subst (Replaced name value t) f rest in
            rw (e, f) (IsSetTo-cons name value p t r e found.0, ap suc found.1, rw e found.2)
      ]
]

IsSetTo-append :
    (name value : List ℕ) (t : List Pair)
    → length name ≤ 63
    → get_pair name t ≡ none
    → IsSetTo name value t (t ++ new_pair name value ∷ [])
unfolding get_pair
IsSetTo-append name value [] h k = rw (take_all 63 name h) (
  rw (same_string_refl name) refl,
  λ other q. rw (same_string_other name name other (same_string_refl name) q) refl,
)
IsSetTo-append name value (p ∷ t) h k = elim (Bool-cases (same_string p.name name)) [
  | inl e ↦ ground arith
  | inr e ↦
      IsSetTo-cons name value p t (t ++ new_pair name value ∷ []) e
        (IsSetTo-append name value t h (ground arith))
]

-- A table has room for a name that it holds, and for another one below its limit.
abbrev pub HasRoom : ℕ → List ℕ → List Pair → Type 0
HasRoom limit name t = (get_pair name t ≢ none) ⊎ (length t < limit)

-- The name is not held and every slot is in use.
abbrev pub IsFull : ℕ → List ℕ → List Pair → Type 0
IsFull limit name t = (get_pair name t ≡ none) × (limit ≤ length t)

-- In a table of at most `limit` pairs, a name of at most 63 bytes that it has room for is set to the
-- first 1023 bytes of the value and no other name changes; a new name that finds the table full is
-- dropped. The table still has at most `limit` pairs.
pub set_pair-IsSetTo :
    (limit : ℕ) (name value : List ℕ) (t : List Pair)
    → length name ≤ 63
    → length t ≤ limit
    → (length (set_pair limit name value t) ≤ limit)
      × ((HasRoom limit name t × IsSetTo name value t (set_pair limit name value t))
          ⊎ (IsFull limit name t × (set_pair limit name value t ≡ t)))
unfolding set_pair
set_pair-IsSetTo limit name value t h l =
    let searched = replace_value-Replaced name value t in
    elim (Option-cases (replace_value name value t)) [
      | inr (r, f) ↦
          let found = subst (Replaced name value t) f searched in
          rw (f, set_pair) (omega (arith, found.1), inl (inl found.2, found.0))
      | inl n ↦
          let missing = subst (Replaced name value t) n searched in
          elim (Bool-cases (ltb (length t) limit)) [
            | inl e ↦
                rw (n, set_pair, e)
                  (
                    omega (
                      arith,
                      length-append t (new_pair name value ∷ []),
                      ltb→lt (length t) limit e,
                    ),
                    inl (inr (ltb→lt (length t) limit e), IsSetTo-append name value t h missing),
                  )
            | inr e ↦ rw (n, set_pair, e) (l, inr ((missing, ground (arith, e)), refl))
          ]
    ]
