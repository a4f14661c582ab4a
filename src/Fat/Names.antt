-- ===== src/Fat/Names.antt =====
-- The 8.3 names of kernel/fs/fat32/fat32.c.
use eclipse32_gui.Base.{
  ℕ, zero, suc, ◌-◌, Bool, true, false, ◌&&◌, ◌||◌, List, [], ◌∷◌, ◌++◌, if◌then◌else◌, ◌==◌, leb,
  get_or, drop,
}

abbrev pub upper : ℕ → ℕ
upper c = if leb b'a' c && leb c b'z' then c - 32 else c

-- The part behind the last slash, which stands at `last` so far.
unfoldable pub last_part : List ℕ → List ℕ → List ℕ
last_part [] last = last
last_part (c ∷ p) last = if c == 0 then last else last_part p (if c == b'/' then p else last)

-- The first eight places: the characters before the dot, in capitals, then spaces.
unfoldable pub base_field : ℕ → List ℕ → List ℕ
base_field zero s = []
base_field (suc n) [] = 32 ∷ base_field n []
base_field (suc n) (c ∷ s) =
    let stop = c == 0 || c == b'.' in
    (if stop then 32 else upper c) ∷ base_field n (if stop then [] else s)

-- The places of the extension.
unfoldable pub ext_field : ℕ → List ℕ → List ℕ
ext_field zero s = []
ext_field (suc n) [] = 32 ∷ ext_field n []
ext_field (suc n) (c ∷ s) =
    let stop = c == 0 in (if stop then 32 else upper c) ∷ ext_field n (if stop then [] else s)

-- What stands behind the first dot.
unfoldable pub after_dot : List ℕ → List ℕ
after_dot [] = []
after_dot (c ∷ s) = if c == 0 then [] else if c == b'.' then s else after_dot s

unfoldable pub name_to_83 : List ℕ → List ℕ
name_to_83 path =
    let last = last_part path path in base_field 8 last ++ ext_field 3 (after_dot last)

-- `match_83`: the first `n` bytes of two names agree.
unfoldable pub match_83 : ℕ → List ℕ → List ℕ → Bool
match_83 zero de name = true
match_83 (suc n) [] name = false
match_83 (suc n) (d ∷ de) [] = false
match_83 (suc n) (d ∷ de) (c ∷ name) = d == c && match_83 n de name

-- The characters up to the first space, at most `n`, as `fat32_readdir` copies them.
unfoldable pub until_space : ℕ → List ℕ → List ℕ
until_space zero s = []
until_space (suc n) [] = []
until_space (suc n) (c ∷ s) = if c == 32 then [] else c ∷ until_space n s

-- The name that `fat32_readdir` makes of an entry's eleven bytes.
unfoldable pub name_of_83 : List ℕ → List ℕ
unfolding until_space
name_of_83 de =
    until_space 8 de ++ (if get_or de 8 32 == 32 then [] else b'.' ∷ until_space 3 (drop 8 de))
