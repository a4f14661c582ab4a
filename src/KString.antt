-- ===== src/KString.antt =====
-- The string routines of kernel/initramfs/initramfs.c. A `const char *` is the list of the bytes from
-- the pointer on, a byte being a number below 256; the end of the list reads as the NUL.
-- A buffer that is written is the list of all its bytes.
pub mod Compare
pub mod Copy
pub mod Move
mod Tests
use eclipse32_gui.Base.{
  ℕ, zero, suc, ◌+◌, ◌-◌, ◌%◌, ◌<◌, Bool, true, false, not, ◌&&◌, Option, none, some, List, [], ◌∷◌,
  if◌then◌else◌, ◌==◌, ltb,
}
use eclipse32_gui.Base.Int.{ℤ, pos, negsuc, sub_ℕ}
use mathlib.Core.Option

-- `*s`
abbrev pub peek : List ℕ → ℕ
peek [] = 0
peek (c ∷ s) = c

abbrev pub is_zero : ℤ → Bool
is_zero (pos n) = n == 0
is_zero (negsuc n) = false

-- The text that a buffer holds: the bytes before the first NUL.
abbrev pub text : List ℕ → List ℕ
text [] = []
text (c ∷ s) = if c == 0 then [] else c ∷ text s

unfoldable pub kstrcmp : List ℕ → List ℕ → ℤ
kstrcmp [] b = sub_ℕ 0 (peek b)
kstrcmp (x ∷ a) [] = sub_ℕ x 0
kstrcmp (x ∷ a) (y ∷ b) = if not (x == 0) && not (y == 0) && x == y then kstrcmp a b else sub_ℕ x y

-- One step past the end of the list stays at the NUL.
abbrev pub next : List ℕ → List ℕ
next [] = []
next (c ∷ s) = s

unfoldable pub kstrncmp : List ℕ → List ℕ → ℕ → ℤ
kstrncmp a b zero = pos 0
kstrncmp a b (suc n) =
    let rest = kstrncmp (next a) (next b) n in
    if not (peek a == peek b) then sub_ℕ (peek a) (peek b) else if peek a == 0 then pos 0 else rest

unfoldable pub kstrlen : List ℕ → ℕ
kstrlen [] = 0
kstrlen (c ∷ s) = if c == 0 then 0 else suc (kstrlen s)

-- `none` is a write past the end of `dst`.
unfoldable pub kstrcpy : List ℕ → List ℕ → Option (List ℕ)
kstrcpy [] src = none
kstrcpy (d ∷ dst) [] = some (0 ∷ dst)
kstrcpy (d ∷ dst) (c ∷ src) =
    let rest = kstrcpy dst src in if c == 0 then some (0 ∷ dst) else Option.map (λ r. c ∷ r) rest

-- The copy stays at the NUL of `src` and pads with zeros up to `n` bytes.
unfoldable pub kstrncpy : List ℕ → List ℕ → ℕ → List ℕ
kstrncpy [] src n = []
kstrncpy (d ∷ dst) src zero = d ∷ dst
kstrncpy (d ∷ dst) [] (suc n) = 0 ∷ kstrncpy dst [] n
kstrncpy (d ∷ dst) (c ∷ src) (suc n) = c ∷ kstrncpy dst (if c == 0 then [] else src) n

unfoldable pub kstrcat : List ℕ → List ℕ → Option (List ℕ)
unfolding kstrcpy
kstrcat [] src = none
kstrcat (d ∷ dst) src =
    let rest = kstrcat dst src in
    if d == 0 then kstrcpy (d ∷ dst) src else Option.map (λ r. d ∷ r) rest

-- The index of the first `(char)c`; the NUL itself counts where `c` is 0.
unfoldable pub kstrchr : List ℕ → ℕ → Option ℕ
kstrchr [] c = if c == 0 then some 0 else none
kstrchr (x ∷ s) c =
    if x == 0
    then (if c == 0 then some 0 else none)
    else if x == c % 256
    then some 0
    else Option.map suc (kstrchr s c)

-- The loop of `kstrrchr`: `i` bytes are read, `last` is the last match among them.
kstrrchr_loop : List ℕ → ℕ → ℕ → Option ℕ → Option ℕ
kstrrchr_loop [] c i last = last
kstrrchr_loop (x ∷ s) c i last =
    let rest = kstrrchr_loop s c (i + 1) (if x == c % 256 then some i else last) in
    if x == 0 then last else rest

unfoldable pub kstrrchr : List ℕ → ℕ → Option ℕ
unfolding kstrrchr_loop
kstrrchr s c = kstrrchr_loop s c 0 none

unfoldable pub kmemset : List ℕ → ℕ → ℕ → List ℕ
kmemset [] c n = []
kmemset (d ∷ dst) c zero = d ∷ dst
kmemset (d ∷ dst) c (suc n) = c % 256 ∷ kmemset dst c n

unfoldable pub kmemcmp : List ℕ → List ℕ → ℕ → ℤ
kmemcmp a b zero = pos 0
kmemcmp a b (suc n) =
    let rest = kmemcmp (next a) (next b) n in
    if not (peek a == peek b) then sub_ℕ (peek a) (peek b) else rest

-- Memory for the copies that may overlap: the byte at each address.
abbrev pub Memory : Type 0
Memory = ℕ → ℕ

unfoldable pub store : Memory → ℕ → ℕ → Memory
store m p v a = if a == p then v else m a

-- `while (n--) *d++ = *s++`
unfoldable pub kmemcpy : ℕ → ℕ → ℕ → Memory → Memory
unfolding store
kmemcpy d s zero m = m
kmemcpy d s (suc n) m = kmemcpy (d + 1) (s + 1) n (store m d (m s))

-- `while (n--) *--d = *--s`, with `d` and `s` at the ends
copy_down : ℕ → ℕ → ℕ → Memory → Memory
unfolding store
copy_down d s zero m = m
copy_down d s (suc n) m = copy_down (d - 1) (s - 1) n (store m (d - 1) (m (s - 1)))

unfoldable pub memmove : ℕ → ℕ → ℕ → Memory → Memory
unfolding kmemcpy copy_down
memmove d s n m = if ltb d s then kmemcpy d s n m else copy_down (d + n) (s + n) n m
