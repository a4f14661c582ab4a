-- ===== src/Libc/Numbers.antt =====
-- `atoi`, `strtoul` and `strtol` of apps/sdk/libc/stdlib.c, where a `long` has 32 bits. A string is the
-- list of the bytes before its NUL. A byte is below 128: a C `char` from 128 on would be negative, and
-- is no digit and no space either way.
use eclipse32_gui.Base.{
  ℕ, ◌+◌, ◌-◌, ◌*◌, ◌%◌, ◌^◌, Bool, true, false, ◌&&◌, ◌||◌, List, [], ◌∷◌, Option, none, some,
  if◌then◌else◌, ◌==◌, leb,
}

abbrev pub u32 : ℕ
u32 = 2 ^ 32

abbrev pub sd_isspace : ℕ → Bool
sd_isspace c = c == b' ' || c == b'\t' || c == b'\n' || c == b'\r' || c == 12 || c == 11

-- `none` is -1.
abbrev pub sd_digit : ℕ → Option ℕ
sd_digit c =
    if leb b'0' c && leb c b'9'
    then some (c - b'0')
    else if leb b'a' c && leb c b'z'
    then some (10 + (c - b'a'))
    else if leb b'A' c && leb c b'Z'
    then some (10 + (c - b'A'))
    else none

unfoldable pub skip_space : List ℕ → List ℕ
skip_space [] = []
skip_space (c ∷ s) = let rest = skip_space s in if sd_isspace c then rest else c ∷ s

abbrev pub skip_byte : ℕ → List ℕ → List ℕ
skip_byte b [] = []
skip_byte b (c ∷ s) = if c == b then s else c ∷ s

abbrev pub starts_with : ℕ → List ℕ → Bool
starts_with b [] = false
starts_with b (c ∷ s) = c == b

abbrev pub after : List ℕ → List ℕ
after [] = []
after (c ∷ s) = s

-- `s[0] == '0' && (s[1] == 'x' || s[1] == 'X')`
abbrev pub has_hex_prefix : List ℕ → Bool
has_hex_prefix s = starts_with b'0' s && (starts_with b'x' (after s) || starts_with b'X' (after s))

-- The base that is read, and what is left of the string.
unfoldable pub read_base : ℕ → List ℕ → ℕ × List ℕ
read_base base s =
    if base == 0
    then (if has_hex_prefix s
        then (16, after (after s))
        else if starts_with b'0' s
        then (8, after s)
        else (10, s))
    else if base == 16 && has_hex_prefix s
    then (base, after (after s))
    else (base, s)

-- The digit of a byte in a base.
abbrev pub digit_in : ℕ → ℕ → Option ℕ
digit_in base c = elim (sd_digit c) [ none ↦ none | some d ↦ if leb base d then none else some d ]

-- What the loop leaves: the value, whether there was a digit, and the rest of the string.
pub record Read : Type 0 where
  pub value : ℕ
  pub any : Bool
  pub rest : List ℕ

unfoldable pub read_digits : ℕ → Read → List ℕ → Read
read_digits base r [] = record r { rest = [] }
read_digits base r (c ∷ s) = elim (digit_in base c) [
  | none ↦ record r { rest = c ∷ s }
  | some d ↦
      read_digits base (record { value = (r.value * base + d) % u32; any = true; rest = s }) s
]

-- The value and `*endptr`, the whole string where no digit was read.
unfoldable pub strtoul : List ℕ → ℕ → ℕ × List ℕ
strtoul nptr base =
    let (b, s) = read_base base (skip_byte b'+' (skip_space nptr)) in
    let r = read_digits b (record { value = 0; any = false; rest = s }) s in
    (r.value, if r.any then r.rest else nptr)

-- `-(long)u` as a word
abbrev pub negate : ℕ → ℕ
negate u = (u32 - u) % u32

-- `end_local == s`: `strtoul` gives its argument back only where it read nothing.
unfoldable pub read_any : List ℕ → ℕ → Bool
read_any s base =
    let (b, t) = read_base base (skip_byte b'+' (skip_space s)) in
    (read_digits b (record { value = 0; any = false; rest = t }) t).any

-- A `long` as the word that holds it, and `*endptr`.
unfoldable pub strtol : List ℕ → ℕ → ℕ × List ℕ
strtol nptr base =
    let t = skip_space nptr in
    let neg = starts_with b'-' t in
    let s = if neg then after t else skip_byte b'+' t in
    let (u, end_local) = strtoul s base in
    (if neg then negate u else u, if read_any s base then end_local else nptr)

abbrev pub is_blank : ℕ → Bool
is_blank c = c == b' ' || c == b'\t' || c == b'\n'

unfoldable pub skip_blank : List ℕ → List ℕ
skip_blank [] = []
skip_blank (c ∷ s) = let rest = skip_blank s in if is_blank c then rest else c ∷ s

unfoldable pub atoi_digits : ℕ → List ℕ → ℕ
atoi_digits value [] = value
atoi_digits value (c ∷ s) =
    let more = atoi_digits ((value * 10 + (c - b'0')) % u32) s in
    if leb b'0' c && leb c b'9' then more else value

-- An `int` as the word that holds it.
unfoldable pub atoi : List ℕ → ℕ
atoi nptr =
    let s = skip_blank nptr in
    if starts_with b'-' s
    then negate (atoi_digits 0 (after s))
    else atoi_digits 0 (skip_byte b'+' s)
