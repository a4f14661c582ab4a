-- ===== src/Vga/Printf.antt =====
-- `vga_printf` of kernel/drivers/vga/vga.c. An argument is a word, or the bytes of a string.
use eclipse32_gui.Base.{
  ℕ, zero, suc, ◌+◌, ◌-◌, ◌*◌, ◌/◌, ◌%◌, ◌^◌, Bool, true, false, not, ◌&&◌, List, [], ◌∷◌, ◌++◌,
  if◌then◌else◌, ◌==◌, ltb, leb, length, replicate,
}
use eclipse32_gui.KString.{text}
use eclipse32_gui.Vga.{Vga, vga_putchar, vga_puts}

pub data Arg : Type 0 where
  word : ℕ → Arg
  string : List ℕ → Arg

abbrev pub word_of : List Arg → ℕ
word_of [] = 0
word_of (word n ∷ args) = n
word_of (string s ∷ args) = 0

abbrev pub string_of : List Arg → List ℕ
string_of [] = []
string_of (word n ∷ args) = []
string_of (string s ∷ args) = s

abbrev pub rest_of : List Arg → List Arg
rest_of [] = []
rest_of (a ∷ args) = args

abbrev pub digit_char : Bool → ℕ → ℕ
digit_char upper d = if ltb d 10 then b'0' + d else (if upper then b'A' else b'a') + d - 10

-- The digits of a number, the lowest first. A word has at most 32 digits in any base.
unfoldable pub digits_loop : ℕ → ℕ → Bool → ℕ → List ℕ
digits_loop zero base upper n = []
digits_loop (suc k) base upper n =
    if n == 0 then [] else digit_char upper (n % base) ∷ digits_loop k base upper (n / base)

abbrev pub reverse_onto : List ℕ → List ℕ → List ℕ
reverse_onto [] ys = ys
reverse_onto (x ∷ xs) ys = reverse_onto xs (x ∷ ys)

-- What `buf` holds when `printf_uint` prints it.
unfoldable pub number_text : ℕ → ℕ → Bool → ℕ → ℕ → List ℕ
number_text n base upper width pad =
    let low_first = if n == 0 then b'0' ∷ [] else digits_loop 32 base upper n in
    reverse_onto (low_first ++ replicate (width - length low_first) pad) []

unfoldable pub printf_uint : ℕ → ℕ → Bool → ℕ → ℕ → Vga → Vga
printf_uint n base upper width pad s = vga_puts (number_text n base upper width pad) s

-- A number that is printed as signed.
unfoldable pub printf_int : ℕ → ℕ → ℕ → Vga → Vga
printf_int n width pad s =
    if ltb n (2 ^ 31)
    then printf_uint n 10 false width pad s
    else printf_uint (2 ^ 32 - n) 10 false width pad (vga_putchar b'-' s)

-- The width of a directive: the value of the digits, and what follows them.
unfoldable pub read_width : ℕ → List ℕ → ℕ × List ℕ
read_width width [] = (width, [])
read_width width (c ∷ fmt) =
    let more = read_width (width * 10 + (c - b'0')) fmt in
    if leb b'0' c && leb c b'9' then more else (width, c ∷ fmt)

-- A directive's character: the screen and the arguments that are left.
unfoldable pub directive : ℕ → ℕ → ℕ → List Arg → Vga → Vga × List Arg
directive c width pad args s =
    if c == b'd'
    then (printf_int (word_of args) width pad s, rest_of args)
    else if c == b'u'
    then (printf_uint (word_of args) 10 false width pad s, rest_of args)
    else if c == b'x'
    then (printf_uint (word_of args) 16 false width pad s, rest_of args)
    else if c == b'X'
    then (printf_uint (word_of args) 16 true width pad s, rest_of args)
    else if c == b'p'
    then (printf_uint (word_of args) 16 false 8 b'0' (vga_puts (b'0' ∷ b'x' ∷ []) s), rest_of args)
    else if c == b's'
    then (vga_puts (string_of args) s, rest_of args)
    else if c == b'c'
    then (vga_putchar (word_of args % 256) s, rest_of args)
    else if c == b'%'
    then (vga_putchar b'%' s, args)
    else (vga_putchar c (vga_putchar b'%' s), args)

abbrev pub pad_of : List ℕ → ℕ
pad_of [] = 32
pad_of (c ∷ fmt) = if c == b'0' then b'0' else 32

abbrev pub skip_zero : List ℕ → List ℕ
skip_zero [] = []
skip_zero (c ∷ fmt) = if c == b'0' then fmt else c ∷ fmt

abbrev pub after_char : List ℕ → List ℕ
after_char [] = []
after_char (c ∷ fmt) = fmt

abbrev pub char_of : List ℕ → ℕ
char_of [] = 0
char_of (c ∷ fmt) = c

-- A round of the loop reads a byte or more of the format, so a round for each byte is enough. A
-- format that ends within a directive reads past its NUL in the code, and ends here.
unfoldable pub printf_loop : ℕ → List ℕ → List Arg → Vga → Vga
printf_loop zero fmt args s = s
printf_loop (suc n) [] args s = s
printf_loop (suc n) (c ∷ fmt) args s =
    let (width, rest) = read_width 0 (skip_zero fmt) in
    let (t, args') = directive (char_of rest) width (pad_of fmt) args s in
    let plain = printf_loop n fmt args (vga_putchar c s) in
    let formatted = printf_loop n (after_char rest) args' t in
    if not (c == b'%') then plain else formatted

unfoldable pub vga_printf : List ℕ → List Arg → Vga → Vga
vga_printf fmt args s = printf_loop (length (text fmt)) (text fmt) args s
