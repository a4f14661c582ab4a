-- ===== src/Keyboard/Decode.antt =====
-- What the keys of kernel/drivers/keyboard/keyboard.c mean.
use eclipse32_gui.Base.{
  ℕ, ◌+◌, ◌-◌, ◌<◌, ◌≡◌, refl, ap, ◌∙◌, Bool, true, false, not, ◌&&◌, ◌||◌, some, if◌then◌else◌,
  ◌==◌, ltb, leb, get_or, arith,
}
use eclipse32_gui.Base.Bits.{passes_below, passes_below-lt}
use eclipse32_gui.Keyboard.{Modifiers, ascii, sc_normal, sc_shifted, key_char, make_event, decode}

abbrev pub plain_char : ℕ → ℕ
plain_char sc = get_or sc_normal sc 0

abbrev pub is_letter : ℕ → Bool
is_letter c = leb b'a' c && leb c b'z'

abbrev plain_key : ℕ → Bool
plain_key sc =
    not (
      sc == 0x2a
      || sc == 0x36
      || sc == 0x1d
      || sc == 0x38
      || sc == 0x3a
      || sc == 0x57
      || sc == 0x58)
    && ltb sc 0x3b

abbrev letter_row : ℕ → Bool
letter_row sc =
    not (is_letter (plain_char sc))
    || (plain_key sc && get_or sc_shifted sc 0 + 32 == plain_char sc)

letter_table : passes_below 128 letter_row ≡ true
unfolding passes_below sc_normal sc_shifted
letter_table = refl

abbrev xor : Bool → Bool → Bool
xor true b = not b
xor false b = b

-- What a letter key types: its number in the alphabet under ctrl, else the capital when exactly
-- one of shift and caps lock is on.
abbrev pub letter_char : Modifiers → ℕ → ℕ
letter_char m c = if m.ctrl_held then c - 96 else if xor m.shift_held m.caps_lock then c - 32 else c

decode_plain :
    (m : Modifiers) (sc : ℕ)
    → m.extended ≡ false
    → plain_key sc ≡ true
    → decode m sc ≡ (m, some (make_event m ascii (key_char m sc) false))
unfolding decode
decode_plain m sc e p = ground arith

letter_facts :
    (sc : ℕ)
    → sc < 128
    → is_letter (plain_char sc) ≡ true
    → (plain_key sc ≡ true) × (get_or sc_shifted sc 0 + 32 ≡ plain_char sc)
letter_facts sc h l = ground (arith, passes_below-lt 128 letter_row sc h letter_table)

key_char-letter :
    (m : Modifiers) (sc : ℕ)
    → is_letter (plain_char sc) ≡ true
    → get_or sc_shifted sc 0 + 32 ≡ plain_char sc
    → key_char m sc ≡ letter_char m (plain_char sc)
unfolding key_char
key_char-letter m sc l s = ground arith

-- Pressing a letter key with no E0 prefix pending changes no modifier and makes a character event:
-- the letter's number in the alphabet when ctrl is held, whatever shift and caps lock say; else the
-- capital when exactly one of shift and caps lock is on, else the small letter.
pub decode_letter :
    (m : Modifiers) (sc : ℕ)
    → sc < 128
    → m.extended ≡ false
    → is_letter (plain_char sc) ≡ true
    → decode m sc ≡ (m, some (make_event m ascii (letter_char m (plain_char sc)) false))
decode_letter m sc h e l =
    let (p, s) = letter_facts sc h l in
    decode_plain m sc e p
    ∙ ap (λ c. (m, some (make_event m ascii c false))) (key_char-letter m sc l s)
