-- ===== src/Syscall/Line.antt =====
-- The line that `sys_read_impl` of kernel/syscall/syscall.c reads from the keyboard.
use eclipse32_gui.Base.{
  ℕ, ◌≤◌, ◌≡◌, ◌⊎◌, inl, inr, refl, Bool, true, false, not, ◌&&◌, ◌||◌, Option, none, some, List,
  [], ◌∷◌, ◌++◌, if◌then◌else◌, ◌==◌, ltb, leb, length, arith, Bool-cases,
}
use eclipse32_gui.Keyboard.{KeyEvent, is_ascii}

-- What the loop leaves: the bytes of `kbuf` from the last to the first, the echo and the keys.
pub record Line : Type 0 where
  pub kbuf : List ℕ
  pub echo : List ℕ
  pub rest : List KeyEvent

abbrev ignored : KeyEvent → Bool
ignored ev = ev.released || not (is_ascii ev.keycode)

abbrev ends_line : ℕ → Bool
ends_line c = c == 10 || c == 13

abbrev erases : ℕ → Bool
erases c = c == 8 || c == 127

-- `char` is signed: the codes from 128 on are below 32.
abbrev pub printable : ℕ → Bool
printable c = leb 32 c && ltb c 128

abbrev erase : List ℕ → List ℕ
erase [] = []
erase (c ∷ kbuf) = kbuf

abbrev erase_echo : List ℕ → List ℕ
erase_echo [] = []
erase_echo (c ∷ kbuf) = 8 ∷ 32 ∷ 8 ∷ []

-- `none` when the keys run out before the loop ends.
unfoldable pub read_line : ℕ → List ℕ → List ℕ → List KeyEvent → Option Line
read_line max kbuf echo [] =
    if ltb (length kbuf) max then none else some (record { kbuf = kbuf; echo = echo; rest = [] })
read_line max kbuf echo (ev ∷ keys) =
    let c = ev.char in
    let same = read_line max kbuf echo keys in
    let erased = read_line max (erase kbuf) (echo ++ erase_echo kbuf) keys in
    let added = read_line max (c ∷ kbuf) (echo ++ c ∷ []) keys in
    if not (ltb (length kbuf) max)
    then some (record { kbuf = kbuf; echo = echo; rest = ev ∷ keys })
    else if ignored ev
    then same
    else if ends_line c
    then some (record { kbuf = 10 ∷ kbuf; echo = echo ++ 10 ∷ []; rest = keys })
    else if erases c
    then erased
    else if printable c
    then added
    else same

-- The characters of a line before its end.
abbrev pub AllPrintable : List ℕ → Type 0
AllPrintable [] = Unit
AllPrintable (c ∷ cs) = (printable c ≡ true) × AllPrintable cs

-- A line of at most `max` bytes, printable but for a newline at its end, without which it is full.
abbrev pub IsLine : ℕ → List ℕ → Type 0
IsLine max kbuf =
    ((length kbuf ≡ max) × AllPrintable kbuf)
    ⊎ ((cs : List ℕ) × (kbuf ≡ 10 ∷ cs) × (length kbuf ≤ max) × AllPrintable cs)

abbrev IsLineIfAny : ℕ → Option Line → Type 0
IsLineIfAny max none = Unit
IsLineIfAny max (some l) = IsLine max l.kbuf

-- A press of a key whose character is a newline or a carriage return.
abbrev pub IsEnd : KeyEvent → Type 0
IsEnd ev = (ev.released ≡ false) × (is_ascii ev.keycode ≡ true) × ((ev.char ≡ 10) ⊎ (ev.char ≡ 13))

-- Such a press is among the keys.
abbrev pub HasEnd : List KeyEvent → Type 0
HasEnd [] = ⊥
HasEnd (ev ∷ keys) = IsEnd ev ⊎ HasEnd keys

IsEnd-heard : (ev : KeyEvent) → IsEnd ev → ignored ev ≡ false
IsEnd-heard ev h = ground (arith, h.0, h.1)

IsEnd-ends_line : (ev : KeyEvent) → IsEnd ev → ends_line ev.char ≡ true
IsEnd-ends_line ev h = ground (arith, h.2)

-- A key that is ignored or ends no line is not the one.
end_later :
    (ev : KeyEvent) (keys : List KeyEvent)
    → HasEnd (ev ∷ keys)
    → (ignored ev ≡ true) ⊎ (ends_line ev.char ≡ false)
    → HasEnd keys
end_later ev keys (inr h) k = h
end_later ev keys (inl h) (inl k) = absurd (ground (arith, k, IsEnd-heard ev h))
end_later ev keys (inl h) (inr k) = absurd (ground (arith, k, IsEnd-ends_line ev h))

-- Whatever is in the buffer, the loop ends once an ASCII key with the character 10 or 13 is pressed.
pub read_line_finishes :
    (max : ℕ) (kbuf echo : List ℕ) (keys : List KeyEvent)
    → HasEnd keys
    → (l : Line) × (read_line max kbuf echo keys ≡ some l)
unfolding read_line
read_line_finishes max kbuf echo [] h = absurd h
read_line_finishes max kbuf echo (ev ∷ keys) h = elim (Bool-cases (ltb (length kbuf) max)) [
  | inr e ↦ rw e (_, refl)
  | inl e ↦ rw e (elim (Bool-cases (ignored ev)) [
    | inl i ↦ rw i (read_line_finishes max kbuf echo keys (end_later ev keys h (inl i)))
    | inr i ↦ rw i (elim (Bool-cases (ends_line ev.char)) [
      | inl n ↦ rw n (_, refl)
      | inr n ↦ rw n (elim (Bool-cases (erases ev.char)) [
        | inl b ↦ rw b (read_line_finishes max (erase kbuf) _ keys (end_later ev keys h (inr n)))
        | inr b ↦ rw b (elim (Bool-cases (printable ev.char)) [
          | inl c ↦
              rw c (read_line_finishes max (ev.char ∷ kbuf) _ keys (end_later ev keys h (inr n)))
          | inr c ↦ rw c (read_line_finishes max kbuf echo keys (end_later ev keys h (inr n)))
        ])
      ])
    ])
  ])
]
