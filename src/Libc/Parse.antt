-- ===== src/Libc/Parse.antt =====
-- What the numbers of apps/sdk/libc/stdlib.c are read as.
use eclipse32_gui.Base.{ℕ, ◌+◌, ◌*◌, ◌≡◌, ◌≢◌, true, List, [], ◌∷◌, Option, none, some}
use eclipse32_gui.Libc.Numbers.{sd_isspace, digit_in}

abbrev pub AllSpaces : List ℕ → Type 0
AllSpaces [] = Unit
AllSpaces (c ∷ s) = (sd_isspace c ≡ true) × AllSpaces s

-- Digits of a base.
abbrev pub AllDigits : ℕ → List ℕ → Type 0
AllDigits base [] = Unit
AllDigits base (c ∷ s) = (digit_in base c ≢ none) × AllDigits base s

-- Not a digit of the base.
abbrev pub EndsNumber : ℕ → List ℕ → Type 0
EndsNumber base [] = Unit
EndsNumber base (c ∷ s) = digit_in base c ≡ none

abbrev or_zero : Option ℕ → ℕ
or_zero none = 0
or_zero (some d) = d

-- The number that digits stand for, the highest first, with no wrap-around.
abbrev pub number_onto : ℕ → ℕ → List ℕ → ℕ
number_onto base n [] = n
number_onto base n (c ∷ s) = number_onto base (n * base + or_zero (digit_in base c)) s
