-- ===== src/Prelude/Text.antt =====
-- Text: `format!` as a concatenation, decimal and hexadecimal digits, the bytes of ASCII text.
pub mod Decimal
use Prim.Native.Nat.{ℕ, zero, suc, ◌+◌, ◌/◌, ◌%◌}
use Prim.Native.Char.{code}
use Prim.Native.String
use Prim.Native.String.{String}
use mathlib.Core.Path.{◌≡◌, refl}
use mathlib.Core.List.{List, [], ◌∷◌}
use mathlib.Core.Bool.{Bool, true, false, ◌&&◌, ◌||◌}
use text.Mathlib.Text.{◌==◌ as str_eq}
use spaceshuttle.Prelude.Tests.{ltb, ◌==◌}

abbrev pub format : List String → String
format [] = ""
format (s ∷ ss) = String.◌++◌ s (format ss)

char_at : String → ℕ → String
char_at String.[] i = "?"
char_at (String.◌∷◌ c s) zero = String.◌∷◌ c String.[]
char_at (String.◌∷◌ c s) (suc i) = char_at s i

digit : ℕ → String
unfolding char_at
digit d = char_at "0123456789abcdef" d

-- The digits of a number in front of a text; `n + 1` rounds suffice, since each divides by ten.
decimal_from : ℕ → ℕ → String → String
decimal_from zero n acc = acc
decimal_from (suc fuel) n acc = elim (ltb n 10) [
  | true ↦ String.◌++◌ (digit n) acc
  | false ↦ decimal_from fuel (n / 10) (String.◌++◌ (digit (n % 10)) acc)
]

-- `{}` of an unsigned integer.
unfoldable pub decimal : ℕ → String
unfolding digit decimal_from
decimal n = decimal_from (suc n) n ""

-- `{:016x}`: `k` digits, leading zeros kept.
unfoldable pub hex_from : ℕ → ℕ → String → String
unfolding digit
hex_from zero n acc = acc
hex_from (suc k) n acc = hex_from k (n / 16) (String.◌++◌ (digit (n % 16)) acc)

unfoldable pub hex16 : ℕ → String
unfolding digit hex_from
hex16 n = hex_from 16 n ""

-- `as_bytes` of an ASCII text.
abbrev pub bytes : String → List ℕ
bytes String.[] = []
bytes (String.◌∷◌ c s) = code c ∷ bytes s

decimal_test : decimal 1729 ≡ "1729"
unfolding decimal
decimal_test = refl

hex16_test : hex16 0xbeef ≡ "000000000000beef"
unfolding hex16
hex16_test = refl

-- `len` of a text: the bytes of its UTF-8 encoding.
unfoldable pub char_len : ℕ → ℕ
char_len point = elim (ltb point 0x80) [
  | true ↦ 1
  | false ↦ elim (ltb point 0x800) [
    | true ↦ 2
    | false ↦ elim (ltb point 0x10000) [ true ↦ 3 | false ↦ 4 ]
  ]
]

unfoldable pub byte_len : String → ℕ
unfolding char_len
byte_len String.[] = 0
byte_len (String.◌∷◌ c s) = char_len (code c) + byte_len s

-- `text.starts_with(prefix)`
unfoldable pub starts_with : String → String → Bool
starts_with text String.[] = true
starts_with String.[] (String.◌∷◌ p prefix) = false
starts_with (String.◌∷◌ c text) (String.◌∷◌ p prefix) =
    (code c == code p) && starts_with text prefix

-- `text.contains(pattern)`
unfoldable pub contains : String → String → Bool
unfolding starts_with
contains String.[] pattern = starts_with String.[] pattern
contains (String.◌∷◌ c text) pattern =
    starts_with (String.◌∷◌ c text) pattern || contains text pattern

-- `list.contains(&text)`
unfoldable pub elem : String → List String → Bool
elem text [] = false
elem text (s ∷ rest) = str_eq text s || elem text rest

contains_test : contains "run curl x" "curl " ≡ true
unfolding contains
contains_test = refl
