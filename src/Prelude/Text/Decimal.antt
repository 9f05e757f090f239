-- ===== src/Prelude/Text/Decimal.antt =====
-- Reading back the decimal digits of a number.
use Prim.Native.Nat.{ℕ, zero, suc, ◌+◌, ◌-◌, ◌*◌, ◌/◌, ◌%◌, ◌<◌}
use Prim.Native.Char.{Char, code}
use Prim.Native.String
use Prim.Native.String.{String}
use mathlib.Core.Path.{◌≡◌, refl, sym, ap, ◌∙◌}
use text.Mathlib.TextLemmas.{nil-append, cons-append}
use mathlib.Core.Logic.{inl, inr}
use native.Mathlib.Omega.{arith}
use spaceshuttle.Prelude.Tests.{ltb, ltb→lt, ltb→le, Bool-cases}
use spaceshuttle.Prelude.Text.{digit, decimal_from, decimal, char_at}

-- The number that digits behind those of `v` stand for.
parse : String → ℕ → ℕ
parse String.[] v = v
parse (String.◌∷◌ c s) v = parse s (10 * v + (code c - 48))

-- One character in front of a text.
char_append :
    (c : Char) (acc : String) → String.◌++◌ (String.◌∷◌ c String.[]) acc ≡ String.◌∷◌ c acc
char_append c acc = cons-append c String.[] acc ∙ ap (String.◌∷◌ c) (nil-append acc)

parse-char :
    (c : Char) (d : ℕ)
    → code c - 48 ≡ d
    → (acc : String) (v : ℕ)
    → parse (String.◌++◌ (String.◌∷◌ c String.[]) acc) v ≡ parse acc (10 * v + d)
unfolding parse
parse-char c d e acc v =
    ap (λ s. parse s v) (char_append c acc) ∙ ap (λ k. parse acc (10 * v + k)) e

parse-digit :
    (d : ℕ)
    → d < 10
    → (acc : String) (v : ℕ) → parse (String.◌++◌ (digit d) acc) v ≡ parse acc (10 * v + d)
unfolding parse digit char_at
parse-digit zero h acc v = parse-char "0" 0 refl acc v
parse-digit (suc zero) h acc v = parse-char "1" 1 refl acc v
parse-digit (suc (suc zero)) h acc v = parse-char "2" 2 refl acc v
parse-digit (suc (suc (suc zero))) h acc v = parse-char "3" 3 refl acc v
parse-digit (suc (suc (suc (suc zero)))) h acc v = parse-char "4" 4 refl acc v
parse-digit (suc (suc (suc (suc (suc zero))))) h acc v = parse-char "5" 5 refl acc v
parse-digit (suc (suc (suc (suc (suc (suc zero)))))) h acc v = parse-char "6" 6 refl acc v
parse-digit (suc (suc (suc (suc (suc (suc (suc zero))))))) h acc v = parse-char "7" 7 refl acc v
parse-digit (suc (suc (suc (suc (suc (suc (suc (suc zero)))))))) h acc v =
    parse-char "8" 8 refl acc v
parse-digit (suc (suc (suc (suc (suc (suc (suc (suc (suc zero))))))))) h acc v =
    parse-char "9" 9 refl acc v
parse-digit (suc (suc (suc (suc (suc (suc (suc (suc (suc (suc d)))))))))) h acc v =
    absurd (omega arith)

parse-decimal_from :
    (fuel n : ℕ) (acc : String) → n < fuel → parse (decimal_from fuel n acc) 0 ≡ parse acc n
unfolding decimal_from
parse-decimal_from zero n acc h = absurd (omega arith)
parse-decimal_from (suc fuel) n acc h = elim (Bool-cases (ltb n 10)) [
  | inl small ↦
      let plain : 10 * 0 + n ≡ n = omega arith in
      rw (small, decimal_from) (parse-digit n (ltb→lt n 10 small) acc 0 ∙ ap (parse acc) plain)
  | inr large ↦
      let at_least = ltb→le n 10 large in
      let whole : 10 * (n / 10) + n % 10 ≡ n = omega arith in
      rw (large, decimal_from)
        (parse-decimal_from fuel (n / 10) (String.◌++◌ (digit (n % 10)) acc) (omega arith)
          ∙ parse-digit (n % 10) (omega arith) acc (n / 10)
          ∙ ap (parse acc) whole)
]

-- Different numbers have different digits.
pub decimal-injective : (m n : ℕ) → decimal m ≡ decimal n → m ≡ n
unfolding decimal parse
decimal-injective m n e =
    sym (parse-decimal_from (suc m) m "" (omega arith))
    ∙ ap (λ s. parse s 0) e
    ∙ parse-decimal_from (suc n) n "" (omega arith)
