-- ===== src/Prelude/Words.antt =====
-- 64-bit words as native numbers: atomic counters and wrapping arithmetic wrap at 2 ^ 64.
use Prim.Native.Nat.{ℕ, zero, suc, ◌+◌, ◌-◌, ◌*◌, ◌/◌, ◌%◌, ◌^◌, ◌<◌}
use mathlib.Core.Path.{◌≡◌, refl, ap}
use mathlib.Core.Bool.{Bool, true, false, ◌&&◌}
use mathlib.Core.List.{List, [], ◌∷◌}
use spaceshuttle.Prelude.Tests.{◌==◌}
use native.Mathlib.Omega.{arith}

abbrev pub u64_mod : ℕ
u64_mod = 18446744073709551616

-- `fetch_add`, `wrapping_add`.
abbrev pub add64 : ℕ → ℕ → ℕ
add64 a b = (a + b) % u64_mod

-- `fetch_sub`; `-` on ℕ stops at 0, so the modulus is added first.
abbrev pub sub64 : ℕ → ℕ → ℕ
sub64 a b = (a + (u64_mod - b % u64_mod)) % u64_mod

-- `wrapping_mul`.
abbrev pub mul64 : ℕ → ℕ → ℕ
mul64 a b = (a * b) % u64_mod

-- `rotate_left` by less than 64 bits: the high bits come back at the low end.
abbrev pub rotate_left64 : ℕ → ℕ → ℕ
rotate_left64 a k = (a * 2 ^ k) % u64_mod + a / 2 ^ (64 - k)

pub sub64-add64 : (a : ℕ) → a < u64_mod → sub64 (add64 a 1) 1 ≡ a
sub64-add64 a h = omega arith

-- `to_le_bytes` of a number of `k` bytes.
abbrev pub le_bytes : ℕ → ℕ → List ℕ
le_bytes zero n = []
le_bytes (suc k) n = n % 256 ∷ le_bytes k (n / 256)

-- `from_le_bytes`.
abbrev pub from_le_bytes : List ℕ → ℕ
from_le_bytes [] = 0
from_le_bytes (b ∷ bs) = b + 256 * from_le_bytes bs

pub from_le_bytes-le_bytes : (k n : ℕ) → n < 256 ^ k → from_le_bytes (le_bytes k n) ≡ n
from_le_bytes-le_bytes zero n h = omega arith
from_le_bytes-le_bytes (suc k) n h = omega (arith, from_le_bytes-le_bytes k (n / 256) (omega arith))

head_byte : List ℕ → ℕ
head_byte [] = 0
head_byte (b ∷ bs) = b

tail_bytes : List ℕ → List ℕ
tail_bytes [] = []
tail_bytes (b ∷ bs) = bs

pub le_bytes-injective :
    (k m n : ℕ) → m < 256 ^ k → n < 256 ^ k → le_bytes k m ≡ le_bytes k n → m ≡ n
unfolding head_byte tail_bytes
le_bytes-injective zero m n hm hn e = omega arith
le_bytes-injective (suc k) m n hm hn e =
    let low = ap head_byte e in
    let high =
      le_bytes-injective k (m / 256) (n / 256) (omega arith) (omega arith) (ap tail_bytes e) in
    omega (arith, low, high)

-- `==` on byte arrays.
abbrev pub same_bytes : List ℕ → List ℕ → Bool
same_bytes [] [] = true
same_bytes [] (b ∷ bs) = false
same_bytes (a ∷ as_) [] = false
same_bytes (a ∷ as_) (b ∷ bs) = (a == b) && same_bytes as_ bs

pub same_bytes_refl : (bs : List ℕ) → same_bytes bs bs ≡ true
same_bytes_refl [] = refl
same_bytes_refl (b ∷ bs) = ground (arith, same_bytes_refl bs)

pub same_bytes→≡ : (as_ bs : List ℕ) → same_bytes as_ bs ≡ true → as_ ≡ bs
same_bytes→≡ [] [] h = refl
same_bytes→≡ [] (b ∷ bs) h = cc
same_bytes→≡ (a ∷ as_) [] h = cc
same_bytes→≡ (a ∷ as_) (b ∷ bs) h = ground (arith, same_bytes→≡ as_ bs)
