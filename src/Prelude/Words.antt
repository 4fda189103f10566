-- ===== src/Prelude/Words.antt =====
-- Fixed-width unsigned arithmetic, the serial-number test by a signed difference, and a uint32_t
-- that is used as a set of bits.
use Prim.Native.Nat.{ℕ, zero, suc, ◌+◌, ◌-◌, ◌*◌, ◌%◌, ◌^◌, ◌<◌}
use mathlib.Core.Path.{◌≡◌, refl}
use mathlib.Core.Bool.{Bool, true, false, ◌||◌}
use mathlib.Core.List.{List, [], ◌∷◌}
use native.Mathlib.Omega.{arith}
use extraction_server.Prelude.Tests.{leb, ltb, ◌==◌, if◌then◌else◌}
use extraction_server.Prelude.Lists.{length, get_or, set, replicate, get_or-replicate}

-- uint32_t `a + b`, `a - b` and `a * b`; `-` on ℕ stops at 0, so the modulus is added first.
abbrev pub add32 : ℕ → ℕ → ℕ
add32 a b = (a + b) % 2 ^ 32

abbrev pub sub32 : ℕ → ℕ → ℕ
sub32 a b = (a + 2 ^ 32 - b) % 2 ^ 32

abbrev pub mul32 : ℕ → ℕ → ℕ
mul32 a b = (a * b) % 2 ^ 32

abbrev pub add16 : ℕ → ℕ → ℕ
add16 a b = (a + b) % 2 ^ 16

abbrev pub sub16 : ℕ → ℕ → ℕ
sub16 a b = (a + 2 ^ 16 - b) % 2 ^ 16

-- `static_cast<int32_t>(a - b) <= 0`: the difference is 0 or has its sign bit set.
abbrev pub not_after32 : ℕ → ℕ → Bool
not_after32 a b = sub32 a b == 0 || leb (2 ^ 31) (sub32 a b)

-- `static_cast<int32_t>(a - b) < 0`
abbrev pub before32 : ℕ → ℕ → Bool
before32 a b = leb (2 ^ 31) (sub32 a b)

-- `static_cast<int16_t>(a - b) <= 0`
abbrev pub not_after16 : ℕ → ℕ → Bool
not_after16 a b = sub16 a b == 0 || leb (2 ^ 15) (sub16 a b)

-- A uint32_t as its bits, the lowest first.
abbrev pub Bits : Type 0
Bits = List Bool

abbrev tabulate : ℕ → (ℕ → Bool) → Bits
tabulate zero f = []
tabulate (suc n) f = f 0 ∷ tabulate n (λ i. f (suc i))

abbrev pub zero_bits : Bits
zero_bits = replicate 32 false

-- `bits & (1u << i)`
abbrev pub test_bit : Bits → ℕ → Bool
test_bit bits i = get_or bits i false

-- `bits | (1u << i)`
abbrev pub set_bit : Bits → ℕ → Bits
set_bit bits i = set bits i true

abbrev shl_bit : Bits → ℕ → ℕ → Bool
shl_bit bits d i = if ltb i d then false else test_bit bits (i - d)

-- `bits << d`
unfoldable pub shl : Bits → ℕ → Bits
shl bits d = tabulate 32 (shl_bit bits d)

-- `bits == 0`
abbrev pub all_clear : Bits → Bool
all_clear [] = true
all_clear (true ∷ bits) = false
all_clear (false ∷ bits) = all_clear bits

get_or-tabulate : (n i : ℕ) (f : ℕ → Bool) → i < n → get_or (tabulate n f) i false ≡ f i
get_or-tabulate zero i f h = absurd (omega arith)
get_or-tabulate (suc n) zero f h = refl
get_or-tabulate (suc n) (suc i) f h = get_or-tabulate n i (λ k. f (suc k)) (omega arith)

length-tabulate : (n : ℕ) (f : ℕ → Bool) → length (tabulate n f) ≡ n
length-tabulate zero f = refl
length-tabulate (suc n) f = omega (arith, length-tabulate n (λ k. f (suc k)))

pub length-shl : (bits : Bits) (d : ℕ) → length (shl bits d) ≡ 32
unfolding shl
length-shl bits d = length-tabulate 32 (shl_bit bits d)

pub test_bit-shl :
    (bits : Bits) (d i : ℕ)
    → i < 32
    → test_bit (shl bits d) i ≡ (if ltb i d then false else test_bit bits (i - d))
unfolding shl
test_bit-shl bits d i h = get_or-tabulate 32 i (shl_bit bits d) h

pub test_bit-zero_bits : (i : ℕ) → test_bit zero_bits i ≡ false
test_bit-zero_bits i = get_or-replicate 32 i false

pub all_clear-test_bit : (bits : Bits) (i : ℕ) → all_clear bits ≡ true → test_bit bits i ≡ false
all_clear-test_bit [] i h = refl
all_clear-test_bit (true ∷ bits) i h = ground arith
all_clear-test_bit (false ∷ bits) zero h = refl
all_clear-test_bit (false ∷ bits) (suc i) h = all_clear-test_bit bits i h
