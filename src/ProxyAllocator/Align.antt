-- ===== src/ProxyAllocator/Align.antt =====
-- ProxyAllocator.cpp: `AlignUp`, and what rounding to a slot granularity guarantees.
use ts3vasmanager.Prelude.{
  ℕ, ◌+◌, ◌-◌, ◌*◌, ◌/◌, ◌%◌, ◌^◌, ◌≤◌, ◌<◌, ◌≡◌, ap, ◌∙◌, bit_and, arith, add32, sub32, not32,
}
use ts3vasmanager.Prelude.Bits.{ones, shifted, halved, bit_and-ones, bit_and-shifted}

-- `(v + (a - 1)) & ~(a - 1)` on a 32-bit `SIZE_T`.
unfoldable pub align_up : ℕ → ℕ → ℕ
align_up v a = bit_and (add32 v (sub32 a 1)) (not32 (sub32 a 1))

-- The granularities that the constructor can choose: 4, 8, 16, 32 or 64 KB.
pub data Granule : ℕ → Type 0 where
  kb4 : Granule 0x1000
  kb8 : Granule 0x2000
  kb16 : Granule 0x4000
  kb32 : Granule 0x8000
  kb64 : Granule 0x10000

mask : (k j x : ℕ) → halved k x ≤ ones j → bit_and x (shifted k (ones j)) ≡ shifted k (halved k x)
mask k j x h = bit_and-shifted k (ones j) x ∙ ap (shifted k) (bit_and-ones j (halved k x) h)

align_up-eq : {a : ℕ} → Granule a → (v : ℕ) → align_up v a ≡ add32 v (a - 1) / a * a
unfolding align_up
align_up-eq kb4 v = omega (arith, mask 12 20 (add32 v 0xfff) (omega arith))
align_up-eq kb8 v = omega (arith, mask 13 19 (add32 v 0x1fff) (omega arith))
align_up-eq kb16 v = omega (arith, mask 14 18 (add32 v 0x3fff) (omega arith))
align_up-eq kb32 v = omega (arith, mask 15 17 (add32 v 0x7fff) (omega arith))
align_up-eq kb64 v = omega (arith, mask 16 16 (add32 v 0xffff) (omega arith))

-- For each of the five granularities, a value that does not wrap is rounded up to a multiple of it,
-- less than one granule above the value.
pub align_up_bounds :
    {a : ℕ}
    → Granule a
    → (v : ℕ) → v + a ≤ 2 ^ 32
    → (v ≤ align_up v a) × (align_up v a < v + a) × (align_up v a % a ≡ 0)
align_up_bounds kb4 v h = omega (arith, align_up-eq kb4 v)
align_up_bounds kb8 v h = omega (arith, align_up-eq kb8 v)
align_up_bounds kb16 v h = omega (arith, align_up-eq kb16 v)
align_up_bounds kb32 v h = omega (arith, align_up-eq kb32 v)
align_up_bounds kb64 v h = omega (arith, align_up-eq kb64 v)

-- Whatever the request, also where the sum wraps, the result is a multiple of the granularity.
pub align_up-mod : {a : ℕ} → Granule a → (v : ℕ) → align_up v a % a ≡ 0
align_up-mod kb4 v = omega (arith, align_up-eq kb4 v)
align_up-mod kb8 v = omega (arith, align_up-eq kb8 v)
align_up-mod kb16 v = omega (arith, align_up-eq kb16 v)
align_up-mod kb32 v = omega (arith, align_up-eq kb32 v)
align_up-mod kb64 v = omega (arith, align_up-eq kb64 v)

pub align_up-lt : {a : ℕ} → Granule a → (v : ℕ) → align_up v a < 2 ^ 32
align_up-lt kb4 v = omega (arith, align_up-eq kb4 v)
align_up-lt kb8 v = omega (arith, align_up-eq kb8 v)
align_up-lt kb16 v = omega (arith, align_up-eq kb16 v)
align_up-lt kb32 v = omega (arith, align_up-eq kb32 v)
align_up-lt kb64 v = omega (arith, align_up-eq kb64 v)

-- A request in the top granule of the 32-bit range wraps to zero.
pub align_up_wraps : {a : ℕ} → Granule a → (v : ℕ) → 2 ^ 32 - a < v → v < 2 ^ 32 → align_up v a ≡ 0
align_up_wraps kb4 v lo hi = omega (arith, align_up-eq kb4 v)
align_up_wraps kb8 v lo hi = omega (arith, align_up-eq kb8 v)
align_up_wraps kb16 v lo hi = omega (arith, align_up-eq kb16 v)
align_up_wraps kb32 v lo hi = omega (arith, align_up-eq kb32 v)
align_up_wraps kb64 v lo hi = omega (arith, align_up-eq kb64 v)

-- A multiple stays as it is.
pub align_up_fix : {a : ℕ} → Granule a → (v : ℕ) → v + a ≤ 2 ^ 32 → v % a ≡ 0 → align_up v a ≡ v
align_up_fix kb4 v h m = omega (arith, align_up-eq kb4 v)
align_up_fix kb8 v h m = omega (arith, align_up-eq kb8 v)
align_up_fix kb16 v h m = omega (arith, align_up-eq kb16 v)
align_up_fix kb32 v h m = omega (arith, align_up-eq kb32 v)
align_up_fix kb64 v h m = omega (arith, align_up-eq kb64 v)

pub Granule-bounds : {a : ℕ} → Granule a → (0x1000 ≤ a) × (a ≤ 0x10000)
Granule-bounds kb4 = omega arith
Granule-bounds kb8 = omega arith
Granule-bounds kb16 = omega arith
Granule-bounds kb32 = omega arith
Granule-bounds kb64 = omega arith

-- Multiples add and subtract, and a multiple below the granularity is zero.
pub multiple_sub : {a : ℕ} → Granule a → (m n : ℕ) → m % a ≡ 0 → n % a ≡ 0 → n ≤ m → (m - n) % a ≡ 0
multiple_sub kb4 m n p q h = omega arith
multiple_sub kb8 m n p q h = omega arith
multiple_sub kb16 m n p q h = omega arith
multiple_sub kb32 m n p q h = omega arith
multiple_sub kb64 m n p q h = omega arith

pub multiple_add : {a : ℕ} → Granule a → (m n : ℕ) → m % a ≡ 0 → n % a ≡ 0 → (m + n) % a ≡ 0
multiple_add kb4 m n p q = omega arith
multiple_add kb8 m n p q = omega arith
multiple_add kb16 m n p q = omega arith
multiple_add kb32 m n p q = omega arith
multiple_add kb64 m n p q = omega arith

pub multiple_small : {a : ℕ} → Granule a → (m : ℕ) → m % a ≡ 0 → m < a → m ≡ 0
multiple_small kb4 m p h = omega arith
multiple_small kb8 m p h = omega arith
multiple_small kb16 m p h = omega arith
multiple_small kb32 m p h = omega arith
multiple_small kb64 m p h = omega arith
