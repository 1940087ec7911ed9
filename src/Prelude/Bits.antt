-- ===== src/Prelude/Bits.antt =====
-- `bit_and` with a mask of high ones, as division and multiplication.
use Prim.Native.Nat.{
  ℕ, zero, suc, ◌+◌, ◌-◌, ◌*◌, ◌/◌, ◌%◌, ◌≤◌, min, bit_and, digits, bit_and-bitwise,
}
use mathlib.Core.Path.{◌≡◌, refl, ap, subst, ◌∙◌}
use native.Mathlib.Omega.{arith}

-- The digits of the conjunction, on fuel; the native operation gives it its first argument.
abbrev mask_steps : ℕ → ℕ → ℕ → ℕ
mask_steps = digits (λ rest. zero) min

one_more : (fuel x mask : ℕ) → x ≤ fuel → mask_steps (suc fuel) x mask ≡ mask_steps fuel x mask
one_more zero (suc x) mask h = elim h [ ]
one_more zero zero mask h = refl
one_more (suc fuel) zero mask h = refl
one_more (suc fuel) (suc x) mask h =
    let halves = one_more fuel (suc x / 2) (mask / 2) (omega arith) in omega (arith, halves)

many_more : (k fuel x mask : ℕ) → x ≤ fuel → mask_steps (k + fuel) x mask ≡ mask_steps fuel x mask
many_more zero fuel x mask h =
    let same : zero + fuel ≡ fuel = omega arith in ap (λ n. mask_steps n x mask) same
many_more (suc k) fuel x mask h =
    let unrolled : suc k + fuel ≡ suc (k + fuel) = omega arith in
    ap (λ n. mask_steps n x mask) unrolled
    ∙ one_more (k + fuel) x mask (omega arith)
    ∙ many_more k fuel x mask h

-- One digit at a time.
bit_and-halves :
    (x mask : ℕ) → bit_and x mask ≡ bit_and (x / 2) (mask / 2) * 2 + min (x % 2) (mask % 2)
bit_and-halves zero mask =
    let none_left = bit_and-bitwise 0 (mask / 2) in omega (arith, none_left, bit_and-bitwise 0 mask)
bit_and-halves (suc x) mask =
    let half = suc x / 2 in
    let exact : x - half + half ≡ x = omega arith in
    let enough : mask_steps x half (mask / 2) ≡ mask_steps half half (mask / 2) =
      subst (λ fuel. mask_steps fuel half (mask / 2) ≡ mask_steps half half (mask / 2)) exact
        (many_more (x - half) half half (mask / 2) (omega arith)) in
    omega (arith, enough, bit_and-bitwise (suc x) mask, bit_and-bitwise half (mask / 2))

no_mask : (fuel x : ℕ) → mask_steps fuel x 0 ≡ 0
no_mask zero x = refl
no_mask (suc fuel) zero = refl
no_mask (suc fuel) (suc x) = let halves = no_mask fuel (suc x / 2) in omega (arith, halves)

bit_and-zero : (x : ℕ) → bit_and x 0 ≡ 0
bit_and-zero x = bit_and-bitwise x 0 ∙ no_mask x x

zero-bit_and : (mask : ℕ) → bit_and 0 mask ≡ 0
zero-bit_and = bit_and-bitwise 0

-- `ones j` is 2 ^ j - 1, `shifted k m` is m * 2 ^ k.
abbrev pub ones : ℕ → ℕ
ones zero = 0
ones (suc j) = ones j * 2 + 1

abbrev pub shifted : ℕ → ℕ → ℕ
shifted zero m = m
shifted (suc k) m = shifted k m * 2

abbrev pub halved : ℕ → ℕ → ℕ
halved zero x = x
halved (suc k) x = halved k (x / 2)

-- A mask that has all the bits of x keeps x.
pub bit_and-ones : (j x : ℕ) → x ≤ ones j → bit_and x (ones j) ≡ x
bit_and-ones zero x h = let e : x ≡ 0 = omega arith in rw e (zero-bit_and 0)
bit_and-ones (suc j) x h = omega (
  arith,
  bit_and-halves x (ones j * 2 + 1),
  bit_and-ones j (x / 2) (omega arith),
  ap (bit_and (x / 2)) half,
)
  where
    half : (ones j * 2 + 1) / 2 ≡ ones j
    half = omega arith

-- The low bits that a mask lacks are cleared.
pub bit_and-shifted : (k m x : ℕ) → bit_and x (shifted k m) ≡ shifted k (bit_and (halved k x) m)
bit_and-shifted zero m x = refl
bit_and-shifted (suc k) m x = omega (
  arith,
  bit_and-halves x (shifted k m * 2),
  bit_and-shifted k m (x / 2),
  ap (bit_and (x / 2)) half,
)
  where
    half : shifted k m * 2 / 2 ≡ shifted k m
    half = omega arith

abbrev pub low_bits : ℕ → ℕ → ℕ
low_bits zero x = 0
low_bits (suc j) x = low_bits j (x / 2) * 2 + x % 2

-- A mask of low ones keeps the low bits.
pub bit_and-low : (j x : ℕ) → bit_and x (ones j) ≡ low_bits j x
bit_and-low zero x = bit_and-zero x
bit_and-low (suc j) x =
    omega
      (arith, bit_and-halves x (ones j * 2 + 1), bit_and-low j (x / 2), ap (bit_and (x / 2)) half)
  where
    half : (ones j * 2 + 1) / 2 ≡ ones j
    half = omega arith

pub low_bits-lt : (j x : ℕ) → low_bits j x ≤ ones j
low_bits-lt zero x = omega arith
low_bits-lt (suc j) x = omega (arith, low_bits-lt j (x / 2))
