-- ===== src/Shared/Bits.antt =====
-- `|` of disjoint fields and `&` with low ones, as arithmetic.
use Prim.Native.Nat.{
  ℕ, zero, suc, ◌+◌, ◌-◌, ◌*◌, ◌/◌, ◌%◌, ◌^◌, ◌≤◌, ◌<◌, max, min, digits, bit_or, bit_and,
  bit_or-bitwise, bit_and-bitwise,
}
use mathlib.Core.Path.{◌≡◌, refl, ap, ◌∙◌}
use native.Mathlib.Nat.{pow-suc, one-le-pow, mul-le-mul_left}
use native.Mathlib.Omega.{arith}

-- The digit recursions behind the two operations, with a count of digits to go.
abbrev or_digits : ℕ → ℕ → ℕ → ℕ
or_digits = digits (λ b. b) max

abbrev and_digits : ℕ → ℕ → ℕ → ℕ
and_digits = digits (λ b. zero) min

or_digits-zero : (n a : ℕ) → a ≤ n → or_digits n a 0 ≡ a
or_digits-zero zero zero h = refl
or_digits-zero zero (suc a) h = absurd (omega arith)
or_digits-zero (suc n) zero h = refl
or_digits-zero (suc n) (suc a) h = omega (arith, or_digits-zero n (suc a / 2) (omega arith))

double-pow : (q k : ℕ) → q * 2 ^ suc k ≡ 2 * (q * 2 ^ k)
double-pow q k = omega (arith, ap (λ (t : ℕ). q * t) (pow-suc 2 k))

or_digits-field : (n a k q r : ℕ) → a ≤ n → a ≡ q * 2 ^ k → r < 2 ^ k → or_digits n a r ≡ a + r
or_digits-field zero zero k q r h e f = omega arith
or_digits-field zero (suc a) k q r h e f = absurd (omega arith)
or_digits-field (suc n) zero k q r h e f = omega arith
or_digits-field (suc n) (suc a) zero q zero h e f = or_digits-zero (suc n) (suc a) h ∙ omega arith
or_digits-field (suc n) (suc a) zero q (suc r) h e f = absurd (omega arith)
or_digits-field (suc n) (suc a) (suc k) q r h e f = omega (
  arith,
  double-pow q k,
  pow-suc 2 k,
  or_digits-field n (suc a / 2) k q (r / 2) (omega arith) (omega (arith, double-pow q k))
      (omega (arith, pow-suc 2 k)),
)

-- `(q << k) | r` is a sum where `r` fits below the field.
pub bit_or-field : (k q r : ℕ) → r < 2 ^ k → bit_or (q * 2 ^ k) r ≡ q * 2 ^ k + r
bit_or-field k q r h =
    bit_or-bitwise (q * 2 ^ k) r
    ∙ or_digits-field (q * 2 ^ k) (q * 2 ^ k) k q r (omega arith) refl h

and_digits-zero : (n a : ℕ) → and_digits n a 0 ≡ 0
and_digits-zero zero a = refl
and_digits-zero (suc n) zero = refl
and_digits-zero (suc n) (suc a) = omega (arith, and_digits-zero n (suc a / 2))

-- One more low digit in the mask.
and_digits-ones :
    (n a k q r : ℕ) → a ≤ n → a ≡ q * 2 ^ k + r → r < 2 ^ k → and_digits n a (2 ^ k - 1) ≡ r
and_digits-ones zero a k q r h e f = omega (arith, one-le-pow k 2)
and_digits-ones (suc n) zero k q r h e f = omega arith
and_digits-ones (suc n) (suc a) zero q r h e f = omega (arith, and_digits-zero (suc n) (suc a))
and_digits-ones (suc n) (suc a) (suc k) q r h e f =
    rw (half, odd)
      (omega (
        arith,
        double-pow q k,
        and_digits-ones n (suc a / 2) k q (r / 2) (omega arith) (omega (arith, double-pow q k))
            (omega (arith, pow-suc 2 k)),
      ))
  where
    half : (2 ^ suc k - 1) / 2 ≡ 2 ^ k - 1
    half = omega (arith, pow-suc 2 k, one-le-pow k 2)

    odd : (2 ^ suc k - 1) % 2 ≡ 1
    odd = omega (arith, pow-suc 2 k, one-le-pow k 2)

-- `a & (2 ^ k - 1)` is the remainder.
pub bit_and-ones : (k a : ℕ) → bit_and a (2 ^ k - 1) ≡ a % 2 ^ k
bit_and-ones k a =
    bit_and-bitwise a (2 ^ k - 1)
    ∙ and_digits-ones a a k (a / 2 ^ k) (a % 2 ^ k) (omega arith) (grind arith)
        (grind (arith, one-le-pow k 2))

-- The same with the field found by an equation.
pub bit_or-sum : (k : ℕ) (x q r : ℕ) → x ≡ q * 2 ^ k → r < 2 ^ k → bit_or x r ≡ x + r
bit_or-sum k x q r e h = ap (λ t. bit_or t r) e ∙ bit_or-field k q r h ∙ omega arith

-- A field of ones in the mask, with `j` zeros below it.
and_digits-field :
    (n a j k p q x r : ℕ)
    → a ≤ n
    → a ≡ x * 2 ^ j + r
    → r < 2 ^ j
    → x ≡ p * 2 ^ k + q
    → q < 2 ^ k
    → and_digits n a ((2 ^ k - 1) * 2 ^ j) ≡ q * 2 ^ j
and_digits-field n a zero k p q x r h e f g l =
    let mask : (2 ^ k - 1) * 2 ^ zero ≡ 2 ^ k - 1 = omega arith in
    ap (and_digits n a) mask ∙ and_digits-ones n a k p q h (omega arith) l ∙ omega arith
and_digits-field zero a (suc j) k p q x r h e f g l =
    let none : q ≡ 0 = omega (arith, mul-le-mul_left x (one-le-pow (suc j) 2 (omega arith))) in
    omega (arith, ap (λ t. t * 2 ^ suc j) none)
and_digits-field (suc n) zero (suc j) k p q x r h e f g l =
    let none : q ≡ 0 = omega (arith, mul-le-mul_left x (one-le-pow (suc j) 2 (omega arith))) in
    omega (arith, ap (λ t. t * 2 ^ suc j) none)
and_digits-field (suc n) (suc a) (suc j) k p q x r h e f g l =
    rw (half, even)
      (omega (
        arith,
        double-pow q j,
        and_digits-field n (suc a / 2) j k p q x (r / 2) (omega arith)
            (omega (arith, double-pow x j)) (omega (arith, pow-suc 2 j)) g l,
      ))
  where
    half : (2 ^ k - 1) * 2 ^ suc j / 2 ≡ (2 ^ k - 1) * 2 ^ j
    half = omega (arith, double-pow (2 ^ k - 1) j)

    even : (2 ^ k - 1) * 2 ^ suc j % 2 ≡ 0
    even = omega (arith, double-pow (2 ^ k - 1) j)

-- `a & ((2 ^ k - 1) << j)` is the field of `k` bits from `j` on, in its place.
pub bit_and-field : (j k a : ℕ) → bit_and a ((2 ^ k - 1) * 2 ^ j) ≡ a / 2 ^ j % 2 ^ k * 2 ^ j
bit_and-field j k a =
    bit_and-bitwise a ((2 ^ k - 1) * 2 ^ j)
    ∙ and_digits-field a a j k (a / 2 ^ j / 2 ^ k) (a / 2 ^ j % 2 ^ k) (a / 2 ^ j) (a % 2 ^ j)
        (omega arith) (grind arith) (grind (arith, one-le-pow j 2)) (grind arith)
        (grind (arith, one-le-pow k 2))

or_digits-above : (n a b : ℕ) → a ≤ n → (a ≤ or_digits n a b) × (b ≤ or_digits n a b)
or_digits-above zero zero b h = (omega arith, omega arith)
or_digits-above zero (suc a) b h = absurd (omega arith)
or_digits-above (suc n) zero b h = (omega arith, omega arith)
or_digits-above (suc n) (suc a) b h =
    let half = or_digits-above n (suc a / 2) (b / 2) (omega arith) in (omega arith, omega arith)

-- `|` has the bits of both.
pub bit_or-above : (a b : ℕ) → (a ≤ bit_or a b) × (b ≤ bit_or a b)
bit_or-above a b = rw (bit_or-bitwise a b) (or_digits-above a a b (omega arith))

and_digits-below : (n a b : ℕ) → a ≤ n → (and_digits n a b ≤ a) × (and_digits n a b ≤ b)
and_digits-below zero zero b h = (omega arith, omega arith)
and_digits-below zero (suc a) b h = absurd (omega arith)
and_digits-below (suc n) zero b h = (omega arith, omega arith)
and_digits-below (suc n) (suc a) b h =
    let half = and_digits-below n (suc a / 2) (b / 2) (omega arith) in (omega arith, omega arith)

-- `&` has no bits but those of both.
pub bit_and-below : (a b : ℕ) → (bit_and a b ≤ a) × (bit_and a b ≤ b)
bit_and-below a b = rw (bit_and-bitwise a b) (and_digits-below a a b (omega arith))
