-- ===== src/Base/Bits.antt =====
-- The bit operations at variables: `&` and `|` act field by field, at every width.
mod Digit
use Digit.{and_low_digit, or_low_digit}
use Prim.Native.Nat.{
  ℕ, zero, suc, ◌+◌, ◌-◌, ◌*◌, ◌/◌, ◌%◌, ◌^◌, ◌≤◌, ◌<◌, bit_and, bit_or, bit_or-bitwise,
}
use mathlib.Core.Path.{◌≡◌, refl, ap}
use mathlib.Core.WellFounded
use native.Mathlib.Nat.{pow-suc, one-le-pow}
use native.Mathlib.Omega.{arith}
use secos_ng.Base.Order.{lt_wf}

pub bit_and-zero : (a : ℕ) → bit_and a 0 ≡ 0
bit_and-zero a =
    WellFounded.induction lt_wf {C = λ n. bit_and n 0 ≡ 0} a
      λ n ih. ground (arith, and_low_digit n 0, ih (n / 2))

pub bit_or-zero : (a : ℕ) → bit_or a 0 ≡ a
bit_or-zero a =
    WellFounded.induction lt_wf {C = λ n. bit_or n 0 ≡ n} a
      λ n ih. ground (arith, or_low_digit n 0, ih (n / 2))

double-pow : (q k : ℕ) → q * 2 ^ suc k ≡ 2 * (q * 2 ^ k)
double-pow q k = omega (arith, ap (λ (t : ℕ). q * t) (pow-suc 2 k))

-- The digits from the `k`-th on and the `k` digits below them are combined apart.
pub bit_and_fields :
    (a b k r s : ℕ)
    → r < 2 ^ k
    → s < 2 ^ k
    → bit_and (a * 2 ^ k + r) (b * 2 ^ k + s) ≡ bit_and a b * 2 ^ k + bit_and r s
bit_and_fields a b zero zero zero hr hs = ground arith
bit_and_fields a b zero (suc r) s hr hs = absurd (omega arith)
bit_and_fields a b zero zero (suc s) hr hs = absurd (omega arith)
bit_and_fields a b (suc k) r s hr hs = ground (
  arith,
  pow-suc 2 k,
  and_low_digit (a * 2 ^ suc k + r) (b * 2 ^ suc k + s),
  and_low_digit r s,
  double-pow a k,
  double-pow b k,
  double-pow (bit_and a b) k,
  bit_and_fields a b k (r / 2) (s / 2) (omega (arith, pow-suc 2 k)) (omega (arith, pow-suc 2 k)),
)

pub bit_or_fields :
    (a b k r s : ℕ)
    → r < 2 ^ k
    → s < 2 ^ k
    → bit_or (a * 2 ^ k + r) (b * 2 ^ k + s) ≡ bit_or a b * 2 ^ k + bit_or r s
bit_or_fields a b zero zero zero hr hs = ground arith
bit_or_fields a b zero (suc r) s hr hs = absurd (omega arith)
bit_or_fields a b zero zero (suc s) hr hs = absurd (omega arith)
bit_or_fields a b (suc k) r s hr hs = ground (
  arith,
  pow-suc 2 k,
  or_low_digit (a * 2 ^ suc k + r) (b * 2 ^ suc k + s),
  or_low_digit r s,
  double-pow a k,
  double-pow b k,
  double-pow (bit_or a b) k,
  bit_or_fields a b k (r / 2) (s / 2) (omega (arith, pow-suc 2 k)) (omega (arith, pow-suc 2 k)),
)

pub bit_and-one : (a : ℕ) → bit_and a 1 ≡ a % 2
bit_and-one a = omega (arith, and_low_digit a 1, bit_and-zero (a / 2))

ones : (k r : ℕ) → r < 2 ^ k → bit_and r (2 ^ k - 1) ≡ r
ones zero r h = rw bit_and-zero (omega arith)
ones (suc k) r h = ground (
  arith,
  pow-suc 2 k,
  one-le-pow k 2,
  and_low_digit r (2 ^ suc k - 1),
  ones k (r / 2) (omega (arith, pow-suc 2 k)),
)

-- A mask of `k` low ones is the remainder by `2 ^ k`.
pub bit_and_low : (k a : ℕ) → bit_and a (2 ^ k - 1) ≡ a % 2 ^ k
bit_and_low k a = ground (
  arith,
  one-le-pow k 2,
  bit_and_fields (a / 2 ^ k) 0 k (a % 2 ^ k) (2 ^ k - 1),
  bit_and-zero (a / 2 ^ k),
  ones k (a % 2 ^ k),
)

-- A mask that starts at bit `k` reads the digits from there on.
pub bit_and_high : (k m a : ℕ) → bit_and a (m * 2 ^ k) ≡ bit_and (a / 2 ^ k) m * 2 ^ k
bit_and_high k m a =
    ground (
      arith,
      one-le-pow k 2,
      bit_and_fields (a / 2 ^ k) m k (a % 2 ^ k) 0,
      bit_and-zero (a % 2 ^ k),
    )

-- A single bit.
pub bit_and_bit : (k a : ℕ) → bit_and a (1 * 2 ^ k) ≡ a / 2 ^ k % 2 * 2 ^ k
bit_and_bit k a = ground (arith, bit_and_high k 1 a, bit_and-one (a / 2 ^ k))

-- `(q << k) | r` is a sum where `r` fits the `k` bits.
pub bit_or_sum : (k q r : ℕ) → r < 2 ^ k → bit_or (q * 2 ^ k) r ≡ q * 2 ^ k + r
bit_or_sum k q r h = ground (arith, bit_or_fields q 0 k 0 r, bit_or-zero q, bit_or-bitwise 0 r)

-- Setting the lowest bit.
pub bit_or-one : (a : ℕ) → bit_or a 1 ≡ a / 2 * 2 + 1
bit_or-one a = ground (arith, or_low_digit a 1, bit_or-zero (a / 2))
