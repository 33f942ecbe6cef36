-- ===== src/Base/Bits/Digit.antt =====
-- One equation for the lowest digit of `&` and of `|`. The native operations mean `bitwise`, a
-- recursion on fuel; `settle` says that any two fuels above the first argument agree.
use Prim.Native.Nat.{ℕ, zero, suc, ◌+◌, ◌*◌, ◌/◌, ◌%◌, ◌≤◌, bit_and, bit_or, min, max}
use Prim.Native.Nat.{digits, bitwise, bit_and-bitwise, bit_or-bitwise}
use mathlib.Core.Path.{◌≡◌, refl, ap}
use native.Mathlib.Omega.{arith}

module _ (rest : ℕ → ℕ) (op : ℕ → ℕ → ℕ) where
  settle : (f g x y : ℕ) → x ≤ f → x ≤ g → digits rest op f x y ≡ digits rest op g x y
  settle zero zero zero y hf hg = refl
  settle zero (suc g) zero y hf hg = refl
  settle (suc f) zero zero y hf hg = refl
  settle (suc f) (suc g) zero y hf hg = refl
  settle zero g (suc x) y hf hg = absurd (omega arith)
  settle (suc f) zero (suc x) y hf hg = absurd (omega arith)
  settle (suc f) (suc g) (suc x) y hf hg =
      ap (λ (t : ℕ). t * 2 + op (suc x % 2) (y % 2))
        (settle f g (suc x / 2) (y / 2) (omega arith) (omega arith))

  low_digit :
      (x y : ℕ)
      → bitwise rest op (suc x) y ≡ bitwise rest op (suc x / 2) (y / 2) * 2 + op (suc x % 2) (y % 2)
  low_digit x y =
      omega (arith, settle x (suc x / 2) (suc x / 2) (y / 2) (omega arith) (omega arith))

pub and_low_digit : (a b : ℕ) → bit_and a b ≡ bit_and (a / 2) (b / 2) * 2 + min (a % 2) (b % 2)
and_low_digit zero b = omega (arith, bit_and-bitwise 0 b, bit_and-bitwise 0 (b / 2))
and_low_digit (suc a) b = simp bit_and-bitwise (low_digit (λ y. 0) min a b)

pub or_low_digit : (a b : ℕ) → bit_or a b ≡ bit_or (a / 2) (b / 2) * 2 + max (a % 2) (b % 2)
or_low_digit zero b = omega (arith, bit_or-bitwise 0 b, bit_or-bitwise 0 (b / 2))
or_low_digit (suc a) b = simp bit_or-bitwise (low_digit (λ y. y) max a b)
