-- ===== src/Types/Align.antt =====
-- What the macros on aligned addresses compute, for sizes that are powers of two.
use native.Mathlib.Nat.{
  one-le-pow, mod-eq_of_lt, div-lt_iff_lt-mul, add-div_right, div-eq_of_lt, pow-le-pow_right,
}
use native.Mathlib.Decide.{dec_lt}
use secos_ng.Base.{
  ℕ, zero, suc, ◌+◌, ◌-◌, ◌*◌, ◌/◌, ◌%◌, ◌^◌, ◌≤◌, ◌<◌, ◌≡◌, ◌↔◌, ap, ◌∙◌, sym, arith, true,
  bit_and, add32, ltb, if◌then◌else◌,
}
use secos_ng.Base.Bits.{bit_and_low, bit_and_high}
use secos_ng.Bitfield.Laws.{pow-add}
use secos_ng.Types.{aligned, align, align_next}

one_less : (a b : ℕ) → 1 ≤ a → (a - 1) * b + b ≡ a * b
one_less zero b h = absurd (omega arith)
one_less (suc a) b h = let e : suc a - 1 ≡ a = omega arith in rw e (grind arith)

split_pow : (k : ℕ) → k < 32 → 2 ^ (32 - k) * 2 ^ k ≡ 2 ^ 32
split_pow k h =
    let e : 32 - k + k ≡ 32 = omega arith in sym (pow-add (32 - k) k) ∙ ap (λ (n : ℕ). 2 ^ n) e

-- The mask `~(val - 1)` is the high digits.
high_mask : (k : ℕ) → k < 32 → 2 ^ 32 - 1 - (2 ^ k - 1) ≡ (2 ^ (32 - k) - 1) * 2 ^ k
high_mask k h = omega (
  arith,
  one_less (2 ^ (32 - k)) (2 ^ k) (one-le-pow (32 - k) 2 (omega arith)),
  split_pow k h,
  one-le-pow k 2 (omega arith),
)

-- Rounding down to a multiple of the size.
align_pow : (k addr : ℕ) → k < 32 → addr < 2 ^ 32 → align addr (2 ^ k) ≡ addr / 2 ^ k * 2 ^ k
unfolding align
align_pow k addr h a =
    let fits : addr / 2 ^ k < 2 ^ (32 - k) =
      (div-lt_iff_lt-mul (one-le-pow k 2 (omega arith))).1 (omega (arith, split_pow k h)) in
    ap (bit_and addr) (high_mask k h)
    ∙ bit_and_high k (2 ^ (32 - k) - 1) addr
    ∙ ap (λ (t : ℕ). t * 2 ^ k) (bit_and_low (32 - k) (addr / 2 ^ k) ∙ mod-eq_of_lt fits)

small_pow : (k : ℕ) → k < 32 → 2 ^ k < 2 ^ 32
small_pow k h =
    let le : k ≤ 31 = omega arith in
    omega (arith, pow-le-pow_right {n = 2} (omega arith) {i = k} {j = 31} le)

align_next_pow :
    (k addr : ℕ)
    → k < 32
    → addr < 2 ^ 32
    → align_next addr (2 ^ k)
      ≡ (if ltb (addr + 2 ^ k) (2 ^ 32) then (addr / 2 ^ k + 1) * 2 ^ k else 0)
unfolding align_next
align_next_pow k addr h a = elim (dec_lt (addr + 2 ^ k) (2 ^ 32)) [
  | yes fits ↦
      let same : add32 addr (2 ^ k) ≡ addr + 2 ^ k = omega arith in
      let up : (addr + 2 ^ k) / 2 ^ k ≡ addr / 2 ^ k + 1 =
        add-div_right addr (one-le-pow k 2 (omega arith)) in
      ground (arith, same, up, align_pow k (addr + 2 ^ k) h fits)
  | no wraps ↦
      let small : 2 ^ k < 2 ^ 32 = small_pow k h in
      let r = addr + 2 ^ k - 2 ^ 32 in
      let same : add32 addr (2 ^ k) ≡ r = omega arith in
      let none_left : r / 2 ^ k ≡ 0 = div-eq_of_lt (omega arith) in
      ground (arith, same, none_left, align_pow k r h (omega arith))
]

-- For a size that is a power of two below 4 GB and a 32-bit address: an address is aligned when the
-- size divides it, aligning rounds it down to a multiple of the size, and `__align_next` is the
-- first multiple above the address, also where that is aligned itself; past the end of the 4 GB
-- it is 0.
pub align_lem :
    (k addr : ℕ)
    → k < 32
    → addr < 2 ^ 32
    → ((aligned addr (2 ^ k) ≡ true) ↔ (addr % 2 ^ k ≡ 0))
      × (align addr (2 ^ k) ≡ addr / 2 ^ k * 2 ^ k)
      × (align_next addr (2 ^ k)
          ≡ (if ltb (addr + 2 ^ k) (2 ^ 32) then (addr / 2 ^ k + 1) * 2 ^ k else 0))
unfolding aligned
align_lem k addr h a =
    (ground (arith, bit_and_low k addr), align_pow k addr h a, align_next_pow k addr h a)
