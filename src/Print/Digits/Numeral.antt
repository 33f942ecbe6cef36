-- ===== src/Print/Digits/Numeral.antt =====
-- Numbers as texts, most significant digit first, and what such a text denotes.
use native.Mathlib.Nat.{
  pow-zero, pow-suc, div-lt_iff_lt-mul, one-le-pow, mul-add-mod_self_right, mod-eq_of_lt, mod-lt,
  div-add-mod',
}
use secos_ng.Base.{
  ℕ, zero, suc, ◌+◌, ◌-◌, ◌*◌, ◌/◌, ◌%◌, ◌^◌, ◌≤◌, ◌<◌, ◌≡◌, refl, ap, ◌∙◌, arith, ltb, leb, List,
  [], ◌∷◌, ◌++◌, if◌then◌else◌, length, length-append,
}

abbrev pub digit : ℕ → ℕ
digit d = if ltb d 10 then d + b'0' else d - 10 + b'a'

-- The digits of `v` in `base`; `n` bounds their number.
unfoldable pub numeral : ℕ → ℕ → ℕ → List ℕ
numeral base zero v = []
numeral base (suc n) v =
    let front = numeral base n (v / base) ++ digit (v % base) ∷ [] in
    if ltb v base then digit v ∷ [] else front

-- Exactly `n` digits of `v` in `base`, leading zeros included.
unfoldable pub fixed : ℕ → ℕ → ℕ → List ℕ
fixed base zero v = []
fixed base (suc n) v = fixed base n (v / base) ++ digit (v % base) ∷ []

digit_value : ℕ → ℕ
digit_value c = if leb c b'9' then c - b'0' else c - b'a' + 10

-- The number that a text of digits denotes, read from the left.
value_from : ℕ → ℕ → List ℕ → ℕ
unfolding digit_value
value_from base acc [] = acc
value_from base acc (c ∷ cs) = value_from base (acc * base + digit_value c) cs

value_from-append :
    (base acc : ℕ) (xs ys : List ℕ)
    → value_from base acc (xs ++ ys) ≡ value_from base (value_from base acc xs) ys
unfolding value_from
value_from-append base acc [] ys = refl
value_from-append base acc (x ∷ xs) ys = value_from-append base (acc * base + digit_value x) xs ys

digit_value-digit : (d : ℕ) → d < 36 → digit_value (digit d) ≡ d
unfolding digit_value
digit_value-digit d h = ground arith

-- A numeral with room for its digits denotes its number, in every base that the digits serve.
value-numeral :
    (base n v : ℕ) → 1 < base → base ≤ 36 → v < base ^ n → value_from base 0 (numeral base n v) ≡ v
unfolding numeral value_from
value-numeral base zero v lo hi h = omega (arith, pow-zero base)
value-numeral base (suc n) v lo hi h = ground (
  arith,
  digit_value-digit v,
  digit_value-digit (v % base),
  mod-lt v {m = base} (omega arith),
  div-add-mod' v base,
  value_from-append base 0 (numeral base n (v / base)) (digit (v % base) ∷ []),
  value-numeral base n (v / base) lo hi
      ((div-lt_iff_lt-mul {k = base} (omega arith)).1 (omega (arith, pow-suc base n))),
)

-- The last digit and the rest make up a remainder.
mod-split : (v b c : ℕ) → 0 < b → 0 < c → v % (c * b) ≡ v / b % c * b + v % b
mod-split v b c hb hc =
    let e : v ≡ v / b / c * (c * b) + (v / b % c * b + v % b) =
      omega (arith, ap (λ (t : ℕ). t * b) (div-add-mod' (v / b) c), div-add-mod' v b) in
    let small : v / b % c * b + v % b < c * b =
      grind (arith, mod-lt (v / b) {m = c} hc, mod-lt v {m = b} hb) in
    ap (λ (t : ℕ). t % (c * b)) e
    ∙ mul-add-mod_self_right (v / b / c) (c * b) (v / b % c * b + v % b)
    ∙ mod-eq_of_lt small

-- A text of fixed length denotes what is left of its number at that length.
value-fixed :
    (base n v : ℕ) → 1 < base → base ≤ 36 → value_from base 0 (fixed base n v) ≡ v % base ^ n
unfolding fixed value_from
value-fixed base zero v lo hi = omega (arith, pow-zero base)
value-fixed base (suc n) v lo hi = ground (
  arith,
  digit_value-digit (v % base),
  mod-lt v {m = base} (omega arith),
  pow-suc base n,
  mod-split v base (base ^ n) (omega arith) (one-le-pow n base (omega arith)),
  value_from-append base 0 (fixed base n (v / base)) (digit (v % base) ∷ []),
  value-fixed base n (v / base) lo hi,
)

length-fixed : (base n v : ℕ) → length (fixed base n v) ≡ n
unfolding fixed
length-fixed base zero v = refl
length-fixed base (suc n) v = omega (
  arith,
  length-append {0} (fixed base n (v / base)) (digit (v % base) ∷ []),
  length-fixed base n (v / base),
)

length-numeral-le : (base n v : ℕ) → length (numeral base n v) ≤ n
unfolding numeral
length-numeral-le base zero v = omega (arith, pow-zero base)
length-numeral-le base (suc n) v = ground (
  arith,
  length-append (numeral base n (v / base)) (digit (v % base) ∷ []),
  length-numeral-le base n (v / base),
)
