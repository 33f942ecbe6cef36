-- ===== src/Print/Digits/Laws.antt =====
-- Each conversion appends the text of its number, and its loop ends within the fuel.
use native.Mathlib.Nat.{pow-suc, pow-succ', div-div-eq-div-mul}
use secos_ng.Base.{
  ℕ, zero, suc, ◌+◌, ◌-◌, ◌/◌, ◌%◌, ◌^◌, ◌≤◌, ◌<◌, ◌≡◌, refl, ap, ap₂, sym, ◌∙◌, arith, ltb, ◌==◌,
  ==_iff, ◌||◌, ◌&&◌, not, every_sound, none, some, List, [], ◌∷◌, ◌++◌, if◌then◌else◌, length,
  get_or,
}
use secos_ng.Base.Bits.{bit_and_low, bit_and-one}
use native.Mathlib.Decide.{dec_lt}
use mathlib.Core.List.{append_assoc, append-nil}
use secos_ng.Print.Buffer.{Buffer, buf_add, add_all}
use secos_ng.Print.Digits.{
  add_bin, decimal_rep, add_udec, add_idec, hextable, hex_char, hex_more, hex_rep, hex_fuel,
  decimal_fuel, uint64_to_hex, add_hex,
}
use secos_ng.Print.Digits.Numeral.{digit, numeral, fixed}

decimal_rep_lem :
    (k v : ℕ) (rep : List ℕ)
    → 0 < v
    → v < 10 ^ k
    → decimal_rep (suc k) v rep ≡ some (numeral 10 k v ++ rep)
unfolding decimal_rep numeral
decimal_rep_lem zero v rep pos h = absurd (omega arith)
decimal_rep_lem (suc k) v rep pos h = ground (
  arith,
  pow-suc 10 k,
  append_assoc (numeral 10 k (v / 10)) (digit (v % 10) ∷ []) rep,
  decimal_rep_lem k (v / 10) ((v % 10 + b'0') ∷ rep),
)

table_lem : (d : ℕ) → d < 16 → get_or hextable d 0 ≡ digit d
table_lem d h =
    (==_iff (get_or hextable d 0) (digit d)).0
      (every_sound 16 (λ d. get_or hextable d 0 == digit d) d refl h)

hex_char_lem : (v : ℕ) → hex_char v ≡ digit (v % 16)
unfolding hex_char
hex_char_lem v = ground (arith, bit_and_low 4 v, table_lem (v % 16))

-- At a precision above 16 the loop goes on until the value is used up, for one digit at least.
hex_more_free : (p v n : ℕ) → 16 < p → hex_more p v n ≡ not (v == 0 && not (n == 0))
unfolding hex_more
hex_more_free p v n h = ground arith

-- At most at 16 the loop counts digits.
hex_more_counted : (p v n : ℕ) → p ≤ 16 → hex_more p v n ≡ not (p == 0)
unfolding hex_more
hex_more_counted p v n h = ground arith

-- With a precision that does not run out, the loop writes the numeral.
hex_rep_free :
    (k v p : ℕ) (rep : List ℕ)
    → 0 < v
    → v < 16 ^ k
    → 16 + k < p
    → p < 2 ^ 32
    → hex_rep (suc k) v p rep ≡ some (numeral 16 k v ++ rep)
unfolding hex_rep numeral
hex_rep_free zero v p rep pos h lo hi = absurd (omega arith)
hex_rep_free (suc k) v p rep pos h lo hi = ground (
  arith,
  pow-suc 16 k,
  hex_char_lem v,
  hex_more_free p v (length rep),
  hex_more_free (p - 1) (v / 16) (suc (length rep)),
  append_assoc (numeral 16 k (v / 16)) (digit (v % 16) ∷ []) rep,
  hex_rep_free k (v / 16) (p - 1) (hex_char v ∷ rep),
)

-- At a precision of `p` digits, exactly those are written.
hex_rep_counted :
    (k p v : ℕ) (rep : List ℕ) → p ≤ 16 → p < k → hex_rep k v p rep ≡ some (fixed 16 p v ++ rep)
unfolding hex_rep fixed
hex_rep_counted zero p v rep h lt = absurd (omega arith)
hex_rep_counted (suc k) zero v rep h lt = ground (arith, hex_more_counted 0 v (length rep))
hex_rep_counted (suc k) (suc p) v rep h lt = ground (
  arith,
  hex_char_lem v,
  hex_more_counted (suc p) v (length rep),
  append_assoc (fixed 16 p (v / 16)) (digit (v % 16) ∷ []) rep,
  hex_rep_counted k p (v / 16) (hex_char v ∷ rep),
)

-- The text that `uint64_to_hex` writes: as many digits as asked, or as the value has.
pub hex_text : ℕ → ℕ → List ℕ
hex_text value precision =
    if precision == 0 || ltb 16 precision then numeral 16 16 value else fixed 16 precision value

-- The default precision, at a value with one digit more than `k` at most.
hex_rep_default : (v : ℕ) → v < 2 ^ 64 → hex_rep hex_fuel v (2 ^ 32 - 1) [] ≡ some (numeral 16 16 v)
hex_rep_default v h = elim (dec_lt 0 v) [
  | yes pos ↦
      hex_rep_free 16 v (2 ^ 32 - 1) [] pos h (omega arith) (omega arith) ∙ ap some (append-nil _)
  | no z ↦ let e : v ≡ 0 = omega arith in rw e zero_case
]
  where
    zero_case : hex_rep hex_fuel 0 (2 ^ 32 - 1) [] ≡ some (numeral 16 16 0)
    zero_case = unfold hex_rep hex_more hex_char numeral in refl

-- For a 64-bit value `uint64_to_hex` appends the hexadecimal text of that precision and returns
-- its length, within its fuel.
pub uint64_to_hex_lem :
    (len v p : ℕ) (b : Buffer)
    → v < 2 ^ 64
    → uint64_to_hex len v p b ≡ some (length (hex_text v p), add_all len (hex_text v p) b)
unfolding uint64_to_hex hex_text
uint64_to_hex_lem len v p b h =
    ground (arith, hex_rep_default v h, hex_rep_counted hex_fuel p v [], append-nil (fixed 16 p v))

pub add_hex_lem :
    (len v : ℕ) (b : Buffer)
    → v < 2 ^ 64
    → add_hex len v 0 b ≡ some (add_all len (numeral 16 16 v) b)
unfolding add_hex hex_text
add_hex_lem len v b h = rw (uint64_to_hex_lem len v 0 b h)

decimal_rep_of_pos :
    (v : ℕ) → 0 < v → v < 2 ^ 64 → decimal_rep decimal_fuel v [] ≡ some (numeral 10 20 v)
decimal_rep_of_pos v pos h = decimal_rep_lem 20 v [] pos (omega arith) ∙ ap some (append-nil _)

zero_text : numeral 10 20 0 ≡ b'0' ∷ []
unfolding numeral
zero_text = refl

-- For a 64-bit value `__format_add_udec` appends the decimal numeral, within its fuel.
pub add_udec_lem :
    (len v : ℕ) (b : Buffer)
    → v < 2 ^ 64
    → add_udec len v b ≡ some (add_all len (numeral 10 20 v) b)
unfolding add_udec add_all
add_udec_lem len v b h = elim (dec_lt 0 v) [
  | yes pos ↦ ground (arith, decimal_rep_of_pos v pos h)
  | no z ↦ let e : v ≡ 0 = omega arith in rw (e, zero_text)
]

-- The text of a `sint64_t` pattern.
unfoldable pub signed_text : ℕ → List ℕ
signed_text v = if ltb v (2 ^ 63) then numeral 10 20 v else b'-' ∷ numeral 10 20 (2 ^ 64 - v)

-- For a 64-bit pattern `__format_add_idec` appends the signed decimal numeral, within its fuel,
-- except of the least `sint64_t`, whose negation C leaves undefined.
pub add_idec_lem :
    (len v : ℕ) (b : Buffer)
    → v < 2 ^ 64
    → add_idec len v b ≡ (if v == 2 ^ 63 then none else some (add_all len (signed_text v) b))
unfolding add_idec signed_text add_all
add_idec_lem len v b h = elim (dec_lt 0 v) [
  | yes pos ↦ ground (arith, decimal_rep_of_pos v pos h, decimal_rep_of_pos (2 ^ 64 - v))
  | no z ↦ let e : v ≡ 0 = omega arith in rw (e, zero_text)
]

-- The bits from the top down.
top_bits : ℕ → ℕ → List ℕ
top_bits zero v = []
top_bits (suc n) v = digit (v / 2 ^ n % 2) ∷ top_bits n v

add_bin-top_bits : (len v n : ℕ) (b : Buffer) → add_bin len v n b ≡ add_all len (top_bits n v) b
unfolding add_bin add_all top_bits
add_bin-top_bits len v zero b = refl
add_bin-top_bits len v (suc n) b = ground (
  arith,
  bit_and-one (v / 2 ^ n),
  add_bin-top_bits len v n (buf_add len b'0' b),
  add_bin-top_bits len v n (buf_add len b'1' b),
)

top_bits-half : (n v : ℕ) → top_bits (suc n) v ≡ top_bits n (v / 2) ++ digit (v % 2) ∷ []
unfolding top_bits
top_bits-half zero v = ground arith
top_bits-half (suc n) v =
    ap₂ (λ (x : ℕ) (xs : List ℕ). digit (x % 2) ∷ xs)
      (ap (λ (t : ℕ). v / t) (pow-succ' 2 n) ∙ sym (div-div-eq-div-mul v 2 (2 ^ n)))
      (top_bits-half n v)

top_bits-fixed : (n v : ℕ) → top_bits n v ≡ fixed 2 n v
unfolding fixed
top_bits-fixed zero v = unfold top_bits in refl
top_bits-fixed (suc n) v =
    top_bits-half n v ∙ ap (λ (xs : List ℕ). xs ++ digit (v % 2) ∷ []) (top_bits-fixed n (v / 2))

-- `__format_add_bin` appends exactly the `n` low binary digits of its value, the highest first.
pub add_bin_lem : (len v n : ℕ) (b : Buffer) → add_bin len v n b ≡ add_all len (fixed 2 n v) b
add_bin_lem len v n b =
    add_bin-top_bits len v n b ∙ ap (λ xs. add_all len xs b) (top_bits-fixed n v)
