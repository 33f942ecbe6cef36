-- ===== src/Print/Digits.antt =====
-- The number conversions of print.c: `__format_add_bin`, `__format_add_idec`,
-- `__format_add_udec` and `uint64_to_hex`. A `uint64_t` or `sint64_t` is its 64-bit pattern. The
-- array `rep` is a list, the entry written last first, which is the order it is read in.
-- `none` is a loop cut short by its fuel, or a negation that overflows `sint64_t`.
pub mod Numeral
pub mod Laws
use mathlib.Core.Option
use secos_ng.Base.{
  ℕ, zero, suc, ◌+◌, ◌-◌, ◌*◌, ◌/◌, ◌%◌, ◌^◌, bit_and, Bool, ◌&&◌, ◌||◌, not, Option, none, some,
  List, [], ◌∷◌, length, get_or, ltb, ◌==◌, if◌then◌else◌, sub32, ◌>>>◌,
}
use secos_ng.Print.Buffer.{Buffer, buf_add, add_all}

-- `for(i=0 ; i<n ; i++)`, with `left` rounds to go; `n-i-1` is one less.
pub add_bin : ℕ → ℕ → ℕ → Buffer → Buffer
add_bin len value zero b = b
add_bin len value (suc left) b =
    let bit = bit_and (value >>> left) 1 in
    add_bin len value left (buf_add len (if bit == 0 then b'0' else b'1') b)

-- `while(value) { rep[sz++] = (value%10) + '0'; value /= 10; }`
pub decimal_rep : ℕ → ℕ → List ℕ → Option (List ℕ)
decimal_rep zero value rep = none
decimal_rep (suc f) value rep =
    let rest = decimal_rep f (value / 10) ((value % 10 + b'0') ∷ rep) in
    if value == 0 then some rep else rest

-- Rounds for 20 digits, as `2 ^ 64 < 10 ^ 20`, and one for the test that ends the loop.
abbrev pub decimal_fuel : ℕ
decimal_fuel = 21

pub add_udec : ℕ → ℕ → Buffer → Option Buffer
add_udec len value b =
    if value == 0
    then some (buf_add len b'0' b)
    else Option.map (λ rep. add_all len rep b) (decimal_rep decimal_fuel value [])

-- With the sign taken off, `value` is not negative, and `/` and `%` are those of ℕ. The negation
-- of the least `sint64_t` is not defined.
pub add_idec : ℕ → ℕ → Buffer → Option Buffer
add_idec len value b =
    if value == 0
    then some (buf_add len b'0' b)
    else if ltb value (2 ^ 63)
    then Option.map (λ rep. add_all len rep b) (decimal_rep decimal_fuel value [])
    else if value == 2 ^ 63
    then none
    else Option.map (λ rep. add_all len rep (buf_add len b'-' b))
        (decimal_rep decimal_fuel (2 ^ 64 - value) [])

abbrev pub hextable : List ℕ
hextable =
    b'0' ∷ b'1' ∷ b'2' ∷ b'3' ∷ b'4' ∷ b'5' ∷ b'6' ∷ b'7' ∷ b'8' ∷ b'9' ∷ b'a' ∷ b'b' ∷ b'c' ∷ b'd'
    ∷ b'e' ∷ b'f' ∷ []

-- `__hextable[value & 0xf]`
pub hex_char : ℕ → ℕ
hex_char value = get_or hextable (bit_and value 0xf) 0

-- The test of the loop.
pub hex_more : ℕ → ℕ → ℕ → Bool
hex_more precision value rsz =
    not (precision == 0) && not (ltb 16 precision && value == 0 && not (rsz == 0))

pub hex_rep : ℕ → ℕ → ℕ → List ℕ → Option (List ℕ)
hex_rep zero value precision rep = none
hex_rep (suc f) value precision rep =
    let rest = hex_rep f (value >>> 4) (sub32 precision 1) (hex_char value ∷ rep) in
    if hex_more precision value (length rep) then rest else some rep

-- 16 digits at most, and one round for the test that ends the loop.
abbrev pub hex_fuel : ℕ
hex_fuel = 17

-- The number of digits, and the buffer.
pub uint64_to_hex : ℕ → ℕ → ℕ → Buffer → Option (ℕ × Buffer)
uint64_to_hex len value precision b =
    let precision' = if precision == 0 || ltb 16 precision then 2 ^ 32 - 1 else precision in
    Option.map (λ rep. (length rep, add_all len rep b)) (hex_rep hex_fuel value precision' [])

pub add_hex : ℕ → ℕ → ℕ → Buffer → Option Buffer
add_hex len value precision b = Option.map (λ r. r.1) (uint64_to_hex len value precision b)
