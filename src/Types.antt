-- ===== src/Types.antt =====
-- kernel/include/types.h: the views of a word in halves and bytes, and the macros on aligned
-- addresses.
pub mod Views
pub mod Align
use secos_ng.Base.{ℕ, ◌+◌, ◌-◌, ◌*◌, ◌^◌, Bool, ◌==◌, ◌&&◌, leb, ltb, bit_and, add32, List, [], ◌∷◌}
use secos_ng.Bitfield.{Field, bits}

-- `byte[i]`
abbrev pub byte_at : ℕ → Field
byte_at i = bits (8 * i) 8

-- The members that all three unions have at the same place.
abbrev pub blow : Field
blow = bits 0 8

abbrev pub bhigh : Field
bhigh = bits 8 8

abbrev pub wlow : Field
wlow = bits 0 16

abbrev pub whigh : Field
whigh = bits 16 16

abbrev pub low : Field
low = bits 0 32

abbrev pub high : Field
high = bits 32 32

abbrev raw16 : List Field
raw16 = blow ∷ bhigh ∷ []

abbrev raw32 : List Field
raw32 = wlow ∷ whigh ∷ []

abbrev raw64 : List Field
raw64 = low ∷ high ∷ []

-- Of 32-bit operands; `val` is not 0.
pub aligned : ℕ → ℕ → Bool
aligned addr val = bit_and addr (val - 1) == 0

pub align : ℕ → ℕ → ℕ
align addr val = bit_and addr (2 ^ 32 - 1 - (val - 1))

pub align_next : ℕ → ℕ → ℕ
unfolding align
align_next addr val = align (add32 addr val) val

unfoldable range_inc : ℕ → ℕ → ℕ → Bool
range_inc v s e = leb s v && leb v e

unfoldable range_exc : ℕ → ℕ → ℕ → Bool
range_exc v s e = leb s v && ltb v e
