-- ===== src/Bitfield.antt =====
-- C bit-fields of a packed union, as gcc lays them out on x86: from the lowest bit up. A member is
-- its position and width; reading and writing it act on the union's raw word.
pub mod Laws
pub mod Tiling
pub mod Assign
use secos_ng.Base.{ℕ, ◌+◌, ◌*◌, ◌/◌, ◌%◌, ◌^◌, ◌≤◌, ◌≡◌, ◌⊎◌, List, [], ◌∷◌}

pub record Field : Type 0 where
  pub lo : ℕ
  pub width : ℕ

abbrev pub bits : ℕ → ℕ → Field
bits lo width = record { lo = lo; width = width }

-- `x.f` as an rvalue.
abbrev pub get : Field → ℕ → ℕ
get f x = x / 2 ^ f.lo % 2 ^ f.width

-- The raw word after `x.f = v`, with `v` cut to the width of the member.
abbrev pub put : Field → ℕ → ℕ → ℕ
put f v x = (x / 2 ^ f.lo / 2 ^ f.width * 2 ^ f.width + v % 2 ^ f.width) * 2 ^ f.lo + x % 2 ^ f.lo

-- Two members share no bit.
abbrev pub Apart : Field → Field → Type 0
Apart f g = (f.lo + f.width ≤ g.lo) ⊎ (g.lo + g.width ≤ f.lo)

-- The members follow one another with no gap and no overlap, from bit `lo` to bit `hi`.
abbrev pub Tiles : ℕ → List Field → ℕ → Type 0
Tiles lo [] hi = lo ≡ hi
Tiles lo (f ∷ fs) hi = (f.lo ≡ lo) × Tiles (lo + f.width) fs hi

-- Two words have the same value at every member.
abbrev pub SameFields : List Field → ℕ → ℕ → Type 0
SameFields [] x y = Unit
SameFields (f ∷ fs) x y = (get f x ≡ get f y) × SameFields fs x y
