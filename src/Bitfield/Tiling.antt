-- ===== src/Bitfield/Tiling.antt =====
-- Members that tile a word determine it.
use native.Mathlib.Nat.{div-add-mod', div-eq_of_lt}
use secos_ng.Base.{ℕ, ◌+◌, ◌*◌, ◌/◌, ◌%◌, ◌^◌, ◌<◌, ◌≡◌, ap, sym, ◌∙◌, List, [], ◌∷◌, arith}
use secos_ng.Bitfield.{Field, Tiles, SameFields}
use secos_ng.Bitfield.Laws.{shifted}

-- A number is its quotient and remainder.
join : (w a b : ℕ) → a / w ≡ b / w → a % w ≡ b % w → a ≡ b
join w a b h k = omega (arith, div-add-mod' a w, div-add-mod' b w, ap (λ (t : ℕ). t * w) h)

-- From bit `lo` on, the members of the rest determine the digits.
from_bit :
    (fs : List Field) (lo hi x y : ℕ)
    → Tiles lo fs hi
    → x < 2 ^ hi
    → y < 2 ^ hi
    → SameFields fs x y
    → x / 2 ^ lo ≡ y / 2 ^ lo
from_bit [] lo hi x y t hx hy s =
    let same : x / 2 ^ hi ≡ y / 2 ^ hi = div-eq_of_lt hx ∙ sym (div-eq_of_lt hy) in
    ap (λ (k : ℕ). x / 2 ^ k) t ∙ same ∙ sym (ap (λ (k : ℕ). y / 2 ^ k) t)
from_bit (f ∷ fs) lo hi x y t hx hy s =
    join (2 ^ f.width) (x / 2 ^ lo) (y / 2 ^ lo)
      (sym (shifted x lo f.width)
        ∙ from_bit fs (lo + f.width) hi x y t.1 hx hy s.1
        ∙ shifted y lo f.width)
      (sym (ap (λ (k : ℕ). x / 2 ^ k % 2 ^ f.width) t.0)
        ∙ s.0
        ∙ ap (λ (k : ℕ). y / 2 ^ k % 2 ^ f.width) t.0)

-- Members that tile a word from bit 0 to its end determine the word.
pub SameFields-eq :
    (fs : List Field) (n x y : ℕ) → Tiles 0 fs n → x < 2 ^ n → y < 2 ^ n → SameFields fs x y → x ≡ y
SameFields-eq fs n x y t hx hy s = omega (arith, from_bit fs 0 n x y t hx hy s)
