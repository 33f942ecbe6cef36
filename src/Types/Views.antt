-- ===== src/Types/Views.antt =====
-- The views of one 64-bit word agree.
use secos_ng.Base.{ℕ, zero, suc, ◌+◌, ◌*◌, ◌^◌, ◌<◌, ◌≡◌, arith, List, [], ◌∷◌}
use secos_ng.Bitfield.{get, put}
use secos_ng.Types.{byte_at, blow, bhigh, wlow, whigh, low, high}

-- `byte[i]` to `byte[i + n - 1]` of a word.
abbrev pub split : ℕ → ℕ → ℕ → List ℕ
split zero i raw = []
split (suc n) i raw = get (byte_at i) raw ∷ split n (i + 1) raw

-- A word from its bytes, the lowest first.
abbrev pub join : List ℕ → ℕ
join [] = 0
join (b ∷ bs) = b + 2 ^ 8 * join bs

-- A 64-bit word is its halves, its low half is its low and high words, and its low word its low and
-- high bytes; its eight bytes make it up again, and so do its halves when they are written over
-- any other word.
pub raw64-views :
    (raw other : ℕ)
    → raw < 2 ^ 64
    → other < 2 ^ 64
    → (get low raw + 2 ^ 32 * get high raw ≡ raw)
      × (get wlow raw + 2 ^ 16 * get whigh raw ≡ get low raw)
      × (get blow raw + 2 ^ 8 * get bhigh raw ≡ get wlow raw)
      × (join (split 8 0 raw) ≡ raw)
      × (put high (get high raw) (put low (get low raw) other) ≡ raw)
raw64-views raw other h k = omega arith
