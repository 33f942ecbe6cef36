-- ===== src/Memory/Fill.antt =====
-- `memset` by words and a rest of bytes is `memset` byte by byte.
use secos_ng.Base.{ℕ, zero, suc, ◌+◌, ◌*◌, ◌/◌, ◌%◌, ◌^◌, ◌≤◌, ◌<◌, ◌≡◌, arith, if◌then◌else◌}
use secos_ng.Base.Bits.{bit_or_sum}
use secos_ng.Memory.{Memory, within, store8, store32, stosb, stosl, rep_8_16, rep_8_32, memset}

rep_8_16_lem : (c : ℕ) → c < 256 → rep_8_16 c ≡ c * 257
rep_8_16_lem c h = ground (arith, bit_or_sum 8 c c)

rep_8_32_lem : (c : ℕ) → c < 256 → rep_8_32 c ≡ c * 0x01010101
unfolding rep_8_32
rep_8_32_lem c h = rw (rep_8_16_lem c h) (ground (arith, bit_or_sum 16 (c * 257) (c * 257)))

stosb_lem :
    (n d v : ℕ) (m : Memory) (x : ℕ)
    → d + n ≤ 2 ^ 32
    → stosb n d v m x ≡ (if within d n x then v % 256 else m x)
unfolding stosb
stosb_lem zero d v m x h = ground arith
stosb_lem (suc n) d v m x h = ground (arith, stosb_lem n (d + 1) v (store8 m d v) x)

-- Four equal bytes.
store32_same :
    (m : Memory) (d c x : ℕ)
    → c < 256
    → d + 4 ≤ 2 ^ 32
    → store32 m d (c * 0x01010101) x ≡ (if within d 4 x then c else m x)
unfolding store32
store32_same m d c x hc hd = ground arith

pub stosl_lem :
    (n d c : ℕ) (m : Memory) (x : ℕ)
    → c < 256
    → d + n * 4 ≤ 2 ^ 32
    → stosl n d (c * 0x01010101) m x ≡ (if within d (n * 4) x then c else m x)
unfolding stosl
stosl_lem zero d c m x hc hd = ground arith
stosl_lem (suc n) d c m x hc hd =
    ground
      (arith, store32_same m d c x hc, stosl_lem n (d + 4) c (store32 m d (c * 0x01010101)) x hc)

-- For a byte `c` and a range below 4 GB, `memset` returns its destination; the `size` bytes from
-- there on become `c`, and no other byte changes.
pub memset_lem :
    (dst c size : ℕ) (m : Memory)
    → c < 256
    → dst + size ≤ 2 ^ 32
    → ((memset dst c size m).0 ≡ dst)
      × ((x : ℕ) → (memset dst c size m).1 x ≡ (if within dst size x then c else m x))
unfolding memset
memset_lem dst c size m hc hd = (
  ground arith,
  λ x. ground (
    arith,
    rep_8_32_lem c hc,
    stosl_lem (size / 4) dst c m x hc,
    stosb_lem (size % 4) (dst + size / 4 * 4) c m x,
    stosb_lem (size % 4) (dst + size / 4 * 4) c (stosl (size / 4) dst (rep_8_32 c) m) x,
  ),
)
