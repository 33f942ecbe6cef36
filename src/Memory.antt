-- ===== src/Memory.antt =====
-- The 32-bit linear address space as a function from addresses to bytes, the string instructions
-- behind the macros of kernel/include/string.h, and the functions of that header.
-- `cld` runs before each instruction, so every pass goes upwards; Direction has the flags.
pub mod Fill
pub mod Copy
pub mod Scan
pub mod Words
pub mod Direction
use secos_ng.Base.{
  ℕ, zero, suc, ◌+◌, ◌-◌, ◌*◌, ◌/◌, ◌%◌, ◌^◌, ◌≤◌, ◌<◌, bit_or, Bool, ◌&&◌, leb, ltb, ◌==◌,
  if◌then◌else◌, u8, u16, u32, add32, sub32, ◌<<<◌,
}

abbrev pub Memory : Type 0
Memory = ℕ → ℕ

abbrev pub IsBytes : Memory → Type 0
IsBytes m = (a : ℕ) → m a < 256

-- A store of the low byte of `v`.
abbrev pub store8 : Memory → ℕ → ℕ → Memory
store8 m a v x = if x == a then u8 v else m x

-- A little-endian store and load of 32 bits; addresses wrap at 4 GB.
unfoldable pub store32 : Memory → ℕ → ℕ → Memory
store32 m a v =
    store8 (store8 (store8 (store8 m a v) (add32 a 1) (v / 2 ^ 8)) (add32 a 2) (v / 2 ^ 16))
      (add32 a 3) (v / 2 ^ 24)

unfoldable pub load32 : Memory → ℕ → ℕ
load32 m a = m a + 2 ^ 8 * m (add32 a 1) + 2 ^ 16 * m (add32 a 2) + 2 ^ 24 * m (add32 a 3)

-- Whether `x` is one of the `n` addresses from `a` on.
abbrev pub within : ℕ → ℕ → ℕ → Bool
within a n x = leb a x && ltb x (a + n)

-- `rep stosb` and `rep stosl`: count, destination, value.
pub stosb : ℕ → ℕ → ℕ → Memory → Memory
stosb zero d v m = m
stosb (suc n) d v m = stosb n (add32 d 1) v (store8 m d v)

pub stosl : ℕ → ℕ → ℕ → Memory → Memory
stosl zero d v m = m
stosl (suc n) d v m = stosl n (add32 d 4) v (store32 m d v)

-- `rep movsb` and `rep movsl`: count, destination, source.
unfoldable pub movsb : ℕ → ℕ → ℕ → Memory → Memory
movsb zero d s m = m
movsb (suc n) d s m = movsb n (add32 d 1) (add32 s 1) (store8 m d (m s))

pub movsl : ℕ → ℕ → ℕ → Memory → Memory
movsl zero d s m = m
movsl (suc n) d s m = movsl n (add32 d 4) (add32 s 4) (store32 m d (load32 m s))

-- `repnz scasb`: the address behind the last byte compared, and the count that is left.
pub scasb : ℕ → ℕ → ℕ → Memory → ℕ × ℕ
scasb zero d v m = (d, 0)
scasb (suc n) d v m =
    let rest = scasb n (add32 d 1) v m in if m d == v then (add32 d 1, n) else rest

abbrev pub rep_8_16 : ℕ → ℕ
rep_8_16 b = bit_or (u16 b <<< 8) (u16 b)

pub rep_8_32 : ℕ → ℕ
rep_8_32 b = u32 (bit_or (u32 (rep_8_16 b) <<< 16) (u32 (rep_8_16 b)))

-- The returned pointer and the memory left behind.
pub memset : ℕ → ℕ → ℕ → Memory → ℕ × Memory
memset dst c size m =
    let cnt = size / 4 in
    let rm = size % 4 in
    let words = if cnt == 0 then m else stosl cnt dst (rep_8_32 c) m in
    let dloc = if cnt == 0 then dst else add32 dst (cnt * 4) in
    if size == 0 then (dst, m) else (dst, if rm == 0 then words else stosb rm dloc c words)

pub memcpy : ℕ → ℕ → ℕ → Memory → ℕ × Memory
memcpy dst src size m =
    let cnt = size / 4 in
    let rm = size % 4 in
    let words = if cnt == 0 then m else movsl cnt dst src m in
    let dloc = if cnt == 0 then dst else add32 dst (cnt * 4) in
    let sloc = if cnt == 0 then src else add32 src (cnt * 4) in
    if size == 0 then (dst, m) else (dst, if rm == 0 then words else movsb rm dloc sloc words)

-- The null pointer is 0.
pub strchr : ℕ → ℕ → ℕ → Memory → ℕ
strchr str len c m = let (d, left) = scasb len str c m in if left == 0 then 0 else sub32 d 1

pub strlen : ℕ → Memory → ℕ
strlen str m = let (d, left) = scasb (2 ^ 32 - 1) str 0 m in sub32 (sub32 d 1) str
