-- ===== src/Memory/Copy.antt =====
-- `memcpy` between ranges that do not overlap copies byte by byte.
use secos_ng.Base.{
  ℕ, zero, suc, ◌+◌, ◌-◌, ◌*◌, ◌/◌, ◌%◌, ◌^◌, ◌≤◌, ◌≡◌, ◌⊎◌, arith, if◌then◌else◌, add32,
}
use secos_ng.Memory.{Memory, IsBytes, within, store8, store32, load32, movsb, movsl, memcpy}

-- The `n` bytes at `a` and those at `b` are apart, and neither range passes 4 GB.
pub record Separate (a b n : ℕ) : Type 0 where
  pub apart : (a + n ≤ b) ⊎ (b + n ≤ a)
  pub room_a : a + n ≤ 2 ^ 32
  pub room_b : b + n ≤ 2 ^ 32

pub store8-IsBytes : (m : Memory) (a v : ℕ) → IsBytes m → IsBytes (store8 m a v)
store8-IsBytes m a v h x = ground (arith, h x)

pub movsb_lem :
    (n d s : ℕ) (m : Memory) (x : ℕ)
    → IsBytes m
    → Separate d s n
    → movsb n d s m x ≡ (if within d n x then m (s + (x - d)) else m x)
unfolding movsb
movsb_lem zero d s m x b h = ground arith
movsb_lem (suc zero) d s m x b h = ground (arith, b s)
movsb_lem (suc (suc n)) d s m x b h = ground (
  arith,
  b s,
  movsb_lem (suc n) (d + 1) (s + 1) (store8 m d (m s)) x (store8-IsBytes m d (m s) b)
      (record { apart = ground arith; room_a = omega arith; room_b = omega arith }),
)

store32-load32 :
    (m : Memory) (d s x : ℕ)
    → IsBytes m
    → d + 4 ≤ 2 ^ 32
    → s + 4 ≤ 2 ^ 32
    → store32 m d (load32 m s) x ≡ (if within d 4 x then m (s + (x - d)) else m x)
unfolding store32 load32
store32-load32 m d s x b hd hs = ground (arith, b s, b (s + 1), b (s + 2), b (s + 3))

pub store32-IsBytes : (m : Memory) (a v : ℕ) → IsBytes m → IsBytes (store32 m a v)
unfolding store32
store32-IsBytes m a v h x = ground (arith, h x)

pub movsl_lem :
    (n d s : ℕ) (m : Memory) (x : ℕ)
    → IsBytes m
    → Separate d s (n * 4)
    → movsl n d s m x ≡ (if within d (n * 4) x then m (s + (x - d)) else m x)
unfolding movsl
movsl_lem zero d s m x b h = ground arith
movsl_lem (suc zero) d s m x b h = ground (arith, store32-load32 m d s x b)
movsl_lem (suc (suc n)) d s m x b h = ground (
  arith,
  store32-load32 m d s x b,
  store32-load32 m d s (s + (x - d)) b,
  movsl_lem (suc n) (d + 4) (s + 4) (store32 m d (load32 m s)) x
      (store32-IsBytes m d (load32 m s) b)
      (record { apart = ground arith; room_a = omega arith; room_b = omega arith }),
)

movsl-IsBytes : (n d s : ℕ) (m : Memory) → IsBytes m → IsBytes (movsl n d s m)
unfolding movsl
movsl-IsBytes zero d s m b = b
movsl-IsBytes (suc n) d s m b =
    movsl-IsBytes n (add32 d 4) (add32 s 4) (store32 m d (load32 m s))
      (store32-IsBytes m d (load32 m s) b)

-- In a memory of bytes and between two ranges apart, both below 4 GB, `memcpy` returns its
-- destination; the `size` bytes from there on
-- become those of the source, and no other byte changes.
pub memcpy_lem :
    (dst src size : ℕ) (m : Memory)
    → IsBytes m
    → Separate dst src size
    → ((memcpy dst src size m).0 ≡ dst)
      × ((x : ℕ)
          → (memcpy dst src size m).1 x ≡ (if within dst size x then m (src + (x - dst)) else m x))
unfolding memcpy
memcpy_lem dst src size m b h = (
  ground arith,
  λ x. ground (
    arith,
    movsl_lem (size / 4) dst src m x b,
    movsb_lem (size % 4) dst src m x b
        (record { apart = ground arith; room_a = omega arith; room_b = omega arith }),
    movsb_lem (size % 4) (dst + size / 4 * 4) (src + size / 4 * 4) (movsl (size / 4) dst src m) x
        (movsl-IsBytes (size / 4) dst src m b)
        (record { apart = ground arith; room_a = omega arith; room_b = omega arith }),
    movsl_lem (size / 4) dst src m (src + (x - dst)) b,
  ),
)

pub memcpy-IsBytes :
    (dst src size : ℕ) (m : Memory)
    → IsBytes m
    → Separate dst src size
    → IsBytes (memcpy dst src size m).1
memcpy-IsBytes dst src size m b h x =
    let at = (memcpy_lem dst src size m b h).1 x in
    let from = b (src + (x - dst)) in let own = b x in ground (arith, at, from, own)
