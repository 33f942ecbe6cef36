-- ===== src/Print/Buffer.antt =====
-- `buffer_t` and `__buf_add`: bytes appended to an array as long as they fit.
use secos_ng.Base.{
  ℕ, zero, suc, ◌+◌, ◌%◌, ◌^◌, ◌≤◌, ◌<◌, ◌≡◌, refl, arith, ltb, if◌then◌else◌, List, [], ◌∷◌, ◌++◌,
  length, get_or, add32, ◌⊎◌, lt→ltb,
}
use Prim.Native.Nat.{min}
use native.Mathlib.Decide.{dec_lt}
use secos_ng.Memory.{Memory, store8}

-- `buffer_t`, with the memory that `data` points into.
pub record Buffer : Type 0 where
  pub addr : ℕ
  pub sz : ℕ
  pub mem : Memory

pub buf_add : ℕ → ℕ → Buffer → Buffer
buf_add len c b =
    if ltb b.sz len
    then record b { mem = store8 b.mem (add32 b.addr b.sz) c; sz = add32 b.sz 1 }
    else b

-- The bytes added one after the other.
unfoldable pub add_all : ℕ → List ℕ → Buffer → Buffer
add_all len [] b = b
add_all len (c ∷ cs) b = add_all len cs (buf_add len c b)

pub add_all-append :
    (len : ℕ) (xs ys : List ℕ) (b : Buffer)
    → add_all len (xs ++ ys) b ≡ add_all len ys (add_all len xs b)
unfolding add_all
add_all-append len [] ys b = refl
add_all-append len (x ∷ xs) ys b = add_all-append len xs ys (buf_add len x b)

-- As many bytes are stored as fit below `len`, in order behind those that are there; `sz` counts
-- them, and no other byte of memory changes.
pub record Added (len : ℕ) (cs : List ℕ) (b b' : Buffer) : Type 0 where
  pub same_addr : b'.addr ≡ b.addr
  pub size : b'.sz ≡ min len (b.sz + length cs)
  pub stored : (i : ℕ) → b.sz + i < b'.sz → b'.mem (b.addr + b.sz + i) ≡ get_or cs i 0 % 256
  pub kept : (x : ℕ) → (x < b.addr + b.sz) ⊎ (b.addr + b'.sz ≤ x) → b'.mem x ≡ b.mem x

-- The buffer after one byte that fits.
abbrev push : ℕ → Buffer → Buffer
push c b = record b { mem = store8 b.mem (b.addr + b.sz) c; sz = b.sz + 1 }

buf_add_room :
    (len c : ℕ) (b : Buffer) → b.sz < len → b.addr + len < 2 ^ 32 → buf_add len c b ≡ push c b
unfolding buf_add
buf_add_room len c b h r =
    let e : add32 b.addr b.sz ≡ b.addr + b.sz = omega arith in
    let e' : add32 b.sz 1 ≡ b.sz + 1 = omega arith in rw (lt→ltb b.sz len h, e, e')

buf_add_full : (len c : ℕ) (b : Buffer) → ¬ (b.sz < len) → buf_add len c b ≡ b
unfolding buf_add
buf_add_full len c b h = ground arith

module _ (len c : ℕ) (cs : List ℕ) (b b' : Buffer) where
  Added-push : b.sz < len → Added len cs (push c b) b' → Added len (c ∷ cs) b b'
  Added-push h a = record {
    same_addr = a.same_addr;
    size = omega (arith, a.size);
    stored = at;
    kept = λ x p. ground (arith, a.kept x);
  }
    where
      at : (i : ℕ) → b.sz + i < b'.sz → b'.mem (b.addr + b.sz + i) ≡ get_or (c ∷ cs) i 0 % 256
      at zero lt =
          let e : b.addr + b.sz + 0 ≡ b.addr + b.sz = omega arith in
          rw e (ground (arith, a.kept (b.addr + b.sz)))
      at (suc i) lt =
          let e : b.addr + b.sz + suc i ≡ b.addr + (b.sz + 1) + i = omega arith in
          rw e (a.stored i (omega arith))

  Added-full : ¬ (b.sz < len) → b.sz ≤ len → Added len cs b b' → Added len (c ∷ cs) b b'
  Added-full h k a = record {
    same_addr = a.same_addr;
    size = omega (arith, a.size);
    stored = λ i lt. absurd (omega (arith, a.size));
    kept = a.kept;
  }

-- Where `sz` is at most `len` and the buffer lies below 4 GB, the bytes are added as `Added` says:
-- as many as fit, in order, and nothing behind them changes.
pub add_all-Added :
    (len : ℕ) (cs : List ℕ) (b : Buffer)
    → b.sz ≤ len
    → b.addr + len < 2 ^ 32
    → Added len cs b (add_all len cs b)
unfolding add_all
add_all-Added len [] b h r = record {
  same_addr = refl;
  size = omega arith;
  stored = λ i lt. absurd (omega arith);
  kept = λ x p. refl;
}
add_all-Added len (c ∷ cs) b h r = elim (dec_lt b.sz len) [
  | yes room ↦ rw (buf_add_room len c b room r) (
      Added-push len c cs b (add_all len cs (push c b)) room
        (add_all-Added len cs (push c b) (omega arith) r))
  | no full ↦
      rw (buf_add_full len c b full)
        (Added-full len c cs b (add_all len cs b) full h (add_all-Added len cs b h r))
]
