-- ===== src/Memory/Words.antt =====
-- 32-bit words at aligned addresses: what a store, a list of stores and a cleared page leave.
use secos_ng.Base.{
  ℕ, ◌+◌, ◌≤◌, ◌⊎◌, ◌%◌, ◌^◌, ◌<◌, ◌≡◌, refl, ap, ◌∙◌, arith, ◌==◌, ◌||◌, Bool, false,
  if◌then◌else◌, List, [], ◌∷◌, add32,
}
use secos_ng.Memory.{Memory, store32, load32, memset, within, IsBytes}
use secos_ng.Memory.Fill.{memset_lem}

-- The address of a word of the 4 GB.
abbrev pub IsWord : ℕ → Type 0
IsWord a = (a % 4 ≡ 0) × (a < 2 ^ 32)

pub load32-store32 :
    (m : Memory) (a v b : ℕ)
    → IsWord a
    → IsWord b
    → v < 2 ^ 32
    → load32 (store32 m a v) b ≡ (if a == b then v else load32 m b)
unfolding load32 store32
load32-store32 m a v b ha hb hv = ground arith

-- A word whose bytes are the same in two memories.
pub load32-same :
    (m m' : Memory) (a : ℕ)
    → a + 4 ≤ 2 ^ 32
    → ((x : ℕ) → x < a + 4 → m x ≡ m' x)
    → load32 m a ≡ load32 m' a
unfolding load32
load32-same m m' a r h = ground (arith, h a, h (add32 a 1), h (add32 a 2), h (add32 a 3))

-- A store of a word reaches no byte below it.
pub store32-below : (m : Memory) (a v x : ℕ) → a + 4 ≤ 2 ^ 32 → x < a → store32 m a v x ≡ m x
unfolding store32
store32-below m a v x r h = ground arith

-- Stores one after the other.
unfoldable pub set_all : List (ℕ × ℕ) → Memory → Memory
set_all [] m = m
set_all ((a, v) ∷ es) m = set_all es (store32 m a v)

-- The last of the stores at `a`, or what was there.
abbrev pub latest : List (ℕ × ℕ) → ℕ → ℕ → ℕ
latest [] b d = d
latest ((a, v) ∷ es) b d = latest es b (if a == b then v else d)

abbrev pub AreWords : List (ℕ × ℕ) → Type 0
AreWords [] = Unit
AreWords ((a, v) ∷ es) = IsWord a × (v < 2 ^ 32) × AreWords es

pub load32-set_all :
    (es : List (ℕ × ℕ)) (m : Memory) (b : ℕ)
    → AreWords es
    → IsWord b
    → load32 (set_all es m) b ≡ latest es b (load32 m b)
unfolding set_all
load32-set_all [] m b h hb = refl
load32-set_all ((a, v) ∷ es) m b h hb =
    load32-set_all es (store32 m a v) b h.2 hb
    ∙ ap (latest es b) (load32-store32 m a v b h.0 hb h.1)

-- `memset(page, 0, PAGE_SIZE)` of each page of a list.
unfoldable pub clear_all : List ℕ → Memory → Memory
clear_all [] m = m
clear_all (p ∷ ps) m = clear_all ps (memset p 0 4096 m).1

abbrev pub ArePages : List ℕ → Type 0
ArePages [] = Unit
ArePages (p ∷ ps) = (p % 4096 ≡ 0) × (p < 2 ^ 32) × ArePages ps

abbrev pub in_pages : List ℕ → ℕ → Bool
in_pages [] a = false
in_pages (p ∷ ps) a = within p 4096 a || in_pages ps a

load32-memset :
    (p b : ℕ) (m : Memory)
    → p % 4096 ≡ 0
    → p < 2 ^ 32
    → IsWord b
    → load32 (memset p 0 4096 m).1 b ≡ (if within p 4096 b then 0 else load32 m b)
unfolding load32
load32-memset p b m hp h hb =
    let f = (memset_lem p 0 4096 m (omega arith) (omega arith)).1 in
    ground (arith, f b, f (add32 b 1), f (add32 b 2), f (add32 b 3))

pub load32-clear_all :
    (ps : List ℕ) (m : Memory) (b : ℕ)
    → ArePages ps
    → IsWord b
    → load32 (clear_all ps m) b ≡ (if in_pages ps b then 0 else load32 m b)
unfolding clear_all
load32-clear_all [] m b h hb = refl
load32-clear_all (p ∷ ps) m b h hb =
    ground
      (arith, load32-clear_all ps (memset p 0 4096 m).1 b h.2 hb, load32-memset p b m h.0 h.1 hb)

pub store32-outside :
    (m : Memory) (a v x : ℕ) → a + 4 ≤ 2 ^ 32 → (x < a) ⊎ (a + 4 ≤ x) → store32 m a v x ≡ m x
unfolding store32
store32-outside m a v x r h = ground arith

pub load32-bound : (m : Memory) (a : ℕ) → IsBytes m → load32 m a < 2 ^ 32
unfolding load32
load32-bound m a b =
    let b0 = b a in
    let b1 = b (add32 a 1) in
    let b2 = b (add32 a 2) in let b3 = b (add32 a 3) in omega (arith, b0, b1, b2, b3)

pub load32-store32_self :
    (m : Memory) (a v : ℕ) → a + 4 ≤ 2 ^ 32 → v < 2 ^ 32 → load32 (store32 m a v) a ≡ v
unfolding load32 store32
load32-store32_self m a v r l = ground arith
