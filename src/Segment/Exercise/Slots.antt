-- ===== src/Segment/Exercise/Slots.antt =====
-- The entries of a table in memory, and what a store leaves of them.
use secos_ng.Base.{
  ℕ, zero, suc, ◌+◌, ◌*◌, ◌/◌, ◌%◌, ◌^◌, ◌≤◌, ◌<◌, ◌≡◌, ◌⊎◌, refl, ap, ap₂, sym, ◌∙◌, arith, List,
  [], ◌∷◌, length, add32,
}
use secos_ng.Memory.{Memory, IsBytes, store32, load32}
use secos_ng.Memory.Words.{store32-outside, load32-bound, load32-store32_self}
use secos_ng.Memory.Copy.{store32-IsBytes}
use secos_ng.Cpu.Push.{load32-shift}
use secos_ng.Segment.Dump.{raw_at}
use secos_ng.Segment.Dump.Rows.{Holds}
use secos_ng.Segment.Exercise.{store64, table}

raw_at-same :
    (m m' : Memory) (a : ℕ)
    → a + 8 ≤ 2 ^ 32
    → ((x : ℕ) → a ≤ x → x < a + 8 → m' x ≡ m x)
    → raw_at m' a ≡ raw_at m a
raw_at-same m m' a r h =
    let up : add32 a 4 ≡ a + 4 = omega arith in
    ap₂ (λ (x y : ℕ). x + 2 ^ 32 * y)
      (load32-shift m m' a a (omega arith) (omega arith)
        (λ j l. h (a + j) (omega arith) (omega arith)))
      (ap (load32 m') up
        ∙ load32-shift m m' (a + 4) (a + 4) (omega arith) (omega arith)
            (λ j l. h (a + 4 + j) (omega arith) (omega arith))
        ∙ sym (ap (load32 m) up))

pub raw_at_bound : (m : Memory) (a : ℕ) → IsBytes m → raw_at m a < 2 ^ 64
raw_at_bound m a b =
    let low = load32-bound m a b in
    let high = load32-bound m (add32 a 4) b in omega (arith, low, high)

pub store64-outside :
    (m : Memory) (a v x : ℕ) → a + 8 ≤ 2 ^ 32 → (x < a) ⊎ (a + 8 ≤ x) → store64 m a v x ≡ m x
unfolding store64 load32
store64-outside m a v x r o =
    store32-outside (store32 m a (v % 2 ^ 32)) (a + 4) (v / 2 ^ 32) x (omega arith) (omega arith)
    ∙ store32-outside m a (v % 2 ^ 32) x (omega arith) (omega arith)

pub store64-IsBytes : (m : Memory) (a v : ℕ) → IsBytes m → IsBytes (store64 m a v)
unfolding store64
store64-IsBytes m a v b =
    store32-IsBytes _ (a + 4) (v / 2 ^ 32) (store32-IsBytes m a (v % 2 ^ 32) b)

raw_at-store64 : (m : Memory) (a v : ℕ) → a + 8 ≤ 2 ^ 32 → v < 2 ^ 64 → raw_at (store64 m a v) a ≡ v
unfolding store64
raw_at-store64 m a v r l =
    let up : add32 a 4 ≡ a + 4 = omega arith in
    let low = store32 m a (v % 2 ^ 32) in
    ap₂ (λ (x y : ℕ). x + 2 ^ 32 * y)
      (load32-shift low (store32 low (a + 4) (v / 2 ^ 32)) a a (omega arith) (omega arith)
          (λ j i. store32-outside low (a + 4) (v / 2 ^ 32) (a + j) (omega arith) (omega arith))
        ∙ load32-store32_self m a (v % 2 ^ 32) (omega arith) (omega arith))
      (ap (load32 (store32 low (a + 4) (v / 2 ^ 32))) up
        ∙ load32-store32_self low (a + 4) (v / 2 ^ 32) (omega arith) (omega arith))
    ∙ omega arith

-- A table whose bytes are the same.
pub Holds-same :
    (ds : List ℕ) (m m' : Memory) (a : ℕ)
    → a + 8 * length ds ≤ 2 ^ 32
    → ((x : ℕ) → a ≤ x → x < a + 8 * length ds → m' x ≡ m x)
    → Holds m a ds
    → Holds m' a ds
Holds-same [] m m' a r h s = s
Holds-same (d ∷ ds) m m' a r h (at, rest) = (
  raw_at-same m m' a (omega arith) (λ x p q. h x p (omega arith)) ∙ at,
  Holds-same ds m m' (a + 8) (omega arith) (λ x p q. h x (omega arith) (omega arith)) rest,
)

abbrev pub set_at : ℕ → ℕ → List ℕ → List ℕ
set_at i v [] = []
set_at zero v (d ∷ ds) = v ∷ ds
set_at (suc i) v (d ∷ ds) = d ∷ set_at i v ds

pub Holds-store64 :
    (ds : List ℕ) (m : Memory) (a b i v : ℕ)
    → b ≡ a + 8 * i
    → i < length ds
    → v < 2 ^ 64
    → a + 8 * length ds ≤ 2 ^ 32
    → Holds m a ds
    → Holds (store64 m b v) a (set_at i v ds)
Holds-store64 [] m a b i v e l w r h = h
Holds-store64 (d ∷ ds) m a b zero v e l w r (at, rest) = (
  ap (raw_at (store64 m b v)) (omega arith) ∙ raw_at-store64 m b v (omega arith) w,
  Holds-same ds m (store64 m b v) (a + 8) (omega arith)
      (λ x p q. store64-outside m b v x (omega arith) (omega arith)) rest,
)
Holds-store64 (d ∷ ds) m a b (suc i) v e l w r (at, rest) = (
  raw_at-same m (store64 m b v) a (omega arith)
        (λ x p q. store64-outside m b v x (omega arith) (omega arith))
      ∙ at,
  Holds-store64 ds m (a + 8) b i v (omega arith) (omega arith) w (omega arith) rest,
)

pub table-Holds : (ds : List ℕ) (m : Memory) (a : ℕ) → Holds m a ds → table m a (length ds) ≡ ds
unfolding table
table-Holds [] m a h = refl
table-Holds (d ∷ ds) m a h = ap₂ (λ x xs. x ∷ xs) h.0 (table-Holds ds m (a + 8) h.1)
