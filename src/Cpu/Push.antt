-- ===== src/Cpu/Push.antt =====
-- The stack as the processor's `push` leaves it, and words read back from memory.
use mathlib.Core.List.{reverse_aux}
use secos_ng.Base.{
  ℕ, zero, suc, ◌+◌, ◌-◌, ◌*◌, ◌^◌, ◌≤◌, ◌<◌, ◌⊎◌, ◌≡◌, refl, ap, ap₂, ◌∙◌, sym, arith, List, [],
  ◌∷◌, length, take, add32, sub32,
}
use secos_ng.Memory.{Memory, IsBytes, store32, load32}
use secos_ng.Memory.Copy.{store32-IsBytes}
use secos_ng.Memory.Words.{IsWord, load32-store32, store32-outside}

-- `push` of each word in turn, from the stack pointer `esp` down.
unfoldable pub push_all : Memory → ℕ → List ℕ → Memory
push_all m esp [] = m
push_all m esp (v ∷ vs) = push_all (store32 m (sub32 esp 4) v) (sub32 esp 4) vs

-- The `n` words from an address on.
unfoldable pub words : Memory → ℕ → ℕ → List ℕ
words m a zero = []
words m a (suc n) = load32 m a ∷ words m (add32 a 4) n

abbrev pub AreWords32 : List ℕ → Type 0
AreWords32 [] = Unit
AreWords32 (v ∷ vs) = (v < 2 ^ 32) × AreWords32 vs

words-store32 :
    (n : ℕ) (m : Memory) (a b v : ℕ)
    → IsWord a
    → IsWord b
    → v < 2 ^ 32
    → a + 4 ≤ b
    → b + 4 * n ≤ 2 ^ 32
    → words (store32 m a v) b n ≡ words m b n
unfolding words
words-store32 zero m a b v h k lt le r = refl
words-store32 (suc zero) m a b v h k lt le r = ground (arith, load32-store32 m a v b h k lt)
words-store32 (suc (suc n)) m a b v h k lt le r = ground (
  arith,
  load32-store32 m a v b h k lt,
  words-store32 (suc n) m a (add32 b 4) v h (omega arith) lt (omega arith) (omega arith),
)

top_word :
    (v : ℕ) (m : Memory) (esp k : ℕ)
    → IsWord esp
    → v < 2 ^ 32
    → 4 ≤ esp
    → esp + 4 * k ≤ 2 ^ 32
    → words (store32 m (sub32 esp 4) v) (sub32 esp 4) (suc k) ≡ v ∷ words m esp k
unfolding words
top_word v m esp k h lt r above =
    let low : sub32 esp 4 ≡ esp - 4 = omega arith in
    let up : add32 (sub32 esp 4) 4 ≡ esp = omega arith in
    ap₂ (λ x ws. x ∷ ws)
      (load32-store32 m (sub32 esp 4) v (sub32 esp 4) (omega arith) (omega arith) lt ∙ ground arith)
      (ap (λ (b : ℕ). words (store32 m (sub32 esp 4) v) b k) up
        ∙ words-store32 k m (sub32 esp 4) esp v (omega arith) h lt (omega arith) above)

-- The words pushed stand on the stack in reverse, below the `k` words that were on it.
pub words-push_all :
    (vs : List ℕ) (m : Memory) (esp k : ℕ)
    → IsWord esp
    → AreWords32 vs
    → 4 * length vs ≤ esp
    → esp + 4 * k ≤ 2 ^ 32
    → words (push_all m esp vs) (esp - 4 * length vs) (length vs + k)
      ≡ reverse_aux vs (words m esp k)
unfolding push_all
words-push_all [] m esp k h w r above = ap₂ (words m) (omega arith) (omega arith)
words-push_all (v ∷ vs) m esp k h w r above =
    let low : sub32 esp 4 ≡ esp - 4 = omega arith in
    let m1 = store32 m (sub32 esp 4) v in
    ap₂ (words (push_all m1 (sub32 esp 4) vs)) (omega arith) (omega arith)
    ∙ words-push_all vs m1 (sub32 esp 4) (suc k) (omega arith) w.1 (omega arith) (omega arith)
    ∙ ap (reverse_aux vs) (top_word v m esp k h w.0 (omega arith) above)

-- Fewer words are the first ones of more.
pub take-words : (n k : ℕ) (m : Memory) (a : ℕ) → take n (words m a (n + k)) ≡ words m a n
unfolding words
take-words zero k m a = refl
take-words (suc n) k m a =
    let count : suc n + k ≡ suc (n + k) = omega arith in
    ap (λ (j : ℕ). take (suc n) (words m a j)) count
    ∙ ap (λ ws. load32 m a ∷ ws) (take-words n k m (add32 a 4))

pub load32-shift :
    (m m' : Memory) (a b : ℕ)
    → a + 4 ≤ 2 ^ 32
    → b + 4 ≤ 2 ^ 32
    → ((j : ℕ) → j < 4 → m' (a + j) ≡ m (b + j))
    → load32 m' a ≡ load32 m b
unfolding load32
load32-shift m m' a b ha hb h =
    let h0 = h 0 (omega arith) in
    let h1 = h 1 (omega arith) in
    let h2 = h 2 (omega arith) in let h3 = h 3 (omega arith) in ground (arith, h0, h1, h2, h3)

-- Two ranges with the same bytes have the same words.
pub words-shift :
    (k : ℕ) (m m' : Memory) (a b : ℕ)
    → a + 4 * k ≤ 2 ^ 32
    → b + 4 * k ≤ 2 ^ 32
    → ((j : ℕ) → j < 4 * k → m' (a + j) ≡ m (b + j))
    → words m' a k ≡ words m b k
unfolding words
words-shift zero m m' a b ha hb h = refl
words-shift (suc zero) m m' a b ha hb h =
    ap (λ w. w ∷ []) (load32-shift m m' a b (omega arith) (omega arith) (λ j l. h j (omega arith)))
words-shift (suc (suc k)) m m' a b ha hb h =
    let up : add32 a 4 ≡ a + 4 = omega arith in
    let up' : add32 b 4 ≡ b + 4 = omega arith in
    ap₂ (λ w ws. w ∷ ws)
      (load32-shift m m' a b (omega arith) (omega arith) (λ j l. h j (omega arith)))
      (ap (λ x. words m' x (suc k)) up
        ∙ words-shift (suc k) m m' (a + 4) (b + 4) (omega arith) (omega arith)
            (λ j l. ap m' (omega arith) ∙ h (4 + j) (omega arith) ∙ ap m (omega arith))
        ∙ ap (λ x. words m x (suc k)) (sym up'))

-- Pushes reach no byte but those of their words.
pub push_all-outside :
    (vs : List ℕ) (m : Memory) (esp x : ℕ)
    → 4 * length vs ≤ esp
    → esp ≤ 2 ^ 32
    → (x < esp - 4 * length vs) ⊎ (esp ≤ x)
    → push_all m esp vs x ≡ m x
unfolding push_all
push_all-outside [] m esp x r h o = refl
push_all-outside (v ∷ vs) m esp x r h o =
    let low : sub32 esp 4 ≡ esp - 4 = omega arith in
    push_all-outside vs (store32 m (sub32 esp 4) v) (sub32 esp 4) x (omega arith) (omega arith)
      (omega arith)
    ∙ store32-outside m (sub32 esp 4) v x (omega arith) (omega arith)

pub push_all-IsBytes :
    (vs : List ℕ) (m : Memory) (esp : ℕ) → IsBytes m → IsBytes (push_all m esp vs)
unfolding push_all
push_all-IsBytes [] m esp b = b
push_all-IsBytes (v ∷ vs) m esp b =
    push_all-IsBytes vs (store32 m (sub32 esp 4) v) (sub32 esp 4)
      (store32-IsBytes m (sub32 esp 4) v b)
