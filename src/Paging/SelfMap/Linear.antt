-- ===== src/Paging/SelfMap/Linear.antt =====
-- Where the first tables map an address to itself, stores with paging on are stores to memory.
use secos_ng.Base.{
  ℕ, zero, suc, ◌+◌, ◌-◌, ◌*◌, ◌/◌, ◌%◌, ◌^◌, ◌≤◌, ◌<◌, ◌≡◌, ◌≢◌, refl, ap, ◌∙◌, arith, false, some,
  List, [], ◌∷◌,
}
use secos_ng.Memory.{Memory, load32, store32}
use secos_ng.Memory.Words.{IsWord, set_all, load32-store32}
use secos_ng.Paging.{entry_at}
use secos_ng.Paging.Walk.{translate}
use secos_ng.Paging.Maps.{walk, to}
use secos_ng.Paging.SelfMap.{pgd, poke, pokes}

-- The words behind the four pages at 6 MB: a directory entry and four table entries.
pub record MapsTables (m : Memory) : Type 0 where
  pub entry : load32 m 0x600004 ≡ 0x602003
  pub page_0 : load32 m 0x602800 ≡ 0x600003
  pub page_1 : load32 m 0x602804 ≡ 0x601003
  pub page_2 : load32 m 0x602808 ≡ 0x602003
  pub page_3 : load32 m 0x60280c ≡ 0x603003

page_at :
    (m : Memory)
    → MapsTables m
    → (j : ℕ) → j < 4
    → load32 m (0x602800 + 4 * j) ≡ 0x600003 + 4096 * j
page_at m t zero h = t.page_0
page_at m t (suc zero) h = t.page_1
page_at m t (suc (suc zero)) h = t.page_2
page_at m t (suc (suc (suc zero))) h = t.page_3
page_at m t (suc (suc (suc (suc j)))) h = absurd (omega arith)

pub translate_same :
    (m : Memory) (a : ℕ) → MapsTables m → pgd ≤ a → a < 0x604000 → translate m pgd a ≡ to a false
translate_same m a t lo hi =
    let j = a / 4096 - 0x600 in
    let dir : entry_at pgd (a / 2 ^ 22 % 1024) ≡ 0x600004 = omega arith in
    let slot : entry_at 0x602000 (a / 4096 % 1024) ≡ 0x602800 + 4 * j = omega arith in
    walk m pgd a 0x602003 (0x600003 + 4096 * j) (ap (load32 m) dir ∙ t.entry)
      (ap (load32 m) slot ∙ page_at m t j (omega arith))
    ∙ ground arith

-- A word of those pages that is none of the five.
abbrev IsFree : ℕ → Type 0
IsFree a =
    IsWord a
    × (pgd ≤ a)
    × (a < 0x604000)
    × (a ≢ 0x600004)
    × (a ≢ 0x602800)
    × (a ≢ 0x602804)
    × (a ≢ 0x602808)
    × (a ≢ 0x60280c)

abbrev pub AreFree : List (ℕ × ℕ) → Type 0
AreFree [] = Unit
AreFree ((a, v) ∷ es) = IsFree a × (v < 2 ^ 32) × AreFree es

store32-MapsTables :
    (m : Memory) (a v : ℕ) → IsFree a → v < 2 ^ 32 → MapsTables m → MapsTables (store32 m a v)
store32-MapsTables m a v f h t = record {
  entry = load32-store32 m a v 0x600004 f.0 (omega arith) h ∙ ground (arith, t.entry);
  page_0 = load32-store32 m a v 0x602800 f.0 (omega arith) h ∙ ground (arith, t.page_0);
  page_1 = load32-store32 m a v 0x602804 f.0 (omega arith) h ∙ ground (arith, t.page_1);
  page_2 = load32-store32 m a v 0x602808 f.0 (omega arith) h ∙ ground (arith, t.page_2);
  page_3 = load32-store32 m a v 0x60280c f.0 (omega arith) h ∙ ground (arith, t.page_3);
}

poke_same :
    (m : Memory) (a v : ℕ)
    → MapsTables m
    → pgd ≤ a
    → a < 0x604000
    → poke m a v ≡ some (store32 m a v)
unfolding poke
poke_same m a v t lo hi = ground (arith, translate_same m a t lo hi)

-- A list of stores to free words.
pub pokes-set_all :
    (es : List (ℕ × ℕ)) (m : Memory)
    → AreFree es
    → MapsTables m
    → (pokes es m ≡ some (set_all es m)) × MapsTables (set_all es m)
unfolding pokes set_all
pokes-set_all [] m f t = (refl, t)
pokes-set_all ((a, v) ∷ es) m f t =
    let stored = poke_same m a v t f.0.1 f.0.2 in
    let kept = store32-MapsTables m a v f.0 f.1 t in
    let rest = pokes-set_all es (store32 m a v) f.2 kept in (ground (arith, stored, rest.0), rest.1)
