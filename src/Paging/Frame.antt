-- ===== src/Paging/Frame.antt =====
-- What `config_pgds` of tp_exam/tp.c leaves of the memory below its tables, and that each byte behind
-- it depends on the same byte before it alone.
use secos_ng.Base.{
  ℕ, zero, suc, ◌+◌, ◌^◌, ◌≤◌, ◌<◌, ◌≡◌, refl, ◌∙◌, sym, arith, Bool, true, false, List, [], ◌∷◌,
  if◌then◌else◌,
}
use secos_ng.Memory.{Memory, store32, memset, within}
use secos_ng.Memory.Fill.{memset_lem}
use secos_ng.Memory.Words.{set_all, clear_all, store32-below, ArePages}
use secos_ng.Paging.{pgd, pages, round, fill, links, Machine, config_pgds}

module _ (m m' : Memory) (x : ℕ) (h : m x ≡ m' x) where
  store32_local : (a v : ℕ) → store32 m a v x ≡ store32 m' a v x
  unfolding store32
  store32_local a v = ground (arith, h)

  memset_local : (p : ℕ) → p + 4096 ≤ 2 ^ 32 → (memset p 0 4096 m).1 x ≡ (memset p 0 4096 m').1 x
  memset_local p r =
      (memset_lem p 0 4096 m (omega arith) r).1 x
      ∙ ground (arith, h)
      ∙ sym ((memset_lem p 0 4096 m' (omega arith) r).1 x)

set_all_local :
    (es : List (ℕ × ℕ)) (m m' : Memory) (x : ℕ) → m x ≡ m' x → set_all es m x ≡ set_all es m' x
unfolding set_all
set_all_local [] m m' x h = h
set_all_local ((a, v) ∷ es) m m' x h =
    set_all_local es (store32 m a v) (store32 m' a v) x (store32_local m m' x h a v)

clear_all_local :
    (ps : List ℕ) (m m' : Memory) (x : ℕ)
    → ArePages ps
    → m x ≡ m' x
    → clear_all ps m x ≡ clear_all ps m' x
unfolding clear_all
clear_all_local [] m m' x a h = h
clear_all_local (p ∷ ps) m m' x a h =
    clear_all_local ps (memset p 0 4096 m).1 (memset p 0 4096 m').1 x a.2
      (memset_local m m' x h p (omega (arith, a.0, a.1)))

fill_local : (n i : ℕ) (m m' : Memory) (x : ℕ) → m x ≡ m' x → fill n i m x ≡ fill n i m' x
unfolding fill
fill_local zero i m m' x h = h
fill_local (suc n) i m m' x h =
    fill_local n (i + 1) (set_all (round i) m) (set_all (round i) m') x
      (set_all_local (round i) m m' x h)

-- The words and pages lie from an address on.
abbrev Above : ℕ → List (ℕ × ℕ) → Type 0
Above p [] = Unit
Above p ((a, v) ∷ es) = (p ≤ a) × (a + 4 ≤ 2 ^ 32) × Above p es

abbrev PagesAbove : ℕ → List ℕ → Type 0
PagesAbove p [] = Unit
PagesAbove p (a ∷ es) = (p ≤ a) × (a + 4096 ≤ 2 ^ 32) × PagesAbove p es

set_all-below :
    (es : List (ℕ × ℕ)) (m : Memory) (p x : ℕ) → Above p es → x < p → set_all es m x ≡ m x
unfolding set_all
set_all-below [] m p x a lt = refl
set_all-below ((b, v) ∷ es) m p x a lt =
    set_all-below es (store32 m b v) p x a.2 lt ∙ store32-below m b v x a.1 (omega (arith, a.0))

clear_all-below :
    (ps : List ℕ) (m : Memory) (p x : ℕ) → PagesAbove p ps → x < p → clear_all ps m x ≡ m x
unfolding clear_all
clear_all-below [] m p x a lt = refl
clear_all-below (b ∷ ps) m p x a lt =
    clear_all-below ps (memset b 0 4096 m).1 p x a.2 lt
    ∙ (memset_lem b 0 4096 m (omega arith) a.1).1 x
    ∙ ground (arith, a.0)

round-Above : (i : ℕ) → i < 1024 → Above pgd (round i)
round-Above i h = omega arith

fill-below : (n i : ℕ) (m : Memory) (x : ℕ) → i + n ≤ 1024 → x < pgd → fill n i m x ≡ m x
unfolding fill
fill-below zero i m x le lt = refl
fill-below (suc n) i m x le lt =
    fill-below n (i + 1) (set_all (round i) m) x (omega arith) lt
    ∙ set_all-below (round i) m pgd x (round-Above i (omega arith)) lt

pub config_pgds_local :
    (s s' : Machine) (x : ℕ) → s.mem x ≡ s'.mem x → (config_pgds s).mem x ≡ (config_pgds s').mem x
unfolding config_pgds
config_pgds_local s s' x h =
    set_all_local links (fill 1024 0 (clear_all pages s.mem)) (fill 1024 0 (clear_all pages s'.mem))
      x
      (fill_local 1024 0 (clear_all pages s.mem) (clear_all pages s'.mem) x
        (clear_all_local pages s.mem s'.mem x (omega arith) h))

pub config_pgds-below : (s : Machine) (x : ℕ) → x < pgd → (config_pgds s).mem x ≡ s.mem x
unfolding config_pgds
config_pgds-below s x lt =
    set_all-below links (fill 1024 0 (clear_all pages s.mem)) pgd x (omega arith) lt
    ∙ fill-below 1024 0 (clear_all pages s.mem) x (omega arith) lt
    ∙ clear_all-below pages s.mem pgd x (omega arith) lt

-- A memory that differs below the tables only from one that `config_pgds` leaves is one that it leaves
-- too, from a memory that had the other bytes before.
module _ (s : Machine) (m' : Memory) (a n : ℕ) (room : a + n ≤ pgd) where
  abbrev overlaid : Machine
  overlaid = record s { mem = λ x. if within a n x then m' x else s.mem x }

  overlaid-at :
      (x : ℕ) (b : Bool)
      → within a n x ≡ b
      → (b ≡ false → m' x ≡ (config_pgds s).mem x)
      → (config_pgds overlaid).mem x ≡ m' x
  overlaid-at x true e f = config_pgds-below overlaid x (ground (arith, e)) ∙ ground (arith, e)
  overlaid-at x false e f = config_pgds_local overlaid s x (ground (arith, e)) ∙ sym (f refl)

  pub overlaid-config_pgds :
      ((x : ℕ) → within a n x ≡ false → m' x ≡ (config_pgds s).mem x)
      → (b : Machine) × (m' ≡ (config_pgds b).mem)
  overlaid-config_pgds f = (overlaid, λ i x. sym (overlaid-at x (within a n x) refl (f x)) i)
