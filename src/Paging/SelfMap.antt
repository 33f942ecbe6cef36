-- ===== src/Paging/SelfMap.antt =====
-- `tp` of tp4/tp.c: it builds two tables, turns paging on, maps the directory into itself and a page
-- twice, and clears the first directory entry through its own mapping.
pub mod Linear
pub mod Tables
pub mod Space
pub mod Cut
pub mod Printed
use secos_ng.Base.{ℕ, zero, suc, ◌+◌, ◌*◌, bit_or, Option, none, some, List, [], ◌∷◌, ◌++◌}
use secos_ng.Memory.{Memory, store32}
use secos_ng.Memory.Words.{set_all, clear_all}
use secos_ng.Paging.{pg_krn, pg_rw, pg_entry, page_get_nr, entry_at}
use secos_ng.Paging.Walk.{Mapping, translate, pd32_get_idx, pt32_get_idx}

abbrev pub pgd : ℕ
pgd = 0x600000

abbrev pub ptb : ℕ
ptb = 0x601000

abbrev pub ptb2 : ℕ
ptb2 = 0x602000

abbrev pub ptb3 : ℕ
ptb3 = 0x603000

abbrev pub target : ℕ
target = 0xc0000000

abbrev pub v1 : ℕ
v1 = 0x700000

abbrev pub v2 : ℕ
v2 = 0x7ff000

-- `pg_set_entry(..., PG_KRN|PG_RW, pfn)`
abbrev pub krn_entry : ℕ → ℕ
krn_entry pfn = pg_entry (bit_or pg_krn pg_rw) pfn

-- `for(i ...) pg_set_entry(&table[i], PG_KRN|PG_RW, first + i)`, with the rounds left.
pub entries : (left i table first : ℕ) → List (ℕ × ℕ)
entries zero i table first = []
entries (suc left) i table first =
    (entry_at table i, krn_entry (first + i)) ∷ entries left (i + 1) table first

-- Up to the store to CR0: paging is off, and addresses are physical.
pub unpaged : Memory → Memory
unpaged m =
    set_all
      ((entry_at pgd 0, krn_entry (page_get_nr ptb)) ∷ entries 1024 0 ptb2 1024
        ++ (entry_at pgd 1, krn_entry (page_get_nr ptb2)) ∷ [])
      (clear_all (pgd ∷ []) (set_all (entries 1024 0 ptb 0) m))

-- A store of a word in ring 0 with paging on; `none` is a page fault.
pub poke : Memory → (va value : ℕ) → Option Memory
poke m va value = elim (translate m pgd va) [ none ↦ none | some p ↦ some (store32 m p.phys value) ]

pub pokes : List (ℕ × ℕ) → Memory → Option Memory
pokes [] m = some m
pokes ((va, value) ∷ es) m = elim (poke m va value) [ none ↦ none | some m' ↦ pokes es m' ]

-- The words that `memset` clears.
pub zeros : (left va : ℕ) → List (ℕ × ℕ)
zeros zero va = []
zeros (suc left) va = (va, 0) ∷ zeros left (va + 4)

-- From there to `*target = 0`.
pub paged : List (ℕ × ℕ)
paged =
    zeros 1024 ptb3
    ++ (entry_at ptb3 (pt32_get_idx target), krn_entry (page_get_nr pgd))
      ∷ (entry_at pgd (pd32_get_idx target), krn_entry (page_get_nr ptb3))
      ∷ (entry_at ptb2 (pt32_get_idx v1), krn_entry 2)
      ∷ (entry_at ptb2 (pt32_get_idx v2), krn_entry 2)
      ∷ []

unfoldable pub tp : Memory → Option Memory
tp m = elim (pokes paged (unpaged m)) [ none ↦ none | some m' ↦ poke m' target 0 ]
