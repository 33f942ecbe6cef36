-- ===== src/Paging/Maps.antt =====
-- Where the three address spaces that `config_pgds` builds lead.
use mathlib.Core.Option.{Option, none, some}
use secos_ng.Base.{
  ℕ, ◌+◌, ◌-◌, ◌*◌, ◌/◌, ◌%◌, ◌^◌, ◌<◌, ◌≡◌, refl, ap, ◌∙◌, arith, ltb, ◌==◌, ◌&&◌, Bool, true,
  false, if◌then◌else◌,
}
use native.Mathlib.Decide.{dec_lt}
use secos_ng.Base.Bits.{bit_and_low}
use secos_ng.Memory.{Memory, load32}
use secos_ng.Paging.{
  pg_entry, pgd, pgd_task_1, pgd_task_1_ptb_2, pgd_task_2, pgd_task_2_ptb_2, entry_at, Machine,
}
use secos_ng.Paging.Walk.{Mapping, translate, pde_of, pte_of, mapping}
use secos_ng.Paging.Read.{
  tables, read_linked, read_pgd_ptb, read_task_1_ptb_0, read_task_2_ptb_0, read_task_1_ptb_1,
  read_task_2_ptb_1, pg_entry_krn, pg_entry_usr,
}

abbrev pub to : ℕ → Bool → Option Mapping
to phys user = some (record { phys = phys; user = user })

-- The kernel: the first 4 MB, each address to itself, for ring 0.
unfoldable pub kernel_map : ℕ → Option Mapping
kernel_map va = if ltb va 0x400000 then to va false else none

-- Task 1: the kernel, its own 4 MB from 0x400000 on, and the shared page at 0x800000.
unfoldable pub task_1_map : ℕ → Option Mapping
task_1_map va =
    if ltb va 0x400000
    then to va false
    else if ltb va 0x800000
    then to va true
    else if ltb va 0x801000
    then to (0xe00000 + (va - 0x800000)) true
    else none

-- Task 2: the kernel, the shared page at 0x400000, and its own 4 MB from 0x800000 on.
unfoldable pub task_2_map : ℕ → Option Mapping
task_2_map va =
    if ltb va 0x400000
    then to va false
    else if ltb va 0x401000
    then to (0xe00000 + (va - 0x400000)) true
    else if ltb va 0x800000
    then none
    else if ltb va 0xc00000
    then to va true
    else none

pde_of_lem :
    (m : Memory) (dir va : ℕ) → pde_of m dir va ≡ load32 m (entry_at dir (va / 2 ^ 22 % 1024))
unfolding pde_of
pde_of_lem m dir va = ap (λ (k : ℕ). load32 m (dir + 4 * k)) (bit_and_low 10 (va / 2 ^ 22))

pte_of_lem :
    (m : Memory) (p va : ℕ)
    → pte_of m p va ≡ load32 m (entry_at (p / 4096 % 2 ^ 20 * 4096) (va / 4096 % 1024))
unfolding pte_of
pte_of_lem m p va =
    ap (λ (k : ℕ). load32 m (p / 4096 % 2 ^ 20 * 4096 + 4 * k)) (bit_and_low 10 (va / 2 ^ 12))

-- The walk through two words that have been read.
pub walk :
    (m : Memory) (dir va p q : ℕ)
    → load32 m (entry_at dir (va / 2 ^ 22 % 1024)) ≡ p
    → load32 m (entry_at (p / 4096 % 2 ^ 20 * 4096) (va / 4096 % 1024)) ≡ q
    → translate m dir va ≡ (
        if p % 2 == 0
        then none
        else if q % 2 == 0
        then none
        else to (q / 4096 % 2 ^ 20 * 4096 + va % 4096) (p / 4 % 2 == 1 && q / 4 % 2 == 1))
unfolding translate mapping
walk m dir va p q hp hq =
    ground (arith, pde_of_lem m dir va ∙ hp, pte_of_lem m p va ∙ hq, bit_and_low 12 va)

-- A directory entry that is not present.
pub walk_absent :
    (m : Memory) (dir va : ℕ)
    → load32 m (entry_at dir (va / 2 ^ 22 % 1024)) ≡ 0
    → translate m dir va ≡ none
walk_absent m dir va hp = walk m dir va 0 _ hp refl

module _ (s : Machine) where
  -- The directories, at the index of an address.
  read_pgd :
      (k : ℕ) → k < 1024 → load32 (tables s) (entry_at pgd k) ≡ (if k == 0 then 0x351003 else 0)
  unfolding pg_entry
  read_pgd k h =
      read_linked s (entry_at pgd k) (omega arith) (ground arith) (λ i d hi. ground arith)
      ∙ ground arith

  pub read_pgd_task_1 :
      (k : ℕ)
      → k < 1024
      → load32 (tables s) (entry_at pgd_task_1 k)
        ≡ (if k == 0 then 0x353003 else if k == 1 then 0x354007 else if k == 2 then 0x355007 else 0)
  unfolding pg_entry
  read_pgd_task_1 k h =
      read_linked s (entry_at pgd_task_1 k) (omega arith) (ground arith) (λ i d hi. ground arith)
      ∙ ground arith

  pub read_pgd_task_2 :
      (k : ℕ)
      → k < 1024
      → load32 (tables s) (entry_at pgd_task_2 k)
        ≡ (if k == 0 then 0x357003 else if k == 1 then 0x359007 else if k == 2 then 0x358007 else 0)
  unfolding pg_entry
  read_pgd_task_2 k h =
      read_linked s (entry_at pgd_task_2 k) (omega arith) (ground arith) (λ i d hi. ground arith)
      ∙ ground arith

  pub read_task_1_ptb_2 :
      (k : ℕ)
      → k < 1024
      → load32 (tables s) (entry_at pgd_task_1_ptb_2 k) ≡ (if k == 0 then 0xe00007 else 0)
  unfolding pg_entry
  read_task_1_ptb_2 k h =
      read_linked s (entry_at pgd_task_1_ptb_2 k) (omega arith) (ground arith)
        (λ i d hi. ground arith)
      ∙ ground arith

  pub read_task_2_ptb_2 :
      (k : ℕ)
      → k < 1024
      → load32 (tables s) (entry_at pgd_task_2_ptb_2 k) ≡ (if k == 0 then 0xe00007 else 0)
  unfolding pg_entry
  read_task_2_ptb_2 k h =
      read_linked s (entry_at pgd_task_2_ptb_2 k) (omega arith) (ground arith)
        (λ i d hi. ground arith)
      ∙ ground arith

  -- In the kernel's directory that `config_pgds` builds, whatever memory was before, every 32-bit
  -- address leads where `kernel_map` says.
  pub translate-pgd : (va : ℕ) → va < 2 ^ 32 → translate (tables s) pgd va ≡ kernel_map va
  unfolding kernel_map
  translate-pgd va h = ground (
    arith,
    read_pgd (va / 2 ^ 22 % 1024) (omega arith),
    walk_absent (tables s) pgd va,
    walk (tables s) pgd va 0x351003 (pg_entry 2 (va / 4096 % 1024)),
    read_pgd_ptb s (va / 4096 % 1024) (omega arith),
    pg_entry_krn (va / 4096 % 1024),
  )

  -- In the directory of task 1 that `config_pgds` builds every 32-bit address leads where `task_1_map` says.
  pub translate-pgd_task_1 :
      (va : ℕ) → va < 2 ^ 32 → translate (tables s) pgd_task_1 va ≡ task_1_map va
  unfolding task_1_map
  translate-pgd_task_1 va h =
      let k = va / 2 ^ 22 % 1024 in
      let j = va / 4096 % 1024 in
      let dir = read_pgd_task_1 k (omega arith) in
      let at = walk (tables s) pgd_task_1 va in
      elim (dec_lt va 0x400000) [
        | yes low ↦ ground (
          arith,
          dir,
          at 0x353003 (pg_entry 2 j),
          read_task_1_ptb_0 s j (omega arith),
          pg_entry_krn j,
        )
        | no high ↦ elim (dec_lt va 0x800000) [
          | yes own ↦ ground (
            arith,
            dir,
            at 0x354007 (pg_entry 6 (1024 + j)),
            read_task_1_ptb_1 s j (omega arith),
            pg_entry_usr (1024 + j),
          )
          | no past ↦ elim (dec_lt va 0xc00000) [
            | yes shared ↦ ground (
              arith,
              dir,
              at 0x355007 (if j == 0 then 0xe00007 else 0),
              read_task_1_ptb_2 j (omega arith),
            )
            | no out ↦ ground (arith, dir, walk_absent (tables s) pgd_task_1 va)
          ]
        ]
      ]

  -- In the directory of task 2 that `config_pgds` builds every 32-bit address leads where `task_2_map` says.
  pub translate-pgd_task_2 :
      (va : ℕ) → va < 2 ^ 32 → translate (tables s) pgd_task_2 va ≡ task_2_map va
  unfolding task_2_map
  translate-pgd_task_2 va h =
      let k = va / 2 ^ 22 % 1024 in
      let j = va / 4096 % 1024 in
      let dir = read_pgd_task_2 k (omega arith) in
      let at = walk (tables s) pgd_task_2 va in
      elim (dec_lt va 0x400000) [
        | yes low ↦ ground (
          arith,
          dir,
          at 0x357003 (pg_entry 2 j),
          read_task_2_ptb_0 s j (omega arith),
          pg_entry_krn j,
        )
        | no high ↦ elim (dec_lt va 0x800000) [
          | yes shared ↦ ground (
            arith,
            dir,
            at 0x359007 (if j == 0 then 0xe00007 else 0),
            read_task_2_ptb_2 j (omega arith),
          )
          | no past ↦ elim (dec_lt va 0xc00000) [
            | yes own ↦ ground (
              arith,
              dir,
              at 0x358007 (pg_entry 6 (2048 + j)),
              read_task_2_ptb_1 s j (omega arith),
              pg_entry_usr (2048 + j),
            )
            | no out ↦ ground (arith, dir, walk_absent (tables s) pgd_task_2 va)
          ]
        ]
      ]
