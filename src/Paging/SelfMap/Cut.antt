-- ===== src/Paging/SelfMap/Cut.antt =====
-- The address space that tp4 leaves: its last store, to the directory through the directory's own
-- mapping, cuts the first 4 MB off.
use native.Mathlib.Decide.{dec_lt}
use secos_ng.Base.{
  ℕ, ◌+◌, ◌*◌, ◌/◌, ◌%◌, ◌^◌, ◌<◌, ◌≡◌, ◌∙◌, arith, false, ◌==◌, ◌&&◌, ◌||◌, if◌then◌else◌, Option,
  none, some, ltb, leb,
}
use secos_ng.Memory.{Memory, load32, store32}
use secos_ng.Memory.Words.{IsWord, load32-store32}
use secos_ng.Paging.{entry_at}
use secos_ng.Paging.Walk.{Mapping, translate}
use secos_ng.Paging.Maps.{walk, walk_absent, to}
use secos_ng.Paging.Read.{pg_entry_krn}
use secos_ng.Paging.SelfMap.{pgd, ptb2, ptb3, target, unpaged, paged, tp, poke}
use secos_ng.Paging.SelfMap.Linear.{pokes-set_all}
use secos_ng.Paging.SelfMap.Space.{
  before, read_before_pgd, read_before_ptb2, read_before_ptb3, unpaged-MapsTables, paged-AreFree,
}

-- The second 4 MB, each address to itself, but for two pages that both lead to page 2; the
-- directory at `target`; nothing else.
unfoldable pub space : ℕ → Option Mapping
space va =
    if ltb va 0x400000
    then none
    else if ltb va 0x800000
    then (if va / 4096 == 0x700 || va / 4096 == 0x7ff
        then to (0x2000 + va % 4096) false
        else to va false)
    else if leb target va && ltb va (target + 4096)
    then to (pgd + va % 4096) false
    else none

module _ (m : Memory) where
  abbrev final : Memory
  final = store32 (before m) pgd 0

  translate-target : translate (before m) pgd target ≡ to pgd false
  translate-target =
      walk (before m) pgd target 0x603003 0x600003 (read_before_pgd m 768 (omega arith))
        (read_before_ptb3 m 0 (omega arith))

  tp-final : tp m ≡ some final
  unfolding tp poke
  tp-final = ground (
    arith,
    (pokes-set_all paged (unpaged m) (paged-AreFree m) (unpaged-MapsTables m)).0,
    translate-target,
  )

  read_final : (b : ℕ) → IsWord b → load32 final b ≡ (if pgd == b then 0 else load32 (before m) b)
  read_final b hb = load32-store32 (before m) pgd 0 b (omega arith) hb (omega arith)

  read_pgd :
      (k : ℕ)
      → k < 1024
      → load32 final (entry_at pgd k)
        ≡ (if k == 1 then 0x602003 else if k == 768 then 0x603003 else 0)
  read_pgd k h = read_final (entry_at pgd k) (omega arith) ∙ ground (arith, read_before_pgd m k h)

  read_ptb2 :
      (j : ℕ)
      → j < 1024
      → load32 final (entry_at ptb2 j)
        ≡ (if j == 0x300 then 0x2003 else if j == 0x3ff then 0x2003 else (1024 + j) * 4096 + 3)
  read_ptb2 j h =
      read_final (entry_at ptb2 j) (omega arith)
      ∙ ground (arith, read_before_ptb2 m j h, pg_entry_krn (1024 + j))

  read_ptb3 : (j : ℕ) → j < 1024 → load32 final (entry_at ptb3 j) ≡ (if j == 0 then 0x600003 else 0)
  read_ptb3 j h =
      read_final (entry_at ptb3 j) (omega arith) ∙ ground (arith, read_before_ptb3 m j h)

  translate-final : (va : ℕ) → va < 2 ^ 32 → translate final pgd va ≡ space va
  unfolding space
  translate-final va h =
      let k = va / 2 ^ 22 % 1024 in
      let j = va / 4096 % 1024 in
      let dir = read_pgd k (omega arith) in
      elim (dec_lt va 0x400000) [
        | yes low ↦ ground (arith, dir, walk_absent final pgd va)
        | no at_4 ↦ elim (dec_lt va 0x800000) [
          | yes second ↦ ground (
            arith,
            dir,
            read_ptb2 j (omega arith),
            walk final pgd va 0x602003 (
                if j == 0x300
                then 0x2003
                else if j == 0x3ff
                then 0x2003
                else (1024 + j) * 4096 + 3),
          )
          | no at_8 ↦ elim (dec_lt va target) [
            | yes between ↦ ground (arith, dir, walk_absent final pgd va)
            | no at_target ↦ elim (dec_lt va (target + 0x400000)) [
              | yes own ↦ ground (
                arith,
                dir,
                read_ptb3 j (omega arith),
                walk final pgd va 0x603003 (if j == 0 then 0x600003 else 0),
              )
              | no past ↦ ground (arith, dir, walk_absent final pgd va)
            ]
          ]
        ]
      ]

-- Whatever memory was before, no access of tp4 faults, and it ends with tables in which every
-- 32-bit address leads where `space` says: its first 4 MB, where the kernel is, lead nowhere, as
-- the last store clears the first directory entry through the address that maps the directory.
pub tp-space :
    (m : Memory) (va : ℕ)
    → va < 2 ^ 32
    → (m' : Memory) × (tp m ≡ some m') × (translate m' pgd va ≡ space va)
tp-space m va h = (final m, tp-final m, translate-final m va h)
