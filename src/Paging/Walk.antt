-- ===== src/Paging/Walk.antt =====
-- Two-level translation of a linear address through the tables in memory, as the members and
-- macros of kernel/include/pagemem.h describe it.
use secos_ng.Base.{
  ℕ, ◌+◌, ◌-◌, ◌*◌, ◌^◌, bit_and, Bool, ◌&&◌, Option, none, some, ◌==◌, if◌then◌else◌, ◌>>>◌, ◌<<<◌,
}
use secos_ng.Bitfield.{get}
use secos_ng.Memory.{Memory, load32}
use secos_ng.Paging.Regs.{pde_p, pde_rw, pde_lvl, pde_addr, pte_p, pte_rw, pte_lvl, pte_addr}

abbrev pub pd32_get_idx : ℕ → ℕ
pd32_get_idx addr = bit_and (addr >>> 22) 0x3ff

abbrev pub pt32_get_idx : ℕ → ℕ
pt32_get_idx addr = bit_and (addr >>> 12) 0x3ff

abbrev pub pg_4K_get_offset : ℕ → ℕ
pg_4K_get_offset addr = bit_and addr (2 ^ 12 - 1)

-- Where an address leads, and whether ring 3 may use it: both levels must allow it.
pub record Mapping : Type 0 where
  pub phys : ℕ
  pub user : Bool

-- The two entries of an address, from its directory.
unfoldable pub pde_of : Memory → ℕ → ℕ → ℕ
pde_of m dir addr = load32 m (dir + 4 * pd32_get_idx addr)

unfoldable pub pte_of : Memory → ℕ → ℕ → ℕ
pte_of m pde addr = load32 m (get pde_addr pde <<< 12 + 4 * pt32_get_idx addr)

unfoldable pub mapping : ℕ → ℕ → ℕ → Mapping
mapping pde pte addr = record {
  phys = get pte_addr pte <<< 12 + pg_4K_get_offset addr;
  user = get pde_lvl pde == 1 && get pte_lvl pte == 1;
}

-- Whether ring 3 may write there: both entries must allow it.
unfoldable pub writable : Memory → ℕ → ℕ → Bool
writable m dir addr =
    let pde = pde_of m dir addr in get pde_rw pde == 1 && get pte_rw (pte_of m pde addr) == 1

-- `none` is a page fault.
unfoldable pub translate : Memory → ℕ → ℕ → Option Mapping
translate m dir addr =
    let pde = pde_of m dir addr in
    let pte = pte_of m pde addr in
    if get pde_p pde == 0
    then none
    else if get pte_p pte == 0
    then none
    else some (mapping pde pte addr)
