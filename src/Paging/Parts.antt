-- ===== src/Paging/Parts.antt =====
-- The macros of kernel/include/pagemem.h and kernel/include/types.h that take an address apart by a
-- size.
use secos_ng.Base.{
  ℕ, ◌+◌, ◌/◌, ◌^◌, ◌<◌, ◌≡◌, ◌↔◌, ◌∙◌, sym, arith, Bool, true, ltb, ◌<<<◌, if◌then◌else◌,
}
use secos_ng.Base.Bits.{bit_and_low}
use secos_ng.Types.{aligned, align, align_next}
use secos_ng.Types.Align.{align_lem}
use secos_ng.Paging.Walk.{pd32_get_idx, pt32_get_idx, pg_4K_get_offset}
use secos_ng.Paging.Large.{
  pg_4M_get_offset, pg_4M_get_nr, pg_4M_get_addr, pg_4K_get_nr, pg_4K_get_addr,
}

abbrev pub pg_4K_align : ℕ → ℕ
pg_4K_align addr = align addr (1 <<< 12)

abbrev pub pg_4K_align_next : ℕ → ℕ
pg_4K_align_next addr = align_next addr (1 <<< 12)

abbrev pub pg_4K_is_aligned : ℕ → Bool
pg_4K_is_aligned addr = aligned addr (1 <<< 12)

abbrev pub pg_4M_align : ℕ → ℕ
pg_4M_align addr = align addr (1 <<< 22)

abbrev pub pg_4M_align_next : ℕ → ℕ
pg_4M_align_next addr = align_next addr (1 <<< 22)

abbrev pub pg_4M_is_aligned : ℕ → Bool
pg_4M_is_aligned addr = aligned addr (1 <<< 22)

-- Of a 32-bit address, with pages of 4 KB and with pages of 4 MB: its page's number and its offset
-- make it up; aligning gives its page's address, which is that of the number; it is aligned when
-- the offset is 0; the next aligned address is that of the next number, or 0 behind the last page.
-- The two indices of the walk and the offset in a page of 4 KB make it up too.
pub page_parts :
    (addr : ℕ)
    → addr < 2 ^ 32
    → (pg_4K_get_addr (pg_4K_get_nr addr) + pg_4K_get_offset addr ≡ addr)
      × (pg_4K_align addr ≡ pg_4K_get_addr (pg_4K_get_nr addr))
      × ((pg_4K_is_aligned addr ≡ true) ↔ (pg_4K_get_offset addr ≡ 0))
      × (pg_4K_align_next addr
          ≡ (if ltb (addr + 2 ^ 12) (2 ^ 32) then pg_4K_get_addr (pg_4K_get_nr addr + 1) else 0))
      × (pg_4M_get_addr (pg_4M_get_nr addr) + pg_4M_get_offset addr ≡ addr)
      × (pg_4M_align addr ≡ pg_4M_get_addr (pg_4M_get_nr addr))
      × ((pg_4M_is_aligned addr ≡ true) ↔ (pg_4M_get_offset addr ≡ 0))
      × (pg_4M_align_next addr
          ≡ (if ltb (addr + 2 ^ 22) (2 ^ 32) then pg_4M_get_addr (pg_4M_get_nr addr + 1) else 0))
      × (pg_4M_get_addr (pd32_get_idx addr)
            + (pg_4K_get_addr (pt32_get_idx addr) + pg_4K_get_offset addr)
          ≡ addr)
page_parts addr h =
    let small = align_lem 12 addr (omega arith) h in
    let large = align_lem 22 addr (omega arith) h in
    let low12 = bit_and_low 12 addr in
    let low22 = bit_and_low 22 addr in
    let high = bit_and_low 10 (addr / 2 ^ 22) in
    let middle = bit_and_low 10 (addr / 2 ^ 12) in
    (
      omega (arith, low12),
      small.1,
      (λ e. low12 ∙ small.0.0 e, λ e. small.0.1 (sym low12 ∙ e)),
      small.2,
      omega (arith, low22),
      large.1,
      (λ e. low22 ∙ large.0.0 e, λ e. large.0.1 (sym low22 ∙ e)),
      large.2,
      omega (arith, high, middle, low12),
    )
