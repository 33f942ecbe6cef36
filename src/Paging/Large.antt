-- ===== src/Paging/Large.antt =====
-- Pages of 4 MB: the macros of kernel/include/pagemem.h on them and on entries, and the walk with the
-- extension of CR4 for them.
use secos_ng.Base.{
  ℕ, ◌+◌, ◌-◌, ◌*◌, ◌/◌, ◌%◌, ◌^◌, ◌<◌, ◌≡◌, ap, ap₂, ◌∙◌, sym, arith, bit_and, bit_or, Bool, ◌&&◌,
  Option, none, some, ◌==◌, if◌then◌else◌, ◌>>>◌, ◌<<<◌, u32,
}
use secos_ng.Base.Bits.{bit_and_low, bit_or_fields, bit_or-zero, bit_or-one}
use secos_ng.Bitfield.{get, put}
use secos_ng.Memory.{Memory, load32, store32}
use secos_ng.Memory.Words.{IsWord, load32-store32}
use secos_ng.Paging.{pg_entry, entry_at}
use secos_ng.Paging.Regs.{
  pde_p, pde_lvl, pte_p, pte_lvl, pde_rw, pte_rw, pde_page_rw, pde_page_ps, pde_page_addr,
}
use secos_ng.Paging.Walk.{
  Mapping, pd32_get_idx, pt32_get_idx, pde_of, pte_of, mapping, translate, writable,
}

abbrev pub pg_4M_get_offset : ℕ → ℕ
pg_4M_get_offset addr = bit_and addr (2 ^ 22 - 1)

abbrev pub pg_4M_get_nr : ℕ → ℕ
pg_4M_get_nr addr = addr >>> 22

abbrev pub pg_4M_get_addr : ℕ → ℕ
pg_4M_get_addr nr = nr <<< 22

abbrev pub pg_4K_get_nr : ℕ → ℕ
pg_4K_get_nr addr = addr >>> 12

abbrev pub pg_4K_get_addr : ℕ → ℕ
pg_4K_get_addr nr = nr <<< 12

unfoldable pub pg_present : ℕ → Bool
pg_present e = get pde_p e == 1

unfoldable pub pg_large : ℕ → Bool
pg_large e = get pde_page_ps e == 1

-- The word that `pg_set_large_entry` leaves.
pub pg_large_entry : (attr pfn : ℕ) → ℕ
pg_large_entry attr pfn = put pde_page_addr pfn (u32 (bit_or (bit_or attr (1 <<< 7)) 1))

-- The mapping of a directory entry for a large page.
unfoldable pub large_mapping : (pde addr : ℕ) → Mapping
large_mapping pde addr = record {
  phys = pg_4M_get_addr (get pde_page_addr pde) + pg_4M_get_offset addr;
  user = get pde_lvl pde == 1;
}

-- The walk with large pages on, for entries whose reserved members are 0.
unfoldable pub translate_large : Memory → (dir addr : ℕ) → Option Mapping
translate_large m dir addr =
    let pde = pde_of m dir addr in
    if pg_present pde
    then if pg_large pde then some (large_mapping pde addr) else translate m dir addr
    else none

-- Whether ring 3 may write there, with large pages on.
unfoldable pub writable_large : Memory → (dir addr : ℕ) → Bool
writable_large m dir addr =
    let pde = pde_of m dir addr in
    if pg_large pde then get pde_page_rw pde == 1 else writable m dir addr

-- The words of entries with attributes below the bit for large pages.
small_word :
    (attr pfn : ℕ) → attr < 128 → pg_entry attr pfn ≡ pfn % 2 ^ 20 * 4096 + (attr / 2 * 2 + 1)
unfolding pg_entry
small_word attr pfn h = omega (arith, bit_or-one attr)

large_word :
    (attr pfn : ℕ)
    → attr < 128
    → pg_large_entry attr pfn ≡ pfn % 2 ^ 10 * 2 ^ 22 + (128 + (attr / 2 * 2 + 1))
unfolding pg_large_entry
large_word attr pfn h =
    let fields : bit_or (0 * 2 ^ 7 + attr) (1 * 2 ^ 7 + 0) ≡ 128 + bit_or attr 0 =
      bit_or_fields 0 1 7 attr 0 (omega arith) (omega arith) in
    let same : 0 * 2 ^ 7 + attr ≡ attr = omega arith in
    let both : bit_or attr 128 ≡ 128 + attr =
      ap (λ (x : ℕ). bit_or x 128) (sym same)
      ∙ fields
      ∙ ap (λ (x : ℕ). 128 + x) (bit_or-zero attr) in
    omega (arith, both, bit_or-one (bit_or attr 128))

translate_large_entry :
    (m : Memory) (dir addr e : ℕ)
    → pde_of m dir addr ≡ e
    → get pde_p e ≡ 1
    → get pde_page_ps e ≡ 1
    → translate_large m dir addr ≡ some (large_mapping e addr)
unfolding translate_large pg_present pg_large
translate_large_entry m dir addr e h p l = ground (arith, h, p, l)

translate_large_table :
    (m : Memory) (dir addr e f : ℕ)
    → pde_of m dir addr ≡ e
    → pte_of m e addr ≡ f
    → get pde_p e ≡ 1
    → get pde_page_ps e ≡ 0
    → get pte_p f ≡ 1
    → translate_large m dir addr ≡ some (mapping e f addr)
unfolding translate_large translate pg_present pg_large
translate_large_table m dir addr e f h k p l q = ground (arith, h, k, p, l, q)

writable_large_entry :
    (m : Memory) (dir addr e w : ℕ)
    → pde_of m dir addr ≡ e
    → get pde_page_ps e ≡ 1
    → get pde_page_rw e ≡ w
    → writable_large m dir addr ≡ (w == 1)
unfolding writable_large pg_large
writable_large_entry m dir addr e w h l r = ground (arith, h, l, r)

writable_large_table :
    (m : Memory) (dir addr e f w : ℕ)
    → pde_of m dir addr ≡ e
    → pte_of m e addr ≡ f
    → get pde_page_ps e ≡ 0
    → get pde_rw e ≡ w
    → get pte_rw f ≡ w
    → writable_large m dir addr ≡ (w == 1)
unfolding writable_large writable pg_large
writable_large_table m dir addr e f w h k l r q = ground (arith, h, k, l, r, q)

-- Where the large entry leads, and where the entry of a page in the table does.
unfoldable leads : (attr pfn addr : ℕ) → Mapping
leads attr pfn addr = record { phys = pfn * 2 ^ 22 + addr % 2 ^ 22; user = attr / 4 % 2 == 1 }

abbrev mapped : ℕ → Bool → Mapping
mapped phys user = record { phys = phys; user = user }

large_leads :
    (attr pfn addr : ℕ)
    → attr < 128
    → pfn < 2 ^ 10
    → large_mapping (pg_large_entry attr pfn) addr ≡ leads attr pfn addr
unfolding large_mapping leads
large_leads attr pfn addr h p =
    let word = large_word attr pfn h in
    let level : get pde_lvl (pg_large_entry attr pfn) ≡ attr / 4 % 2 = omega (arith, word) in
    ap₂ mapped (omega (arith, word, bit_and_low 22 addr)) (ap (λ (x : ℕ). x == 1) level)

both_same : (n : ℕ) → (n == 1 && n == 1) ≡ (n == 1)
both_same n = ground arith

page_leads :
    (attr table pfn addr : ℕ)
    → attr < 128
    → pfn < 2 ^ 10
    → mapping (pg_entry attr table) (pg_entry attr (pfn * 1024 + pt32_get_idx addr)) addr
      ≡ leads attr pfn addr
unfolding mapping leads
page_leads attr table pfn addr h p =
    let i = pt32_get_idx addr in
    let word = small_word attr (pfn * 1024 + i) h in
    let dir = small_word attr table h in
    let index : i ≡ addr / 4096 % 1024 = bit_and_low 10 (addr / 4096) in
    let level : get pde_lvl (pg_entry attr table) ≡ attr / 4 % 2 = omega (arith, dir) in
    let level' : get pte_lvl (pg_entry attr (pfn * 1024 + i)) ≡ attr / 4 % 2 =
      omega (arith, word) in
    ap₂ mapped (omega (arith, word, index, bit_and_low 22 addr, bit_and_low 12 addr))
      (ap₂ (λ (x y : ℕ). x == 1 && y == 1) level level' ∙ both_same (attr / 4 % 2))

-- A table that `pg_set_entry` has filled with 1024 pages in a row, and the large entry for the same
-- 4 MB with the same attributes in place of the table's: with large pages on, every 32-bit address
-- that the entry serves leads to the same place, its offset within 4 MB above the start of the large
-- page; the user may use it with both, and may write it with both, exactly where the attributes have
-- these bits.
pub translate_large-pages :
    (m : Memory) (dir table attr pfn addr : ℕ)
    → attr < 128
    → pfn < 2 ^ 10
    → table < 2 ^ 20
    → IsWord (entry_at dir (pd32_get_idx addr))
    → load32 m (entry_at dir (pd32_get_idx addr)) ≡ pg_entry attr table
    → ((i : ℕ) → i < 1024 → load32 m (entry_at (table * 2 ^ 12) i) ≡ pg_entry attr (pfn * 1024 + i))
    → let m' = store32 m (entry_at dir (pd32_get_idx addr)) (pg_large_entry attr pfn) in
      (translate_large m' dir addr ≡ translate_large m dir addr)
      × (translate_large m dir addr
          ≡ some (record { phys = pfn * 2 ^ 22 + addr % 2 ^ 22; user = attr / 4 % 2 == 1 }))
      × (writable_large m' dir addr ≡ (attr / 2 % 2 == 1))
      × (writable_large m dir addr ≡ (attr / 2 % 2 == 1))
unfolding leads pde_of pte_of
translate_large-pages m dir table attr pfn addr h p t w linked filled =
    let at = entry_at dir (pd32_get_idx addr) in
    let i = pt32_get_idx addr in
    let i_is : i ≡ addr / 4096 % 1024 = bit_and_low 10 (addr / 4096) in
    let large = pg_large_entry attr pfn in
    let large_is = large_word attr pfn h in
    let dir_is = small_word attr table h in
    let page_is = small_word attr (pfn * 1024 + i) h in
    let stored : pde_of (store32 m at large) dir addr ≡ large =
      ground (arith, load32-store32 m at large at w w (omega (arith, large_is))) in
    let entry : pte_of m (pg_entry attr table) addr ≡ pg_entry attr (pfn * 1024 + i) =
      ap (λ (x : ℕ). load32 m (x + 4 * i)) (omega (arith, dir_is))
      ∙ filled i (omega (arith, i_is)) in
    let there =
      translate_large_entry (store32 m at large) dir addr large stored (omega (arith, large_is))
        (omega (arith, large_is)) in
    let here =
      translate_large_table m dir addr (pg_entry attr table) (pg_entry attr (pfn * 1024 + i)) linked
        entry (omega (arith, dir_is)) (omega (arith, dir_is)) (omega (arith, page_is)) in
    let same_large = large_leads attr pfn addr h p in
    let same_small = page_leads attr table pfn addr h p in
    (
      there ∙ ap some (same_large ∙ sym same_small) ∙ sym here,
      here ∙ ap some same_small,
      writable_large_entry (store32 m at large) dir addr large (attr / 2 % 2) stored
          (omega (arith, large_is)) (omega (arith, large_is)),
      writable_large_table m dir addr (pg_entry attr table) (pg_entry attr (pfn * 1024 + i))
          (attr / 2 % 2) linked entry (omega (arith, dir_is)) (omega (arith, dir_is))
          (omega (arith, page_is)),
    )
