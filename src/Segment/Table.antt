-- ===== src/Segment/Table.antt =====
-- `config_segmentation` of tp_exam/tp.c: the table, and what the processor reads through each of
-- the selectors.
use secos_ng.Base.{
  ℕ, ◌+◌, ◌-◌, ◌*◌, ◌^◌, ◌<◌, ◌≡◌, arith, ◌==◌, if◌then◌else◌, Option, none, some, List, [], ◌∷◌,
  get_elem?,
}
use mathlib.Core.Option.{map}
use secos_ng.Bitfield.{get}
use secos_ng.Segment.{
  gdt_flat_dsc, create_tss_dsc, sizeof_tss, code_xr, data_rw, tss_avl_32, c0_sel, d0_sel, c3_sel,
  d3_sel, ts_sel, gdt_krn_seg_sel,
}
use secos_ng.Segment.Regs.{
  seg_desc_limit_1, seg_desc_limit_2, seg_desc_type, seg_desc_dpl, seg_desc_g, seg_desc_s,
  seg_desc_p, seg_desc_base_1, seg_desc_base_2, seg_desc_base_3, seg_sel_index, seg_sel_ti,
}

-- The table, its limit, and the selectors and TSS fields that the function loads.
pub record Loaded : Type 0 where
  pub gdt : List ℕ
  pub limit : ℕ
  pub cs : ℕ
  pub data_sel : ℕ
  pub tss_esp0 : ℕ
  pub tss_ss0 : ℕ
  pub tr : ℕ

-- `tss` is the address of the TSS and `esp` the stack pointer.
unfoldable pub config_segmentation : (tss esp : ℕ) → Loaded
config_segmentation tss esp = record {
  gdt =
      0
      ∷ gdt_flat_dsc 0 code_xr
      ∷ gdt_flat_dsc 0 data_rw
      ∷ gdt_flat_dsc 3 code_xr
      ∷ gdt_flat_dsc 3 data_rw
      ∷ create_tss_dsc tss
      ∷ [];
  limit = 6 * 8 - 1;
  cs = gdt_krn_seg_sel 1;
  data_sel = gdt_krn_seg_sel 2;
  tss_esp0 = esp;
  tss_ss0 = d0_sel;
  tr = ts_sel;
}

-- A descriptor as the processor reads it; a limit with granularity counts pages.
pub record Segment : Type 0 where
  pub base : ℕ
  pub last : ℕ
  pub kind : ℕ
  pub system : ℕ
  pub dpl : ℕ
  pub present : ℕ

unfoldable pub segment : ℕ → Segment
segment dsc =
    let limit = get seg_desc_limit_1 dsc + get seg_desc_limit_2 dsc * 2 ^ 16 in
    record {
      base =
          get seg_desc_base_1 dsc
          + get seg_desc_base_2 dsc * 2 ^ 16
          + get seg_desc_base_3 dsc * 2 ^ 24;
      last = if get seg_desc_g dsc == 1 then limit * 4096 + 4095 else limit;
      kind = get seg_desc_type dsc;
      system = get seg_desc_s dsc;
      dpl = get seg_desc_dpl dsc;
      present = get seg_desc_p dsc;
    }

-- A selector's descriptor, for one that names the global table and lies within its limit.
unfoldable pub select : Loaded → ℕ → Option Segment
select m sel =
    if get seg_sel_ti sel == 0 then map segment (get_elem? m.gdt (get seg_sel_index sel)) else none

abbrev pub flat : ℕ → ℕ → Segment
flat typ dpl = record {
  base = 0;
  last = 2 ^ 32 - 1;
  kind = typ;
  system = 1;
  dpl = dpl;
  present = 1;
}

-- With the TSS at a 32-bit address, the selectors name the segments they are called after: code and data of ring 0 and of ring 3
-- over all 4 GB, each of the level that its selector requests, and the TSS at its address.
pub config_segmentation-select :
    (tss esp : ℕ)
    → tss < 2 ^ 32
    → let m = config_segmentation tss esp in
      (select m c0_sel ≡ some (flat code_xr 0))
      × (select m d0_sel ≡ some (flat data_rw 0))
      × (select m c3_sel ≡ some (flat code_xr 3))
      × (select m d3_sel ≡ some (flat data_rw 3))
      × (select m ts_sel
          ≡ some (record {
            base = tss;
            last = sizeof_tss;
            kind = tss_avl_32;
            system = 0;
            dpl = 0;
            present = 1;
          }))
unfolding config_segmentation select segment gdt_flat_dsc create_tss_dsc
config_segmentation-select tss esp h = ground arith
