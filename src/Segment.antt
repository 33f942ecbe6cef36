-- ===== src/Segment.antt =====
-- kernel/include/segmem.h: selectors and descriptors, and the flat table that tp3, tp5 and
-- tp_exam load.
pub mod Regs
pub mod Table
pub mod Dump
pub mod Exercise
use secos_ng.Base.{ℕ, ◌+◌, ◌-◌, ◌*◌, ◌/◌, ◌%◌, ◌^◌, bit_or, List, [], ◌∷◌, ◌<<<◌, ◌>>>◌}
use secos_ng.Bitfield.{put}
use secos_ng.Segment.Regs.{
  seg_desc_limit_1, seg_desc_limit_2, seg_desc_type, seg_desc_dpl, seg_desc_d, seg_desc_g,
  seg_desc_s, seg_desc_p, seg_desc_base_1, seg_desc_base_2, seg_desc_base_3,
}

abbrev dt_seg_sel : ℕ → ℕ → ℕ → ℕ
dt_seg_sel idx ti rpl = bit_or (bit_or (idx <<< 3) (ti <<< 2)) rpl

abbrev pub gdt_krn_seg_sel : ℕ → ℕ
gdt_krn_seg_sel idx = dt_seg_sel idx 0 0

abbrev pub gdt_usr_seg_sel : ℕ → ℕ
gdt_usr_seg_sel idx = dt_seg_sel idx 0 3

abbrev pub c0_sel : ℕ
c0_sel = gdt_krn_seg_sel 1

abbrev pub d0_sel : ℕ
d0_sel = gdt_krn_seg_sel 2

abbrev pub c3_sel : ℕ
c3_sel = gdt_usr_seg_sel 3

abbrev pub d3_sel : ℕ
d3_sel = gdt_usr_seg_sel 4

abbrev pub ts_sel : ℕ
ts_sel = gdt_krn_seg_sel 5

abbrev pub code_xr : ℕ
code_xr = 0xa

abbrev pub data_rw : ℕ
data_rw = 0x2

abbrev pub tss_avl_32 : ℕ
tss_avl_32 = 0x9

-- `gdt_flat_dsc`: the raw descriptor after the assignments, in order.
pub gdt_flat_dsc : ℕ → ℕ → ℕ
gdt_flat_dsc pvl typ = put seg_desc_p 1 (
    put seg_desc_s 1 (
      put seg_desc_g 1 (
        put seg_desc_d 1 (
          put seg_desc_dpl pvl
            (put seg_desc_type typ (put seg_desc_limit_2 0xf (put seg_desc_limit_1 0xffff 0)))))))

-- `sizeof(tss_t)`: 104 bytes of registers, and the maps of `tss_maps_t` behind the trap word.
abbrev pub sizeof_tss : ℕ
sizeof_tss = 4 + 3 * 8 + 3 * 4 + 32 + 7 * 4 + 2 + (2 + 32 + 8192 + 1)

-- `create_tss_dsc` and `tss_dsc`
unfoldable pub create_tss_dsc : ℕ → ℕ
create_tss_dsc tss = put seg_desc_p 1 (
    put seg_desc_type tss_avl_32 (
      put seg_desc_base_3 (tss >>> 24)
        (put seg_desc_base_2 (tss >>> 16) (put seg_desc_base_1 tss sizeof_tss))))
