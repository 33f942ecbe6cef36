-- ===== src/Segment/Regs.antt =====
-- The selector and descriptor unions of kernel/include/segmem.h, members from the lowest bit up.
use secos_ng.Base.{List, [], ◌∷◌}
use secos_ng.Bitfield.{Field, bits}

abbrev pub seg_sel_rpl : Field
seg_sel_rpl = bits 0 2

abbrev pub seg_sel_ti : Field
seg_sel_ti = bits 2 1

abbrev pub seg_sel_index : Field
seg_sel_index = bits 3 13

abbrev pub seg_sel : List Field
seg_sel = seg_sel_rpl ∷ seg_sel_ti ∷ seg_sel_index ∷ []

abbrev pub seg_desc_limit_1 : Field
seg_desc_limit_1 = bits 0 16

abbrev pub seg_desc_base_1 : Field
seg_desc_base_1 = bits 16 16

abbrev pub seg_desc_base_2 : Field
seg_desc_base_2 = bits 32 8

abbrev pub seg_desc_type : Field
seg_desc_type = bits 40 4

abbrev pub seg_desc_s : Field
seg_desc_s = bits 44 1

abbrev pub seg_desc_dpl : Field
seg_desc_dpl = bits 45 2

abbrev pub seg_desc_p : Field
seg_desc_p = bits 47 1

abbrev pub seg_desc_limit_2 : Field
seg_desc_limit_2 = bits 48 4

abbrev pub seg_desc_avl : Field
seg_desc_avl = bits 52 1

abbrev pub seg_desc_l : Field
seg_desc_l = bits 53 1

abbrev pub seg_desc_d : Field
seg_desc_d = bits 54 1

abbrev pub seg_desc_g : Field
seg_desc_g = bits 55 1

abbrev pub seg_desc_base_3 : Field
seg_desc_base_3 = bits 56 8

abbrev pub seg_desc : List Field
seg_desc =
    seg_desc_limit_1 ∷ seg_desc_base_1 ∷ seg_desc_base_2 ∷ seg_desc_type ∷ seg_desc_s ∷ seg_desc_dpl
    ∷ seg_desc_p ∷ seg_desc_limit_2 ∷ seg_desc_avl ∷ seg_desc_l ∷ seg_desc_d ∷ seg_desc_g
    ∷ seg_desc_base_3 ∷ []

abbrev tss_trap_on : Field
tss_trap_on = bits 0 1

abbrev tss_trap_pad : Field
tss_trap_pad = bits 1 15

abbrev pub tss_trap : List Field
tss_trap = tss_trap_on ∷ tss_trap_pad ∷ []
