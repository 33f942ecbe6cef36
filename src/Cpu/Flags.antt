-- ===== src/Cpu/Flags.antt =====
-- The flags register of kernel/include/gpr.h, members from the lowest bit up.
use secos_ng.Base.{List, [], ◌∷◌}
use secos_ng.Bitfield.{Field, bits}

abbrev pub eflags_cf : Field
eflags_cf = bits 0 1

abbrev pub eflags_r1 : Field
eflags_r1 = bits 1 1

abbrev pub eflags_pf : Field
eflags_pf = bits 2 1

abbrev pub eflags_r2 : Field
eflags_r2 = bits 3 1

abbrev pub eflags_af : Field
eflags_af = bits 4 1

abbrev pub eflags_r3 : Field
eflags_r3 = bits 5 1

abbrev pub eflags_zf : Field
eflags_zf = bits 6 1

abbrev pub eflags_sf : Field
eflags_sf = bits 7 1

abbrev pub eflags_tf : Field
eflags_tf = bits 8 1

abbrev pub eflags_it : Field
eflags_it = bits 9 1

abbrev pub eflags_df : Field
eflags_df = bits 10 1

abbrev pub eflags_of : Field
eflags_of = bits 11 1

abbrev pub eflags_iopl : Field
eflags_iopl = bits 12 2

abbrev eflags_nt : Field
eflags_nt = bits 14 1

abbrev pub eflags_r4 : Field
eflags_r4 = bits 15 1

abbrev pub eflags_rf : Field
eflags_rf = bits 16 1

abbrev pub eflags_vm : Field
eflags_vm = bits 17 1

abbrev eflags_ac : Field
eflags_ac = bits 18 1

abbrev pub eflags_vit : Field
eflags_vit = bits 19 1

abbrev pub eflags_vip : Field
eflags_vip = bits 20 1

abbrev eflags_id : Field
eflags_id = bits 21 1

abbrev pub eflags_r5 : Field
eflags_r5 = bits 22 10

abbrev pub eflags : List Field
eflags =
    eflags_cf ∷ eflags_r1 ∷ eflags_pf ∷ eflags_r2 ∷ eflags_af ∷ eflags_r3 ∷ eflags_zf ∷ eflags_sf
    ∷ eflags_tf ∷ eflags_it ∷ eflags_df ∷ eflags_of ∷ eflags_iopl ∷ eflags_nt ∷ eflags_r4
    ∷ eflags_rf ∷ eflags_vm ∷ eflags_ac ∷ eflags_vit ∷ eflags_vip ∷ eflags_id ∷ eflags_r5 ∷ []
