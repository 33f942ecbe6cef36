-- ===== src/Trap/Regs.antt =====
-- The error codes of kernel/include/excp.h, members from the lowest bit up.
use secos_ng.Base.{List, [], ◌∷◌}
use secos_ng.Bitfield.{Field, bits}

abbrev pub sl_err_ext : Field
sl_err_ext = bits 0 1

abbrev pub sl_err_idt : Field
sl_err_idt = bits 1 1

abbrev pub sl_err_ti : Field
sl_err_ti = bits 2 1

abbrev pub sl_err_idx : Field
sl_err_idx = bits 3 13

abbrev sl_err_r : Field
sl_err_r = bits 16 16

abbrev pub sl_err : List Field
sl_err = sl_err_ext ∷ sl_err_idt ∷ sl_err_ti ∷ sl_err_idx ∷ sl_err_r ∷ []

abbrev pub pf_err_p : Field
pf_err_p = bits 0 1

abbrev pub pf_err_wr : Field
pf_err_wr = bits 1 1

abbrev pub pf_err_us : Field
pf_err_us = bits 2 1

abbrev pf_err_rsv : Field
pf_err_rsv = bits 3 1

abbrev pub pf_err_id : Field
pf_err_id = bits 4 1

abbrev pf_err_r : Field
pf_err_r = bits 5 27

abbrev pub pf_err : List Field
pf_err = pf_err_p ∷ pf_err_wr ∷ pf_err_us ∷ pf_err_rsv ∷ pf_err_id ∷ pf_err_r ∷ []
