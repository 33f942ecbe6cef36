-- ===== src/Trap/Gate.antt =====
-- The interrupt gate of kernel/include/intr.h, members from the lowest bit up.
use secos_ng.Base.{List, [], ◌∷◌}
use secos_ng.Bitfield.{Field, bits}

abbrev pub int_desc_offset_1 : Field
int_desc_offset_1 = bits 0 16

abbrev pub int_desc_selector : Field
int_desc_selector = bits 16 16

abbrev int_desc_ist : Field
int_desc_ist = bits 32 3

abbrev int_desc_zero_1 : Field
int_desc_zero_1 = bits 35 5

abbrev pub int_desc_type : Field
int_desc_type = bits 40 4

abbrev int_desc_zero_2 : Field
int_desc_zero_2 = bits 44 1

abbrev pub int_desc_dpl : Field
int_desc_dpl = bits 45 2

abbrev pub int_desc_p : Field
int_desc_p = bits 47 1

abbrev pub int_desc_offset_2 : Field
int_desc_offset_2 = bits 48 16

abbrev pub int_desc : List Field
int_desc =
    int_desc_offset_1 ∷ int_desc_selector ∷ int_desc_ist ∷ int_desc_zero_1 ∷ int_desc_type
    ∷ int_desc_zero_2 ∷ int_desc_dpl ∷ int_desc_p ∷ int_desc_offset_2 ∷ []
