-- ===== src/Pic/Regs.antt =====
-- The command words of kernel/include/pic.h, members from the lowest bit up.
use secos_ng.Base.{List, [], ◌∷◌}
use secos_ng.Bitfield.{Field, bits}

abbrev pub icw1_icw4 : Field
icw1_icw4 = bits 0 1

abbrev pub icw1_single : Field
icw1_single = bits 1 1

abbrev icw1_unused : Field
icw1_unused = bits 2 1

abbrev icw1_ltim : Field
icw1_ltim = bits 3 1

abbrev pub icw1_one : Field
icw1_one = bits 4 1

abbrev icw1_vect : Field
icw1_vect = bits 5 3

abbrev pub icw1 : List Field
icw1 = icw1_icw4 ∷ icw1_single ∷ icw1_unused ∷ icw1_ltim ∷ icw1_one ∷ icw1_vect ∷ []

abbrev icw2_zero : Field
icw2_zero = bits 0 3

abbrev pub icw2_irq_base : Field
icw2_irq_base = bits 3 5

abbrev pub icw2 : List Field
icw2 = icw2_zero ∷ icw2_irq_base ∷ []

abbrev icw3_master_irq0 : Field
icw3_master_irq0 = bits 0 1

abbrev icw3_master_irq1 : Field
icw3_master_irq1 = bits 1 1

abbrev pub icw3_master_irq2 : Field
icw3_master_irq2 = bits 2 1

abbrev icw3_master_irq3 : Field
icw3_master_irq3 = bits 3 1

abbrev icw3_master_irq4 : Field
icw3_master_irq4 = bits 4 1

abbrev icw3_master_irq5 : Field
icw3_master_irq5 = bits 5 1

abbrev icw3_master_irq6 : Field
icw3_master_irq6 = bits 6 1

abbrev icw3_master_irq7 : Field
icw3_master_irq7 = bits 7 1

abbrev pub icw3_master : List Field
icw3_master =
    icw3_master_irq0 ∷ icw3_master_irq1 ∷ icw3_master_irq2 ∷ icw3_master_irq3 ∷ icw3_master_irq4
    ∷ icw3_master_irq5 ∷ icw3_master_irq6 ∷ icw3_master_irq7 ∷ []

abbrev pub icw3_slave_id : Field
icw3_slave_id = bits 0 3

abbrev icw3_slave_zero : Field
icw3_slave_zero = bits 3 5

abbrev pub icw3_slave : List Field
icw3_slave = icw3_slave_id ∷ icw3_slave_zero ∷ []

abbrev pub icw4_x86 : Field
icw4_x86 = bits 0 1

abbrev pub icw4_aeoi : Field
icw4_aeoi = bits 1 1

abbrev icw4_ms : Field
icw4_ms = bits 2 1

abbrev icw4_buff : Field
icw4_buff = bits 3 1

abbrev icw4_sfnm : Field
icw4_sfnm = bits 4 1

abbrev icw4_zero : Field
icw4_zero = bits 5 3

abbrev pub icw4 : List Field
icw4 = icw4_x86 ∷ icw4_aeoi ∷ icw4_ms ∷ icw4_buff ∷ icw4_sfnm ∷ icw4_zero ∷ []

abbrev ocw1_irq0 : Field
ocw1_irq0 = bits 0 1

abbrev ocw1_irq1 : Field
ocw1_irq1 = bits 1 1

abbrev ocw1_irq2 : Field
ocw1_irq2 = bits 2 1

abbrev ocw1_irq3 : Field
ocw1_irq3 = bits 3 1

abbrev ocw1_irq4 : Field
ocw1_irq4 = bits 4 1

abbrev ocw1_irq5 : Field
ocw1_irq5 = bits 5 1

abbrev ocw1_irq6 : Field
ocw1_irq6 = bits 6 1

abbrev ocw1_irq7 : Field
ocw1_irq7 = bits 7 1

abbrev pub ocw1 : List Field
ocw1 =
    ocw1_irq0 ∷ ocw1_irq1 ∷ ocw1_irq2 ∷ ocw1_irq3 ∷ ocw1_irq4 ∷ ocw1_irq5 ∷ ocw1_irq6 ∷ ocw1_irq7
    ∷ []

abbrev pub ocw2_lvl : Field
ocw2_lvl = bits 0 3

abbrev ocw2_zero : Field
ocw2_zero = bits 3 2

abbrev pub ocw2_cmd : Field
ocw2_cmd = bits 5 3

abbrev pub ocw2 : List Field
ocw2 = ocw2_lvl ∷ ocw2_zero ∷ ocw2_cmd ∷ []

abbrev ocw3_reg : Field
ocw3_reg = bits 0 2

abbrev ocw3_poll : Field
ocw3_poll = bits 2 1

abbrev ocw3_one : Field
ocw3_one = bits 3 1

abbrev ocw3_zero : Field
ocw3_zero = bits 4 1

abbrev ocw3_smm : Field
ocw3_smm = bits 5 2

abbrev ocw3_zero2 : Field
ocw3_zero2 = bits 7 1

abbrev pub ocw3 : List Field
ocw3 = ocw3_reg ∷ ocw3_poll ∷ ocw3_one ∷ ocw3_zero ∷ ocw3_smm ∷ ocw3_zero2 ∷ []
