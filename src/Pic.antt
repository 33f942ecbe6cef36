-- ===== src/Pic.antt =====
-- The interrupt controllers of kernel/include/pic.h and `pic_init` of kernel/core/pic.c.
pub mod Regs
pub mod Remap
pub mod Service
pub mod Bios
use secos_ng.Base.{ℕ, ◌+◌, ◌-◌, Bool, ltb, if◌then◌else◌, List, [], ◌∷◌}
use secos_ng.Bitfield.{put}
use secos_ng.Io.{Out, out}
use secos_ng.Pic.Regs.{icw3_master_irq2, icw3_slave_id}

abbrev pub pic1 : ℕ
pic1 = 0x20

abbrev pub pic2 : ℕ
pic2 = 0xa0

-- The ports of the command words: `PIC_ICW1(BASE)`, and `PIC_ICW2(BASE)` to `PIC_ICW4(BASE)`.
abbrev pic_icw1 : ℕ → ℕ
pic_icw1 base = base

abbrev pic_icw2 : ℕ → ℕ
pic_icw2 base = base + 1

abbrev pic_icw3 : ℕ → ℕ
pic_icw3 base = base + 1

abbrev pic_icw4 : ℕ → ℕ
pic_icw4 base = base + 1

-- The writes of `pic_init`, in order.
pub pic_init : List Out
pic_init =
    out 0x11 (pic_icw1 pic1)
    ∷ out 0x11 (pic_icw1 pic2)
    ∷ out 32 (pic_icw2 pic1)
    ∷ out (32 + 8) (pic_icw2 pic2)
    ∷ out (put icw3_master_irq2 1 0) (pic_icw3 pic1)
    ∷ out (put icw3_slave_id 2 0) (pic_icw3 pic2)
    ∷ out 1 (pic_icw4 pic1)
    ∷ out 1 (pic_icw4 pic2)
    ∷ []
