-- ===== src/Pic/Bios.antt =====
-- `irq_to_ivt` of kernel/include/pic.h: the vectors of the requests as the BIOS leaves the controllers.
use secos_ng.Base.{ℕ, ◌+◌, ◌-◌, ◌<◌, ◌≡◌, arith, ltb, if◌then◌else◌, some}
use secos_ng.Bitfield.{get}
use secos_ng.Pic.Regs.{icw3_master_irq2}
use secos_ng.Pic.Remap.{Pair, vector}

abbrev dflt_pic1_icw2 : ℕ
dflt_pic1_icw2 = 0x8

abbrev dflt_pic2_icw2 : ℕ
dflt_pic2_icw2 = 0x70

irq_to_ivt : ℕ → ℕ
irq_to_ivt irq = if ltb irq 8 then irq + dflt_pic1_icw2 else irq - 8 + dflt_pic2_icw2

-- Running controllers with the base vectors of the BIOS, the second one at line 2 of the first one,
-- give each of the sixteen requests the vector that `irq_to_ivt` says.
vector-irq_to_ivt :
    (p : Pair) (irq : ℕ)
    → p.master.expects ≡ 0
    → p.slave.expects ≡ 0
    → p.master.icw2 ≡ dflt_pic1_icw2
    → p.slave.icw2 ≡ dflt_pic2_icw2
    → get icw3_master_irq2 p.master.icw3 ≡ 1
    → irq < 16
    → vector p irq ≡ some (irq_to_ivt irq)
unfolding vector irq_to_ivt
vector-irq_to_ivt p irq m s b c l h = ground (arith, m, s, b, c, l)
