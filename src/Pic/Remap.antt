-- ===== src/Pic/Remap.antt =====
-- What the pair of controllers does with a request once `pic_init` has run, by the comments on
-- the command words in kernel/include/pic.h.
use secos_ng.Base.{
  ℕ, ◌+◌, ◌-◌, ◌*◌, ◌<◌, ◌≡◌, arith, ◌==◌, ltb, if◌then◌else◌, Option, none, some, List, [], ◌∷◌,
}
use secos_ng.Bitfield.{get}
use secos_ng.Io.{Out}
use secos_ng.Pic.{pic1, pic2, pic_init}
use secos_ng.Pic.Regs.{
  icw1_one, icw1_icw4, icw1_single, icw2_irq_base, icw3_master_irq2, icw3_slave_id, icw4_x86,
  icw4_aeoi,
}

-- One controller: which command word it waits for (0 when it runs), and the words it has.
pub record Controller : Type 0 where
  pub expects : ℕ
  pub icw1 : ℕ
  pub icw2 : ℕ
  pub icw3 : ℕ
  pub icw4 : ℕ
  pub imr : ℕ

-- A write with line A0 low, then one with it high.
unfoldable pub write_low : ℕ → Controller → Controller
write_low v c = if get icw1_one v == 1 then record c { expects = 2; icw1 = v; imr = 0 } else c

unfoldable pub write_high : ℕ → Controller → Controller
write_high v c =
    if c.expects == 2
    then record c { expects = if get icw1_single c.icw1 == 1 then 4 else 3; icw2 = v }
    else if c.expects == 3
    then record c { expects = if get icw1_icw4 c.icw1 == 1 then 4 else 0; icw3 = v }
    else if c.expects == 4
    then record c { expects = 0; icw4 = v }
    else record c { imr = v }

pub record Pair : Type 0 where
  pub master : Controller
  pub slave : Controller

unfoldable pub command : Out → Pair → Pair
command o p =
    if o.port == pic1
    then record p { master = write_low o.value p.master }
    else if o.port == pic1 + 1
    then record p { master = write_high o.value p.master }
    else if o.port == pic2
    then record p { slave = write_low o.value p.slave }
    else if o.port == pic2 + 1
    then record p { slave = write_high o.value p.slave }
    else p

unfoldable pub command_all : List Out → Pair → Pair
command_all [] p = p
command_all (o ∷ os) p = command_all os (command o p)

-- The vector of a request: a running controller adds the line to its base, and the slave's lines
-- reach the processor through line 2 of the master.
unfoldable pub vector : Pair → ℕ → Option ℕ
vector p irq =
    if ltb irq 8
    then (if p.master.expects == 0 then some (get icw2_irq_base p.master.icw2 * 8 + irq) else none)
    else if (get icw3_master_irq2 p.master.icw3 == 1)
    then (if p.slave.expects == 0
        then some (get icw2_irq_base p.slave.icw2 * 8 + (irq - 8))
        else none)
    else none

-- In whatever state the controllers were, `pic_init` leaves both running, with nothing masked, in
-- 8086 mode and with ends of interrupt to be sent; the slave answers to line 2, and request `irq`
-- of the sixteen comes as vector `32 + irq`, behind the processor's exceptions.
pub pic_init-vector :
    (p : Pair) (irq : ℕ)
    → irq < 16
    → let q = command_all pic_init p in
      (vector q irq ≡ some (32 + irq))
      × (q.master.imr ≡ 0)
      × (q.slave.imr ≡ 0)
      × (get icw3_slave_id q.slave.icw3 ≡ 2)
      × (get icw4_x86 q.master.icw4 ≡ 1)
      × (get icw4_x86 q.slave.icw4 ≡ 1)
      × (get icw4_aeoi q.master.icw4 ≡ 0)
      × (get icw4_aeoi q.slave.icw4 ≡ 0)
unfolding pic_init command_all command write_low write_high vector
pic_init-vector p irq h = ground arith
