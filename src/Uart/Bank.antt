-- ===== src/Uart/Bank.antt =====
-- Which register a write reaches, by the groups of port macros in kernel/include/uart.h: the
-- comments over them say for which value of LCR each group holds.
use secos_ng.Base.{ℕ, ◌<◌, ◌≡◌, arith, List, [], ◌∷◌, ◌==◌, if◌then◌else◌}
use secos_ng.Bitfield.{get, put}
use secos_ng.Io.{Out}
use secos_ng.Uart.{com1, efr_port, lcr_port, ier_port, dla_lsb}
use secos_ng.Uart.Regs.{lcr_dla, fcr_enable, fcr_dma, efr_a_rts, efr_a_cts}
use secos_ng.Uart.Init.{uart_init}

pub record Registers : Type 0 where
  pub ier : ℕ
  pub fcr : ℕ
  pub efr : ℕ
  pub lcr : ℕ
  pub lsb : ℕ
  pub msb : ℕ

-- A write to the device at `base`. A byte to be transmitted changes no register.
deliver : ℕ → Out → Registers → Registers
deliver base o r =
    if o.port == lcr_port base
    then record r { lcr = o.value }
    else if o.port == efr_port base
    then (if r.lcr == 0xbf then record r { efr = o.value } else record r { fcr = o.value })
    else if o.port == dla_lsb base
    then (if get lcr_dla r.lcr == 1 then record r { lsb = o.value } else r)
    else if o.port == ier_port base
    then (if get lcr_dla r.lcr == 1 then record r { msb = o.value } else record r { ier = o.value })
    else r

pub deliver_all : ℕ → List Out → Registers → Registers
deliver_all base [] r = r
deliver_all base (o ∷ os) r = deliver_all base os (deliver base o r)

-- Whatever byte `fcr` held and the registers were, after `uart_init` the port runs at divisor 1, with 8 bits, one stop bit, no parity and no
-- interrupts. The two writes to the FIFO and enhanced registers have changed places: EFR holds
-- what was meant for FCR, which the source never initialised but for two bits, and FCR the
-- flow control bits that were meant for EFR.
pub uart_init-registers :
    (fcr : ℕ) (r : Registers)
    → fcr < 256
    → deliver_all com1 (uart_init fcr) r ≡ record {
      ier = 0;
      fcr = put efr_a_cts 1 (put efr_a_rts 1 0);
      efr = put fcr_dma 0 (put fcr_enable 0 fcr);
      lcr = 3;
      lsb = 1;
      msb = 0;
    }
unfolding uart_init deliver deliver_all
uart_init-registers fcr r h = ground arith
