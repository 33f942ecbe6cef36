-- ===== src/Tests/Devices.antt =====
-- The serial port, the interrupt controllers, interrupts and the scheduler at concrete inputs.
use secos_ng.Base.{◌≡◌, refl, arith, [], ◌∷◌, some}
use secos_ng.Bitfield.{put}
use secos_ng.Uart.{com1, can_send, can_recv, uart_write, uart_read}
use secos_ng.Uart.Regs.{fcr_enable, fcr_dma, efr_a_rts, efr_a_cts}
use secos_ng.Uart.Init.{uart_init}
use secos_ng.Uart.Bank.{deliver_all, uart_init-registers}
use secos_ng.Uart.Transfer.{sends, ready, available, uart_write_lem, uart_read_lem}
use secos_ng.Pic.{pic_init}
use secos_ng.Pic.Remap.{Controller, Pair, command_all}
use secos_ng.Trap.{intr_init, config_interrupt}
use secos_ng.Trap.Table.{gate_at, kernel_gate, gate_at-config_interrupt}
use secos_ng.Segment.{c3_sel, d3_sel}
use secos_ng.Sched.{
  Kernel, config, clock_interrupt_handler, increasing_counter, eoi, enter, restore,
}
use secos_ng.Sched.Invariant.{Runs, IsValid, idle, clock_interrupt_handler-Runs}
use secos_ng.Sched.Fairness.{resumes, resumes-config, delayed}

uart_write_example :
    uart_write (0 ∷ 32 ∷ 32 ∷ []) (b'o' ∷ b'k' ∷ []) ≡ some (2, sends com1 (b'o' ∷ b'k' ∷ []))
unfolding ready can_send
uart_write_example = uart_write_lem (0 ∷ 32 ∷ 32 ∷ []) (b'o' ∷ b'k' ∷ [])

uart_read_example : uart_read ((1, b'h') ∷ (1, b'i') ∷ (0, 0) ∷ []) 8 ≡ some (2, b'h' ∷ b'i' ∷ [])
unfolding available can_recv
uart_read_example = uart_read_lem ((1, b'h') ∷ (1, b'i') ∷ (0, 0) ∷ []) 8 (omega arith)

uart_init-registers_example :
    deliver_all com1
      (uart_init 0xc1)
      (record { ier = 1; fcr = 0; efr = 0; lcr = 0; lsb = 12; msb = 0 })
    ≡ record {
      ier = 0;
      fcr = put efr_a_cts 1 (put efr_a_rts 1 0);
      efr = put fcr_dma 0 (put fcr_enable 0 0xc1);
      lcr = 3;
      lsb = 1;
      msb = 0;
    }
uart_init-registers_example =
    uart_init-registers 0xc1 (record { ier = 1; fcr = 0; efr = 0; lcr = 0; lsb = 12; msb = 0 })
      (omega arith)

-- The settings of the BIOS, and a word half given.
abbrev bios : Controller
bios = record { expects = 3; icw1 = 0; icw2 = 8; icw3 = 0; icw4 = 0; imr = 0xff }

abbrev remapped : Pair
remapped = command_all pic_init (record { master = bios; slave = bios })

gate_at-config_interrupt_example :
    gate_at 128 (config_interrupt 0x304000 0x304800 (intr_init 0x303000))
    ≡ some (kernel_gate 0x304800 3)
gate_at-config_interrupt_example =
    gate_at-config_interrupt 0x303000 0x304000 0x304800 128 (omega arith) (omega arith)
      (omega arith) (omega arith)

-- One of the vectors that have no name.

abbrev booted : Kernel
booted = config 0x400000 0x500000 0x800000 0x900000

abbrev after_tick : Kernel
after_tick = (clock_interrupt_handler [] booted).0

booted-IsValid : IsValid booted
unfolding config
booted-IsValid = idle refl

clock_interrupt_handler-Runs_example :
    Runs 0 after_tick
    × (after_tick.data_sel ≡ d3_sel)
    × (after_tick.log ≡ increasing_counter ∷ eoi ∷ [])
unfolding config
clock_interrupt_handler-Runs_example = clock_interrupt_handler-Runs [] booted-IsValid

resumes-config_example :
    resumes ((0 ∷ []) ∷ (1 ∷ []) ∷ (2 ∷ []) ∷ (3 ∷ []) ∷ []) booted
    ≡ enter d3_sel 0x500000 c3_sel 0x400000
      ∷ enter d3_sel 0x900000 c3_sel 0x800000
      ∷ restore (1 ∷ [])
      ∷ restore (2 ∷ [])
      ∷ []
unfolding delayed
resumes-config_example =
    resumes-config (0 ∷ []) (1 ∷ []) ((2 ∷ []) ∷ (3 ∷ []) ∷ []) 0x400000 0x500000 0x800000 0x900000
