-- ===== src/Uart/Init.antt =====
-- `uart_init`: the writes to the device, in order. `fcr` is what the stack held in the local of
-- that name, of which `__uart_fifo_init` sets two members only.
use secos_ng.Base.{ℕ, List, [], ◌∷◌, ◌++◌}
use secos_ng.Bitfield.{put}
use secos_ng.Io.{Out, out}
use secos_ng.Uart.{com1, efr_port, fcr_port, lcr_port, ier_port, dla_lsb, dla_msb}
use secos_ng.Uart.Regs.{efr_ctl, efr_a_rts, efr_a_cts, fcr_enable, fcr_dma, lcr_word_len}

fifo_init : ℕ → ℕ → List Out
fifo_init port fcr =
    out 0xbf (lcr_port port)
    ∷ out (put efr_ctl 1 0) (efr_port port)
    ∷ out (put fcr_dma 0 (put fcr_enable 0 fcr)) (fcr_port port)
    ∷ out 0 (lcr_port port)
    ∷ out (put efr_a_cts 1 (put efr_a_rts 1 0)) (efr_port port)
    ∷ []

-- Up to the loop that drops what has been received.
common_init : ℕ → List Out
common_init port =
    out 0x80 (lcr_port port)
    ∷ out 0x01 (dla_lsb port)
    ∷ out 0x00 (dla_msb port)
    ∷ out (put lcr_word_len 3 0) (lcr_port port)
    ∷ out 0 (ier_port port)
    ∷ []

unfoldable pub uart_init : ℕ → List Out
unfolding fifo_init common_init
uart_init fcr = fifo_init com1 fcr ++ common_init com1
