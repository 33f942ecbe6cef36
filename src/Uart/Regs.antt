-- ===== src/Uart/Regs.antt =====
-- The register unions of kernel/include/uart.h, members from the lowest bit up.
use secos_ng.Base.{List, [], ◌∷◌}
use secos_ng.Bitfield.{Field, bits}

abbrev efr_flow_ctl : Field
efr_flow_ctl = bits 0 4

abbrev pub efr_ctl : Field
efr_ctl = bits 4 1

abbrev efr_spc : Field
efr_spc = bits 5 1

abbrev pub efr_a_rts : Field
efr_a_rts = bits 6 1

abbrev pub efr_a_cts : Field
efr_a_cts = bits 7 1

abbrev pub efr : List Field
efr = efr_flow_ctl ∷ efr_ctl ∷ efr_spc ∷ efr_a_rts ∷ efr_a_cts ∷ []

abbrev pub ier_recv : Field
ier_recv = bits 0 1

abbrev pub ier_thre : Field
ier_thre = bits 1 1

abbrev pub ier_lsr : Field
ier_lsr = bits 2 1

abbrev pub ier_msr : Field
ier_msr = bits 3 1

abbrev pub ier_sleep : Field
ier_sleep = bits 4 1

abbrev ier_xoff : Field
ier_xoff = bits 5 1

abbrev ier_rts : Field
ier_rts = bits 6 1

abbrev ier_cts : Field
ier_cts = bits 7 1

abbrev pub ier : List Field
ier = ier_recv ∷ ier_thre ∷ ier_lsr ∷ ier_msr ∷ ier_sleep ∷ ier_xoff ∷ ier_rts ∷ ier_cts ∷ []

abbrev iir_no_int_pending : Field
iir_no_int_pending = bits 0 1

abbrev iir_info : Field
iir_info = bits 1 3

abbrev iir_reserved : Field
iir_reserved = bits 4 2

abbrev iir_fifo : Field
iir_fifo = bits 6 2

abbrev pub iir : List Field
iir = iir_no_int_pending ∷ iir_info ∷ iir_reserved ∷ iir_fifo ∷ []

abbrev pub fcr_enable : Field
fcr_enable = bits 0 1

abbrev fcr_rx : Field
fcr_rx = bits 1 1

abbrev fcr_tx : Field
fcr_tx = bits 2 1

abbrev pub fcr_dma : Field
fcr_dma = bits 3 1

abbrev fcr_tx_trigger : Field
fcr_tx_trigger = bits 4 2

abbrev fcr_rx_trigger : Field
fcr_rx_trigger = bits 6 2

abbrev pub fcr : List Field
fcr = fcr_enable ∷ fcr_rx ∷ fcr_tx ∷ fcr_dma ∷ fcr_tx_trigger ∷ fcr_rx_trigger ∷ []

abbrev pub lcr_word_len : Field
lcr_word_len = bits 0 2

abbrev lcr_stop : Field
lcr_stop = bits 2 1

abbrev lcr_parity : Field
lcr_parity = bits 3 3

abbrev lcr_brk : Field
lcr_brk = bits 6 1

abbrev pub lcr_dla : Field
lcr_dla = bits 7 1

abbrev pub lcr : List Field
lcr = lcr_word_len ∷ lcr_stop ∷ lcr_parity ∷ lcr_brk ∷ lcr_dla ∷ []

abbrev mcr_data : Field
mcr_data = bits 0 1

abbrev mcr_req : Field
mcr_req = bits 1 1

abbrev mcr_aux1 : Field
mcr_aux1 = bits 2 1

abbrev mcr_aux2 : Field
mcr_aux2 = bits 3 1

abbrev mcr_loop : Field
mcr_loop = bits 4 1

abbrev mcr_auto_flow : Field
mcr_auto_flow = bits 5 1

abbrev mcr_reserved : Field
mcr_reserved = bits 6 2

abbrev pub mcr : List Field
mcr = mcr_data ∷ mcr_req ∷ mcr_aux1 ∷ mcr_aux2 ∷ mcr_loop ∷ mcr_auto_flow ∷ mcr_reserved ∷ []

abbrev pub lsr_data : Field
lsr_data = bits 0 1

abbrev pub lsr_overrun : Field
lsr_overrun = bits 1 1

abbrev pub lsr_parity : Field
lsr_parity = bits 2 1

abbrev pub lsr_fram : Field
lsr_fram = bits 3 1

abbrev pub lsr_brk : Field
lsr_brk = bits 4 1

abbrev pub lsr_thre : Field
lsr_thre = bits 5 1

abbrev pub lsr_tsre : Field
lsr_tsre = bits 6 1

abbrev pub lsr_fifo : Field
lsr_fifo = bits 7 1

abbrev pub lsr : List Field
lsr = lsr_data ∷ lsr_overrun ∷ lsr_parity ∷ lsr_fram ∷ lsr_brk ∷ lsr_thre ∷ lsr_tsre ∷ lsr_fifo ∷ []

abbrev msr_dcts : Field
msr_dcts = bits 0 1

abbrev msr_ddsr : Field
msr_ddsr = bits 1 1

abbrev msr_teri : Field
msr_teri = bits 2 1

abbrev msr_ddcd : Field
msr_ddcd = bits 3 1

abbrev msr_cts : Field
msr_cts = bits 4 1

abbrev msr_dsr : Field
msr_dsr = bits 5 1

abbrev msr_ri : Field
msr_ri = bits 6 1

abbrev msr_cd : Field
msr_cd = bits 7 1

abbrev pub msr : List Field
msr = msr_dcts ∷ msr_ddsr ∷ msr_teri ∷ msr_ddcd ∷ msr_cts ∷ msr_dsr ∷ msr_ri ∷ msr_cd ∷ []
