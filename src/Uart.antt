-- ===== src/Uart.antt =====
-- kernel/core/uart.c. Reading the line status register takes the next answer of the device, and
-- so does reading the receiver; the bytes sent to the port are kept in order.
pub mod Regs
pub mod Masks
pub mod Init
pub mod Bank
pub mod Transfer
use mathlib.Core.Option
use secos_ng.Base.{
  ℕ, zero, suc, ◌+◌, ◌-◌, ◌*◌, ◌/◌, ◌%◌, ◌^◌, bit_and, Bool, true, false, not, ◌&&◌, Option, none,
  some, List, [], ◌∷◌, length, ltb, ◌==◌, if◌then◌else◌,
}
use secos_ng.Io.{Out, out}

abbrev pub com1 : ℕ
com1 = 0x3f8

abbrev pub txrx : ℕ → ℕ
txrx base = base

abbrev pub ier_port : ℕ → ℕ
ier_port base = base + 1

abbrev pub fcr_port : ℕ → ℕ
fcr_port base = base + 2

abbrev pub efr_port : ℕ → ℕ
efr_port base = base + 2

abbrev pub lcr_port : ℕ → ℕ
lcr_port base = base + 3

abbrev lsr_port : ℕ → ℕ
lsr_port base = base + 5

abbrev pub dla_lsb : ℕ → ℕ
dla_lsb base = base

abbrev pub dla_msb : ℕ → ℕ
dla_msb base = base + 1

abbrev lsr_data_ready : ℕ
lsr_data_ready = 1

abbrev lsr_thre : ℕ
lsr_thre = 32

-- `__uart_can_send` and `__uart_can_recv` of the status that was read.
unfoldable pub can_send : ℕ → Bool
can_send status = not (bit_and status lsr_thre == 0)

unfoldable pub can_recv : ℕ → Bool
can_recv status = not (bit_and status lsr_data_ready == 0)

-- `while(buf->sz < max) if(can_send) { send data[sz]; sz++; }`. `bytes` are those from `sz` on,
-- and `statuses` what the polls read; `none` is a poll beyond their end.
pub write_loop : ℕ → List ℕ → List ℕ → Option (List Out)
write_loop base statuses [] = some []
write_loop base [] (c ∷ bytes) = none
write_loop base (status ∷ statuses) (c ∷ bytes) =
    let sent = Option.map (λ os. out c (txrx base) ∷ os) (write_loop base statuses bytes) in
    let waiting = write_loop base statuses (c ∷ bytes) in if can_send status then sent else waiting

-- The returned count, and what is sent.
pub uart_write : List ℕ → List ℕ → Option (ℕ × List Out)
uart_write statuses bytes = Option.map (λ os. (length bytes, os)) (write_loop com1 statuses bytes)

-- `while(s) if(can_send) { send 0; s--; }`
pub flush_loop : ℕ → List ℕ → ℕ → Option (List Out)
flush_loop base statuses zero = some []
flush_loop base [] (suc s) = none
flush_loop base (status ∷ statuses) (suc s) =
    let sent = Option.map (λ os. out 0 (txrx base) ∷ os) (flush_loop base statuses s) in
    let waiting = flush_loop base statuses (suc s) in if can_send status then sent else waiting

pub uart_flush : List ℕ → Option (List Out)
uart_flush statuses = flush_loop com1 statuses 16

-- `while(can_recv && sz < max) data[sz++] = recv`. Each answer is the status that a poll reads
-- and the byte that the receiver holds then; `left` is `max - sz`.
pub read_loop : List (ℕ × ℕ) → ℕ → Option (List ℕ)
read_loop [] left = none
read_loop ((status, c) ∷ answers) left =
    let rest = Option.map (λ cs. c ∷ cs) (read_loop answers (left - 1)) in
    if can_recv status && ltb 0 left then rest else some []

-- The returned count, and the bytes stored.
pub uart_read : List (ℕ × ℕ) → ℕ → Option (ℕ × List ℕ)
uart_read answers n = Option.map (λ cs. (length cs, cs)) (read_loop answers n)

-- `__uart_flush_recv`: the bytes that are dropped.
unfoldable pub flush_recv : List (ℕ × ℕ) → Option (List ℕ)
flush_recv [] = none
flush_recv ((status, c) ∷ answers) =
    let rest = Option.map (λ cs. c ∷ cs) (flush_recv answers) in
    if can_recv status then rest else some []
