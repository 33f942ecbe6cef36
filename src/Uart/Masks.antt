-- ===== src/Uart/Masks.antt =====
-- The masks of kernel/include/uart.h.
use secos_ng.Base.{ℕ, List, [], ◌∷◌, ◌<<<◌}
use secos_ng.Bitfield.{Field}
use secos_ng.Uart.Regs.{
  ier_lsr, ier_msr, ier_recv, ier_sleep, ier_thre, lsr_brk, lsr_data, lsr_fifo, lsr_fram,
  lsr_overrun, lsr_parity, lsr_thre, lsr_tsre,
}

abbrev lsr_data_ready_bit : ℕ
lsr_data_ready_bit = 0

abbrev lsr_data_ready_mask : ℕ
lsr_data_ready_mask = 1 <<< lsr_data_ready_bit

abbrev lsr_overrun_err_bit : ℕ
lsr_overrun_err_bit = 1

abbrev lsr_overrun_err_mask : ℕ
lsr_overrun_err_mask = 1 <<< lsr_overrun_err_bit

abbrev lsr_parity_err_bit : ℕ
lsr_parity_err_bit = 2

abbrev lsr_parity_err_mask : ℕ
lsr_parity_err_mask = 1 <<< lsr_parity_err_bit

abbrev lsr_frame_err_bit : ℕ
lsr_frame_err_bit = 3

abbrev lsr_frame_err_mask : ℕ
lsr_frame_err_mask = 1 <<< lsr_frame_err_bit

abbrev lsr_break_int_bit : ℕ
lsr_break_int_bit = 4

abbrev lsr_break_int_mask : ℕ
lsr_break_int_mask = 1 <<< lsr_break_int_bit

abbrev lsr_thre_bit : ℕ
lsr_thre_bit = 5

abbrev lsr_thre_mask : ℕ
lsr_thre_mask = 1 <<< lsr_thre_bit

abbrev lsr_tsre_bit : ℕ
lsr_tsre_bit = 6

abbrev lsr_tsre_mask : ℕ
lsr_tsre_mask = 1 <<< lsr_tsre_bit

abbrev lsr_zero_bit : ℕ
lsr_zero_bit = 7

abbrev lsr_zero_mask : ℕ
lsr_zero_mask = 1 <<< lsr_zero_bit

abbrev ier_recv_mask : ℕ
ier_recv_mask = 1 <<< 0

abbrev ier_thre_mask : ℕ
ier_thre_mask = 1 <<< 1

abbrev ier_rlsr_mask : ℕ
ier_rlsr_mask = 1 <<< 2

abbrev ier_msr_mask : ℕ
ier_msr_mask = 1 <<< 3

abbrev ier_sleep_mask : ℕ
ier_sleep_mask = 1 <<< 4

abbrev pub lsr_masks : List (ℕ × Field)
lsr_masks =
    (lsr_data_ready_mask, lsr_data)
    ∷ (lsr_overrun_err_mask, lsr_overrun)
    ∷ (lsr_parity_err_mask, lsr_parity)
    ∷ (lsr_frame_err_mask, lsr_fram)
    ∷ (lsr_break_int_mask, lsr_brk)
    ∷ (lsr_thre_mask, lsr_thre)
    ∷ (lsr_tsre_mask, lsr_tsre)
    ∷ (lsr_zero_mask, lsr_fifo)
    ∷ []

abbrev pub ier_masks : List (ℕ × Field)
ier_masks =
    (ier_recv_mask, ier_recv)
    ∷ (ier_thre_mask, ier_thre)
    ∷ (ier_rlsr_mask, ier_lsr)
    ∷ (ier_msr_mask, ier_msr)
    ∷ (ier_sleep_mask, ier_sleep)
    ∷ []
