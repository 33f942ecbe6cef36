-- ===== src/Cpu/ControlMasks.antt =====
-- The masks of kernel/include/cr.h for CR0.
use secos_ng.Base.{ℕ, List, [], ◌∷◌, ◌<<<◌}
use secos_ng.Bitfield.{Field}
use secos_ng.Cpu.Control.{
  cr0_am, cr0_cd, cr0_em, cr0_et, cr0_mp, cr0_ne, cr0_nw, cr0_pe, cr0_ts, cr0_wp,
}

abbrev cr0_pe_bit : ℕ
cr0_pe_bit = 0

abbrev cr0_pe_mask : ℕ
cr0_pe_mask = 1 <<< cr0_pe_bit

abbrev cr0_mp_bit : ℕ
cr0_mp_bit = 1

abbrev cr0_mp_mask : ℕ
cr0_mp_mask = 1 <<< cr0_mp_bit

abbrev cr0_em_bit : ℕ
cr0_em_bit = 2

abbrev cr0_em_mask : ℕ
cr0_em_mask = 1 <<< cr0_em_bit

abbrev cr0_ts_bit : ℕ
cr0_ts_bit = 3

abbrev cr0_ts_mask : ℕ
cr0_ts_mask = 1 <<< cr0_ts_bit

abbrev cr0_et_bit : ℕ
cr0_et_bit = 4

abbrev cr0_et_mask : ℕ
cr0_et_mask = 1 <<< cr0_et_bit

abbrev cr0_ne_bit : ℕ
cr0_ne_bit = 5

abbrev cr0_ne_mask : ℕ
cr0_ne_mask = 1 <<< cr0_ne_bit

abbrev cr0_wp_bit : ℕ
cr0_wp_bit = 16

abbrev cr0_wp_mask : ℕ
cr0_wp_mask = 1 <<< cr0_wp_bit

abbrev cr0_am_bit : ℕ
cr0_am_bit = 18

abbrev cr0_am_mask : ℕ
cr0_am_mask = 1 <<< cr0_am_bit

abbrev cr0_nw_bit : ℕ
cr0_nw_bit = 29

abbrev cr0_nw_mask : ℕ
cr0_nw_mask = 1 <<< cr0_nw_bit

abbrev cr0_cd_bit : ℕ
cr0_cd_bit = 30

abbrev cr0_cd_mask : ℕ
cr0_cd_mask = 1 <<< cr0_cd_bit

abbrev pub cr0_masks : List (ℕ × Field)
cr0_masks =
    (cr0_pe_mask, cr0_pe)
    ∷ (cr0_mp_mask, cr0_mp)
    ∷ (cr0_em_mask, cr0_em)
    ∷ (cr0_ts_mask, cr0_ts)
    ∷ (cr0_et_mask, cr0_et)
    ∷ (cr0_ne_mask, cr0_ne)
    ∷ (cr0_wp_mask, cr0_wp)
    ∷ (cr0_am_mask, cr0_am)
    ∷ (cr0_nw_mask, cr0_nw)
    ∷ (cr0_cd_mask, cr0_cd)
    ∷ []
