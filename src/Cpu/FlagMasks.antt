-- ===== src/Cpu/FlagMasks.antt =====
-- The masks of kernel/include/gpr.h.
use secos_ng.Base.{ℕ, List, [], ◌∷◌, ◌<<<◌}
use secos_ng.Bitfield.{Field}
use secos_ng.Cpu.Flags.{
  eflags_af, eflags_cf, eflags_df, eflags_iopl, eflags_it, eflags_of, eflags_pf, eflags_sf,
  eflags_tf, eflags_vip, eflags_vit, eflags_vm, eflags_zf,
}

abbrev eflags_cf_bit : ℕ
eflags_cf_bit = 0

abbrev eflags_cf_mask : ℕ
eflags_cf_mask = 1 <<< eflags_cf_bit

abbrev eflags_pf_bit : ℕ
eflags_pf_bit = 2

abbrev eflags_pf_mask : ℕ
eflags_pf_mask = 1 <<< eflags_pf_bit

abbrev eflags_af_bit : ℕ
eflags_af_bit = 4

abbrev eflags_af_mask : ℕ
eflags_af_mask = 1 <<< eflags_af_bit

abbrev eflags_zf_bit : ℕ
eflags_zf_bit = 6

abbrev eflags_zf_mask : ℕ
eflags_zf_mask = 1 <<< eflags_zf_bit

abbrev eflags_sf_bit : ℕ
eflags_sf_bit = 7

abbrev eflags_sf_mask : ℕ
eflags_sf_mask = 1 <<< eflags_sf_bit

abbrev eflags_tf_bit : ℕ
eflags_tf_bit = 8

abbrev eflags_tf_mask : ℕ
eflags_tf_mask = 1 <<< eflags_tf_bit

abbrev eflags_if_bit : ℕ
eflags_if_bit = 9

abbrev eflags_if_mask : ℕ
eflags_if_mask = 1 <<< eflags_if_bit

abbrev eflags_df_bit : ℕ
eflags_df_bit = 10

abbrev eflags_df_mask : ℕ
eflags_df_mask = 1 <<< eflags_df_bit

abbrev eflags_of_bit : ℕ
eflags_of_bit = 11

abbrev eflags_of_mask : ℕ
eflags_of_mask = 1 <<< eflags_of_bit

abbrev eflags_vm_bit : ℕ
eflags_vm_bit = 17

abbrev eflags_vm_mask : ℕ
eflags_vm_mask = 1 <<< eflags_vm_bit

abbrev eflags_vif_bit : ℕ
eflags_vif_bit = 19

abbrev eflags_vif_mask : ℕ
eflags_vif_mask = 1 <<< eflags_vif_bit

abbrev eflags_vip_bit : ℕ
eflags_vip_bit = 20

abbrev eflags_vip_mask : ℕ
eflags_vip_mask = 1 <<< eflags_vip_bit

abbrev eflags_iopl_mask : ℕ
eflags_iopl_mask = 3 <<< 12

abbrev pub eflags_masks : List (ℕ × Field)
eflags_masks =
    (eflags_cf_mask, eflags_cf)
    ∷ (eflags_pf_mask, eflags_pf)
    ∷ (eflags_af_mask, eflags_af)
    ∷ (eflags_zf_mask, eflags_zf)
    ∷ (eflags_sf_mask, eflags_sf)
    ∷ (eflags_tf_mask, eflags_tf)
    ∷ (eflags_if_mask, eflags_it)
    ∷ (eflags_df_mask, eflags_df)
    ∷ (eflags_of_mask, eflags_of)
    ∷ (eflags_vm_mask, eflags_vm)
    ∷ (eflags_vif_mask, eflags_vit)
    ∷ (eflags_vip_mask, eflags_vip)
    ∷ (eflags_iopl_mask, eflags_iopl)
    ∷ []
