-- ===== src/Cpu/ExtensionMasks.antt =====
-- The masks of kernel/include/cr.h for CR4.
use secos_ng.Base.{ℕ, List, [], ◌∷◌, ◌<<<◌}
use secos_ng.Bitfield.{Field}
use secos_ng.Cpu.Control.{
  cr4_de, cr4_mce, cr4_osfxsr, cr4_osxmmexcpt, cr4_osxsave, cr4_pae, cr4_pce, cr4_pcide, cr4_pge,
  cr4_pse, cr4_pvi, cr4_smep, cr4_smxe, cr4_tsd, cr4_vme, cr4_vmxe,
}

abbrev cr4_vme_bit : ℕ
cr4_vme_bit = 0

abbrev cr4_vme_mask : ℕ
cr4_vme_mask = 1 <<< cr4_vme_bit

abbrev cr4_pvi_bit : ℕ
cr4_pvi_bit = 1

abbrev cr4_pvi_mask : ℕ
cr4_pvi_mask = 1 <<< cr4_pvi_bit

abbrev cr4_tsd_bit : ℕ
cr4_tsd_bit = 2

abbrev cr4_tsd_mask : ℕ
cr4_tsd_mask = 1 <<< cr4_tsd_bit

abbrev cr4_de_bit : ℕ
cr4_de_bit = 3

abbrev cr4_de_mask : ℕ
cr4_de_mask = 1 <<< cr4_de_bit

abbrev cr4_pse_bit : ℕ
cr4_pse_bit = 4

abbrev cr4_pse_mask : ℕ
cr4_pse_mask = 1 <<< cr4_pse_bit

abbrev cr4_pae_bit : ℕ
cr4_pae_bit = 5

abbrev cr4_pae_mask : ℕ
cr4_pae_mask = 1 <<< cr4_pae_bit

abbrev cr4_mce_bit : ℕ
cr4_mce_bit = 6

abbrev cr4_mce_mask : ℕ
cr4_mce_mask = 1 <<< cr4_mce_bit

abbrev cr4_pge_bit : ℕ
cr4_pge_bit = 7

abbrev cr4_pge_mask : ℕ
cr4_pge_mask = 1 <<< cr4_pge_bit

abbrev cr4_pce_bit : ℕ
cr4_pce_bit = 8

abbrev cr4_pce_mask : ℕ
cr4_pce_mask = 1 <<< cr4_pce_bit

abbrev cr4_osfxsr_bit : ℕ
cr4_osfxsr_bit = 9

abbrev cr4_osfxsr_mask : ℕ
cr4_osfxsr_mask = 1 <<< cr4_osfxsr_bit

abbrev cr4_osxmmexcpt_bit : ℕ
cr4_osxmmexcpt_bit = 10

abbrev cr4_osxmmexcpt_mask : ℕ
cr4_osxmmexcpt_mask = 1 <<< cr4_osxmmexcpt_bit

abbrev cr4_vmxe_bit : ℕ
cr4_vmxe_bit = 13

abbrev cr4_vmxe_mask : ℕ
cr4_vmxe_mask = 1 <<< cr4_vmxe_bit

abbrev cr4_smxe_bit : ℕ
cr4_smxe_bit = 14

abbrev cr4_smxe_mask : ℕ
cr4_smxe_mask = 1 <<< cr4_smxe_bit

abbrev cr4_pcide_bit : ℕ
cr4_pcide_bit = 17

abbrev cr4_pcide_mask : ℕ
cr4_pcide_mask = 1 <<< cr4_pcide_bit

abbrev cr4_osxsave_bit : ℕ
cr4_osxsave_bit = 18

abbrev cr4_osxsave_mask : ℕ
cr4_osxsave_mask = 1 <<< cr4_osxsave_bit

abbrev cr4_smep_bit : ℕ
cr4_smep_bit = 20

abbrev cr4_smep_mask : ℕ
cr4_smep_mask = 1 <<< cr4_smep_bit

abbrev pub cr4_masks : List (ℕ × Field)
cr4_masks =
    (cr4_vme_mask, cr4_vme)
    ∷ (cr4_pvi_mask, cr4_pvi)
    ∷ (cr4_tsd_mask, cr4_tsd)
    ∷ (cr4_de_mask, cr4_de)
    ∷ (cr4_pse_mask, cr4_pse)
    ∷ (cr4_pae_mask, cr4_pae)
    ∷ (cr4_mce_mask, cr4_mce)
    ∷ (cr4_pge_mask, cr4_pge)
    ∷ (cr4_pce_mask, cr4_pce)
    ∷ (cr4_osfxsr_mask, cr4_osfxsr)
    ∷ (cr4_osxmmexcpt_mask, cr4_osxmmexcpt)
    ∷ (cr4_vmxe_mask, cr4_vmxe)
    ∷ (cr4_smxe_mask, cr4_smxe)
    ∷ (cr4_pcide_mask, cr4_pcide)
    ∷ (cr4_osxsave_mask, cr4_osxsave)
    ∷ (cr4_smep_mask, cr4_smep)
    ∷ []
