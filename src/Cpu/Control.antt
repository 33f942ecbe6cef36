-- ===== src/Cpu/Control.antt =====
-- The control registers of kernel/include/cr.h, members from the lowest bit up.
use secos_ng.Base.{List, [], ◌∷◌}
use secos_ng.Bitfield.{Field, bits}

abbrev pub cr0_pe : Field
cr0_pe = bits 0 1

abbrev pub cr0_mp : Field
cr0_mp = bits 1 1

abbrev pub cr0_em : Field
cr0_em = bits 2 1

abbrev pub cr0_ts : Field
cr0_ts = bits 3 1

abbrev pub cr0_et : Field
cr0_et = bits 4 1

abbrev pub cr0_ne : Field
cr0_ne = bits 5 1

abbrev cr0_r1 : Field
cr0_r1 = bits 6 10

abbrev pub cr0_wp : Field
cr0_wp = bits 16 1

abbrev cr0_r2 : Field
cr0_r2 = bits 17 1

abbrev pub cr0_am : Field
cr0_am = bits 18 1

abbrev cr0_r3 : Field
cr0_r3 = bits 19 10

abbrev pub cr0_nw : Field
cr0_nw = bits 29 1

abbrev pub cr0_cd : Field
cr0_cd = bits 30 1

abbrev cr0_pg : Field
cr0_pg = bits 31 1

abbrev pub cr0 : List Field
cr0 =
    cr0_pe ∷ cr0_mp ∷ cr0_em ∷ cr0_ts ∷ cr0_et ∷ cr0_ne ∷ cr0_r1 ∷ cr0_wp ∷ cr0_r2 ∷ cr0_am ∷ cr0_r3
    ∷ cr0_nw ∷ cr0_cd ∷ cr0_pg ∷ []

abbrev cr3_r1 : Field
cr3_r1 = bits 0 3

abbrev cr3_pwt : Field
cr3_pwt = bits 3 1

abbrev cr3_pcd : Field
cr3_pcd = bits 4 1

abbrev cr3_r2 : Field
cr3_r2 = bits 5 7

abbrev cr3_addr : Field
cr3_addr = bits 12 20

abbrev pub cr3 : List Field
cr3 = cr3_r1 ∷ cr3_pwt ∷ cr3_pcd ∷ cr3_r2 ∷ cr3_addr ∷ []

abbrev pub cr4_vme : Field
cr4_vme = bits 0 1

abbrev pub cr4_pvi : Field
cr4_pvi = bits 1 1

abbrev pub cr4_tsd : Field
cr4_tsd = bits 2 1

abbrev pub cr4_de : Field
cr4_de = bits 3 1

abbrev pub cr4_pse : Field
cr4_pse = bits 4 1

abbrev pub cr4_pae : Field
cr4_pae = bits 5 1

abbrev pub cr4_mce : Field
cr4_mce = bits 6 1

abbrev pub cr4_pge : Field
cr4_pge = bits 7 1

abbrev pub cr4_pce : Field
cr4_pce = bits 8 1

abbrev pub cr4_osfxsr : Field
cr4_osfxsr = bits 9 1

abbrev pub cr4_osxmmexcpt : Field
cr4_osxmmexcpt = bits 10 1

abbrev cr4_r1 : Field
cr4_r1 = bits 11 2

abbrev pub cr4_vmxe : Field
cr4_vmxe = bits 13 1

abbrev pub cr4_smxe : Field
cr4_smxe = bits 14 1

abbrev cr4_r2 : Field
cr4_r2 = bits 15 2

abbrev pub cr4_pcide : Field
cr4_pcide = bits 17 1

abbrev pub cr4_osxsave : Field
cr4_osxsave = bits 18 1

abbrev cr4_r3 : Field
cr4_r3 = bits 19 1

abbrev pub cr4_smep : Field
cr4_smep = bits 20 1

abbrev cr4_r4 : Field
cr4_r4 = bits 21 11

abbrev pub cr4 : List Field
cr4 =
    cr4_vme ∷ cr4_pvi ∷ cr4_tsd ∷ cr4_de ∷ cr4_pse ∷ cr4_pae ∷ cr4_mce ∷ cr4_pge ∷ cr4_pce
    ∷ cr4_osfxsr ∷ cr4_osxmmexcpt ∷ cr4_r1 ∷ cr4_vmxe ∷ cr4_smxe ∷ cr4_r2 ∷ cr4_pcide ∷ cr4_osxsave
    ∷ cr4_r3 ∷ cr4_smep ∷ cr4_r4 ∷ []
