-- ===== src/Paging/Masks.antt =====
-- The masks of kernel/include/pagemem.h.
use secos_ng.Base.{ℕ, List, [], ◌∷◌, ◌<<<◌}
use secos_ng.Bitfield.{Field}
use secos_ng.Paging.Regs.{
  pde_page_pat, pde_page_ps, pte_acc, pte_d, pte_g, pte_lvl, pte_p, pte_pat, pte_pcd, pte_pwt,
  pte_rw,
}
use secos_ng.Paging.{pg_p, pg_rw, pg_usr}

abbrev pg_pwt_bit : ℕ
pg_pwt_bit = 3

abbrev pg_pwt_mask : ℕ
pg_pwt_mask = 1 <<< pg_pwt_bit

abbrev pg_pcd_bit : ℕ
pg_pcd_bit = 4

abbrev pg_pcd_mask : ℕ
pg_pcd_mask = 1 <<< pg_pcd_bit

abbrev pg_acc_bit : ℕ
pg_acc_bit = 5

abbrev pg_acc_mask : ℕ
pg_acc_mask = 1 <<< pg_acc_bit

abbrev pg_drt_bit : ℕ
pg_drt_bit = 6

abbrev pg_drt_mask : ℕ
pg_drt_mask = 1 <<< pg_drt_bit

abbrev pg_pat_bit : ℕ
pg_pat_bit = 7

abbrev pg_pat_mask : ℕ
pg_pat_mask = 1 <<< pg_pat_bit

abbrev pg_glb_bit : ℕ
pg_glb_bit = 8

abbrev pg_glb_mask : ℕ
pg_glb_mask = 1 <<< pg_glb_bit

abbrev pg_ps_bit : ℕ
pg_ps_bit = 7

abbrev pg_ps_mask : ℕ
pg_ps_mask = 1 <<< pg_ps_bit

abbrev pg_lpat_bit : ℕ
pg_lpat_bit = 12

abbrev pg_lpat_mask : ℕ
pg_lpat_mask = 1 <<< pg_lpat_bit

abbrev pub page_masks : List (ℕ × Field)
page_masks =
    (pg_p, pte_p)
    ∷ (pg_rw, pte_rw)
    ∷ (pg_usr, pte_lvl)
    ∷ (pg_pwt_mask, pte_pwt)
    ∷ (pg_pcd_mask, pte_pcd)
    ∷ (pg_acc_mask, pte_acc)
    ∷ (pg_drt_mask, pte_d)
    ∷ (pg_pat_mask, pte_pat)
    ∷ (pg_glb_mask, pte_g)
    ∷ (pg_ps_mask, pde_page_ps)
    ∷ (pg_lpat_mask, pde_page_pat)
    ∷ []
