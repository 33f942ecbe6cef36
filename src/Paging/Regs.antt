-- ===== src/Paging/Regs.antt =====
-- The directory and table entries of kernel/include/pagemem.h, members from the lowest bit up.
use secos_ng.Base.{List, [], ◌∷◌}
use secos_ng.Bitfield.{Field, bits}

abbrev pub pde_p : Field
pde_p = bits 0 1

abbrev pub pde_rw : Field
pde_rw = bits 1 1

abbrev pub pde_lvl : Field
pde_lvl = bits 2 1

abbrev pde_pwt : Field
pde_pwt = bits 3 1

abbrev pde_pcd : Field
pde_pcd = bits 4 1

abbrev pde_acc : Field
pde_acc = bits 5 1

abbrev pde_mbz : Field
pde_mbz = bits 6 3

abbrev pde_avl : Field
pde_avl = bits 9 3

abbrev pub pde_addr : Field
pde_addr = bits 12 20

abbrev pub pde : List Field
pde = pde_p ∷ pde_rw ∷ pde_lvl ∷ pde_pwt ∷ pde_pcd ∷ pde_acc ∷ pde_mbz ∷ pde_avl ∷ pde_addr ∷ []

abbrev pde_page_p : Field
pde_page_p = bits 0 1

abbrev pub pde_page_rw : Field
pde_page_rw = bits 1 1

abbrev pde_page_lvl : Field
pde_page_lvl = bits 2 1

abbrev pde_page_pwt : Field
pde_page_pwt = bits 3 1

abbrev pde_page_pcd : Field
pde_page_pcd = bits 4 1

abbrev pde_page_acc : Field
pde_page_acc = bits 5 1

abbrev pde_page_d : Field
pde_page_d = bits 6 1

abbrev pub pde_page_ps : Field
pde_page_ps = bits 7 1

abbrev pde_page_g : Field
pde_page_g = bits 8 1

abbrev pde_page_avl : Field
pde_page_avl = bits 9 3

abbrev pub pde_page_pat : Field
pde_page_pat = bits 12 1

abbrev pde_page_rsv : Field
pde_page_rsv = bits 13 9

abbrev pub pde_page_addr : Field
pde_page_addr = bits 22 10

abbrev pub pde_page : List Field
pde_page =
    pde_page_p ∷ pde_page_rw ∷ pde_page_lvl ∷ pde_page_pwt ∷ pde_page_pcd ∷ pde_page_acc
    ∷ pde_page_d ∷ pde_page_ps ∷ pde_page_g ∷ pde_page_avl ∷ pde_page_pat ∷ pde_page_rsv
    ∷ pde_page_addr ∷ []

abbrev pub pte_p : Field
pte_p = bits 0 1

abbrev pub pte_rw : Field
pte_rw = bits 1 1

abbrev pub pte_lvl : Field
pte_lvl = bits 2 1

abbrev pub pte_pwt : Field
pte_pwt = bits 3 1

abbrev pub pte_pcd : Field
pte_pcd = bits 4 1

abbrev pub pte_acc : Field
pte_acc = bits 5 1

abbrev pub pte_d : Field
pte_d = bits 6 1

abbrev pub pte_pat : Field
pte_pat = bits 7 1

abbrev pub pte_g : Field
pte_g = bits 8 1

abbrev pte_avl : Field
pte_avl = bits 9 3

abbrev pub pte_addr : Field
pte_addr = bits 12 20

abbrev pub pte : List Field
pte =
    pte_p ∷ pte_rw ∷ pte_lvl ∷ pte_pwt ∷ pte_pcd ∷ pte_acc ∷ pte_d ∷ pte_pat ∷ pte_g ∷ pte_avl
    ∷ pte_addr ∷ []
