-- ===== src/Registers.antt =====
-- All packed unions of the headers in one enumeration: their members tile the raw word, so a word
-- can be built and read member by member without loss.
pub mod Masks
use secos_ng.Base.{ℕ, ◌^◌, ◌<◌, ◌≡◌, refl, List}
use secos_ng.Bitfield.{Field, Tiles, SameFields}
use secos_ng.Bitfield.Tiling.{SameFields-eq}
use secos_ng.Pic.Regs.{icw1, icw2, icw3_master, icw3_slave, icw4, ocw1, ocw2, ocw3}
use secos_ng.Segment.Regs.{seg_sel, seg_desc, tss_trap}
use secos_ng.Uart.Regs.{efr, ier, iir, fcr, lcr, mcr, lsr, msr}
use secos_ng.Paging.Regs.{pde, pde_page, pte}
use secos_ng.Cpu.Flags.{eflags}
use secos_ng.Cpu.Control.{cr0, cr3, cr4}
use secos_ng.Trap.Gate.{int_desc}
use secos_ng.Trap.Regs.{sl_err, pf_err}

pub data Union : Type 0 where
  of_icw1 of_icw2 of_icw3_master of_icw3_slave of_icw4 of_ocw1 of_ocw2 of_ocw3 : Union
  of_seg_sel of_seg_desc of_tss_trap : Union
  of_efr of_ier of_iir of_fcr of_lcr of_mcr of_lsr of_msr : Union
  of_pde of_pde_page of_pte : Union
  of_eflags : Union
  of_cr0 of_cr3 of_cr4 : Union
  of_int_desc : Union
  of_sl_err of_pf_err : Union

unfoldable pub members : Union → List Field
members of_icw1 = icw1
members of_icw2 = icw2
members of_icw3_master = icw3_master
members of_icw3_slave = icw3_slave
members of_icw4 = icw4
members of_ocw1 = ocw1
members of_ocw2 = ocw2
members of_ocw3 = ocw3
members of_seg_sel = seg_sel
members of_seg_desc = seg_desc
members of_tss_trap = tss_trap
members of_efr = efr
members of_ier = ier
members of_iir = iir
members of_fcr = fcr
members of_lcr = lcr
members of_mcr = mcr
members of_lsr = lsr
members of_msr = msr
members of_pde = pde
members of_pde_page = pde_page
members of_pte = pte
members of_eflags = eflags
members of_cr0 = cr0
members of_cr3 = cr3
members of_cr4 = cr4
members of_int_desc = int_desc
members of_sl_err = sl_err
members of_pf_err = pf_err

-- The width of the raw word.
unfoldable pub size : Union → ℕ
size of_icw1 = 8
size of_icw2 = 8
size of_icw3_master = 8
size of_icw3_slave = 8
size of_icw4 = 8
size of_ocw1 = 8
size of_ocw2 = 8
size of_ocw3 = 8
size of_seg_sel = 16
size of_seg_desc = 64
size of_tss_trap = 16
size of_efr = 8
size of_ier = 8
size of_iir = 8
size of_fcr = 8
size of_lcr = 8
size of_mcr = 8
size of_lsr = 8
size of_msr = 8
size of_pde = 32
size of_pde_page = 32
size of_pte = 32
size of_eflags = 32
size of_cr0 = 32
size of_cr3 = 32
size of_cr4 = 32
size of_int_desc = 64
size of_sl_err = 32
size of_pf_err = 32

-- The members of every union follow one another from bit 0 to the end of its word, with no gap.
members-tile : (u : Union) → Tiles 0 (members u) (size u)
unfolding members size
members-tile of_icw1 = (refl, (refl, (refl, (refl, (refl, (refl, refl))))))
members-tile of_icw2 = (refl, (refl, refl))
members-tile of_icw3_master = (refl, (refl, (refl, (refl, (refl, (refl, (refl, (refl, refl))))))))
members-tile of_icw3_slave = (refl, (refl, refl))
members-tile of_icw4 = (refl, (refl, (refl, (refl, (refl, (refl, refl))))))
members-tile of_ocw1 = (refl, (refl, (refl, (refl, (refl, (refl, (refl, (refl, refl))))))))
members-tile of_ocw2 = (refl, (refl, (refl, refl)))
members-tile of_ocw3 = (refl, (refl, (refl, (refl, (refl, (refl, refl))))))
members-tile of_seg_sel = (refl, (refl, (refl, refl)))
members-tile of_seg_desc = (
  refl,
  (
    refl,
    (refl, (refl, (refl, (refl, (refl, (refl, (refl, (refl, (refl, (refl, (refl, refl))))))))))),
  ),
)
members-tile of_tss_trap = (refl, (refl, refl))
members-tile of_efr = (refl, (refl, (refl, (refl, (refl, refl)))))
members-tile of_ier = (refl, (refl, (refl, (refl, (refl, (refl, (refl, (refl, refl))))))))
members-tile of_iir = (refl, (refl, (refl, (refl, refl))))
members-tile of_fcr = (refl, (refl, (refl, (refl, (refl, (refl, refl))))))
members-tile of_lcr = (refl, (refl, (refl, (refl, (refl, refl)))))
members-tile of_mcr = (refl, (refl, (refl, (refl, (refl, (refl, (refl, refl)))))))
members-tile of_lsr = (refl, (refl, (refl, (refl, (refl, (refl, (refl, (refl, refl))))))))
members-tile of_msr = (refl, (refl, (refl, (refl, (refl, (refl, (refl, (refl, refl))))))))
members-tile of_pde = (refl, (refl, (refl, (refl, (refl, (refl, (refl, (refl, (refl, refl)))))))))
members-tile of_pde_page = (
  refl,
  (
    refl,
    (refl, (refl, (refl, (refl, (refl, (refl, (refl, (refl, (refl, (refl, (refl, refl))))))))))),
  ),
)
members-tile of_pte =
    (refl, (refl, (refl, (refl, (refl, (refl, (refl, (refl, (refl, (refl, (refl, refl)))))))))))
members-tile of_eflags = (
  refl,
  (
    refl,
    (
      refl,
      (
        refl,
        (
          refl,
          (
            refl,
            (
              refl,
              (
                refl,
                (
                  refl,
                  (
                    refl,
                    (
                      refl,
                      (
                        refl,
                        (
                          refl,
                          (
                            refl,
                            (refl, (refl, (refl, (refl, (refl, (refl, (refl, (refl, refl)))))))),
                          ),
                        ),
                      ),
                    ),
                  ),
                ),
              ),
            ),
          ),
        ),
      ),
    ),
  ),
)
members-tile of_cr0 = (
  refl,
  (
    refl,
    (
      refl,
      (refl, (refl, (refl, (refl, (refl, (refl, (refl, (refl, (refl, (refl, (refl, refl))))))))))),
    ),
  ),
)
members-tile of_cr3 = (refl, (refl, (refl, (refl, (refl, refl)))))
members-tile of_cr4 = (
  refl,
  (
    refl,
    (
      refl,
      (
        refl,
        (
          refl,
          (
            refl,
            (
              refl,
              (
                refl,
                (
                  refl,
                  (
                    refl,
                    (
                      refl,
                      (refl, (refl, (refl, (refl, (refl, (refl, (refl, (refl, (refl, refl))))))))),
                    ),
                  ),
                ),
              ),
            ),
          ),
        ),
      ),
    ),
  ),
)
members-tile of_int_desc =
    (refl, (refl, (refl, (refl, (refl, (refl, (refl, (refl, (refl, refl)))))))))
members-tile of_sl_err = (refl, (refl, (refl, (refl, (refl, refl)))))
members-tile of_pf_err = (refl, (refl, (refl, (refl, (refl, (refl, refl))))))

-- Two words of a union with the same value at every member are the same word: the members leave
-- no bit of a register or descriptor out.
pub members-determine :
    (u : Union) (x y : ℕ) → x < 2 ^ size u → y < 2 ^ size u → SameFields (members u) x y → x ≡ y
members-determine u x y hx hy s = SameFields-eq (members u) (size u) x y (members-tile u) hx hy s
