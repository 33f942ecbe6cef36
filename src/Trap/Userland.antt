-- ===== src/Trap/Userland.antt =====
-- `tp` of tp5/tp.c: it loads a flat table and a TSS, opens one gate to ring 3 and enters the code at
-- `userland` there.
use secos_ng.Base.{
  ℕ, ◌+◌, ◌-◌, ◌*◌, ◌%◌, ◌^◌, ◌<◌, ◌≡◌, ap, ◌∙◌, arith, ◌==◌, if◌then◌else◌, List, [], ◌∷◌, some,
}
use mathlib.Core.Option.{map}
use secos_ng.Bitfield.{get, put}
use secos_ng.Types.{wlow, whigh, blow, bhigh}
use secos_ng.Segment.{
  gdt_flat_dsc, create_tss_dsc, sizeof_tss, code_xr, data_rw, tss_avl_32, c0_sel, d0_sel, c3_sel,
  d3_sel, ts_sel, gdt_krn_seg_sel,
}
use secos_ng.Segment.Regs.{
  seg_desc_base_1, seg_desc_base_2, seg_desc_base_3, seg_desc_type, seg_desc_p, seg_sel_rpl,
}
use secos_ng.Segment.Table.{Loaded, select, flat, config_segmentation, config_segmentation-select}
use secos_ng.Trap.{Idtr, intr_init, update_at, redirect, build_int_desc}
use secos_ng.Trap.Table.{
  gate, gate_at, kernel_gate, get_elem?-fill_idt, get_elem?-redirect, gate_either,
  gate-build_int_desc,
}

-- `tss_dsc`: the raw descriptor after the assignments, in order.
unfoldable pub tss_dsc : ℕ → ℕ
tss_dsc tss =
    let high = get whigh tss in
    put seg_desc_p 1 (
      put seg_desc_type tss_avl_32 (
        put seg_desc_base_3 (get bhigh high)
          (put seg_desc_base_2 (get blow high) (put seg_desc_base_1 (get wlow tss) sizeof_tss))))

-- `GDT` is static, so its last entry is 0 until `tp` sets it.
unfoldable pub init_gdt : List ℕ
init_gdt =
    0
    ∷ gdt_flat_dsc 0 code_xr
    ∷ gdt_flat_dsc 0 data_rw
    ∷ gdt_flat_dsc 3 code_xr
    ∷ gdt_flat_dsc 3 data_rw
    ∷ 0
    ∷ []

unfoldable pub config_syscall : (syscall_isr : ℕ) → Idtr → Idtr
config_syscall syscall_isr idtr = record idtr {
  desc = update_at 48 (redirect syscall_isr) idtr.desc;
}

-- What `iret` takes from the stack.
pub record Frame : Type 0 where
  pub ss : ℕ
  pub esp : ℕ
  pub eflags : ℕ
  pub cs : ℕ
  pub eip : ℕ

pub record Entered : Type 0 where
  pub segments : Loaded
  pub idtr : Idtr
  pub frame : Frame

-- `ebp` and `eflags` are what the registers hold.
unfoldable pub tp : (syscall_isr tss userland ebp eflags : ℕ) → Idtr → Entered
tp syscall_isr tss userland ebp eflags idtr = record {
  segments = record {
    gdt = update_at 5 (λ dsc. tss_dsc tss) init_gdt;
    limit = 6 * 8 - 1;
    cs = c0_sel;
    data_sel = d3_sel;
    tss_esp0 = ebp;
    tss_ss0 = d0_sel;
    tr = ts_sel;
  };
  idtr = config_syscall syscall_isr idtr;
  frame = record { ss = d3_sel; esp = 0x800000; eflags = eflags; cs = c3_sel; eip = userland };
}

-- The macro builds what the one of kernel/include/segmem.h does.
tss_dsc-create_tss_dsc : (tss : ℕ) → tss < 2 ^ 32 → tss_dsc tss ≡ create_tss_dsc tss
unfolding tss_dsc create_tss_dsc
tss_dsc-create_tss_dsc tss h = ground arith

-- The table is the one that tp_exam loads.
pub gdt-config_segmentation :
    (tss ebp : ℕ)
    → tss < 2 ^ 32
    → update_at 5 (λ dsc. tss_dsc tss) init_gdt ≡ (config_segmentation tss ebp).gdt
unfolding init_gdt update_at config_segmentation
gdt-config_segmentation tss ebp h =
    ap
      (λ d.
        0
        ∷ gdt_flat_dsc 0 code_xr
        ∷ gdt_flat_dsc 0 data_rw
        ∷ gdt_flat_dsc 3 code_xr
        ∷ gdt_flat_dsc 3 data_rw
        ∷ d
        ∷ [])
      (tss_dsc-create_tss_dsc tss h)

pub select-gdt : (a b : Loaded) (sel : ℕ) → a.gdt ≡ b.gdt → select a sel ≡ select b sel
unfolding select
select-gdt a b sel e = ground (arith, e)

-- With 32-bit addresses, the two selectors of the frame that `tp` leaves for `iret` ask for ring 3
-- and name the flat code and data segments of that level; the TSS has the flat data segment of ring
-- 0 for its stack, and the task register names the TSS. Of the 256 gates of `intr_init`, number 48
-- alone is open to ring 3 and leads to the handler of the system call; all others keep their stub
-- and level 0.
pub tp-userland :
    (syscall_isr tss userland ebp eflags stub v : ℕ)
    → syscall_isr < 2 ^ 32
    → tss < 2 ^ 32
    → stub < 2 ^ 32
    → v < 256
    → let r = tp syscall_isr tss userland ebp eflags (intr_init stub) in
      (get seg_sel_rpl r.frame.cs ≡ 3)
      × (get seg_sel_rpl r.frame.ss ≡ 3)
      × (select r.segments r.frame.cs ≡ some (flat code_xr 3))
      × (select r.segments r.frame.ss ≡ some (flat data_rw 3))
      × (select r.segments r.segments.tss_ss0 ≡ some (flat data_rw 0))
      × (map (λ s. s.base) (select r.segments r.segments.tr) ≡ some tss)
      × (gate_at v r.idtr
          ≡ some (
              if v == 48
              then kernel_gate syscall_isr 3
              else kernel_gate ((stub + 16 * v) % 2 ^ 32) 0))
unfolding tp config_syscall intr_init
tp-userland syscall_isr tss userland ebp eflags stub v hy ht hs hv =
    let r = tp syscall_isr tss userland ebp eflags (intr_init stub) in
    let same = gdt-config_segmentation tss ebp ht in
    let s = config_segmentation-select tss ebp ht in
    let at = λ (sel : ℕ). select-gdt r.segments (config_segmentation tss ebp) sel same in
    let a = (stub + 16 * v) % 2 ^ 32 in
    let d = build_int_desc (gdt_krn_seg_sel 1) a in
    let e =
      get_elem?-redirect 48 v syscall_isr d (intr_init stub).desc
        (get_elem?-fill_idt 256 stub v hv hs) in
    (
      omega arith,
      omega arith,
      at c3_sel ∙ s.2,
      at d3_sel ∙ s.3,
      at d0_sel ∙ s.1,
      ap (map (λ g. g.base)) (at ts_sel ∙ s.4),
      ap (map gate) e
          ∙ ap some (gate_either 48 v syscall_isr d hy)
          ∙ ground (arith, gate-build_int_desc a (omega arith)),
    )
