-- ===== src/Trap.antt =====
-- Interrupts and exceptions: the table that `intr_init` of kernel/core/intr.c builds with
-- `build_int_desc`, the two gates that `config_interrupt` of tp_exam/tp.c changes, and the
-- dispatch of `intr_hdlr` and `excp_hdlr`.
pub mod Regs
pub mod Gate
pub mod Table
pub mod Dispatch
pub mod Causes
pub mod Report
pub mod Stubs
pub mod Breakpoint
pub mod Ring3
pub mod Syscall
pub mod Userland
use secos_ng.Base.{ℕ, zero, suc, ◌-◌, ◌*◌, ◌/◌, ◌%◌, ◌^◌, List, [], ◌∷◌, add32, u16, ◌>>>◌}
use secos_ng.Bitfield.{put}
use secos_ng.Segment.{gdt_krn_seg_sel}
use secos_ng.Trap.Gate.{
  int_desc_offset_1, int_desc_selector, int_desc_type, int_desc_offset_2, int_desc_p, int_desc_dpl,
}

-- `build_int_desc`: the raw gate after the assignments, in order; `wlow` and `whigh` are the
-- halves of the handler's address.
pub build_int_desc : ℕ → ℕ → ℕ
build_int_desc cs isr = put int_desc_p 1 (
    put int_desc_offset_2 (isr / 2 ^ 16)
      (put int_desc_type 0xe (put int_desc_selector cs (isr % 2 ^ 16))))

abbrev idt_nr_desc : ℕ
idt_nr_desc = 256

abbrev idt_isr_algn : ℕ
idt_isr_algn = 16

-- The loop of `intr_init`, from the handler address `isr` on.
pub fill_idt : ℕ → ℕ → List ℕ
fill_idt zero isr = []
fill_idt (suc n) isr = build_int_desc (gdt_krn_seg_sel 1) isr ∷ fill_idt n (add32 isr idt_isr_algn)

-- The register that `lidt` loads: the table and its limit.
pub record Idtr : Type 0 where
  pub limit : ℕ
  pub desc : List ℕ

pub intr_init : ℕ → Idtr
intr_init idt_trampoline = record {
  limit = idt_nr_desc * 8 - 1;
  desc = fill_idt idt_nr_desc idt_trampoline;
}

-- `dsc->offset_1 = ...; dsc->offset_2 = ...; dsc->dpl = 3`
pub redirect : ℕ → ℕ → ℕ
redirect isr dsc =
    put int_desc_dpl 3 (put int_desc_offset_2 (isr / 2 ^ 16) (put int_desc_offset_1 isr dsc))

-- `xs[i] = f(xs[i])`; nothing past the end.
pub update_at : ℕ → (ℕ → ℕ) → List ℕ → List ℕ
update_at i f [] = []
update_at zero f (x ∷ xs) = f x ∷ xs
update_at (suc i) f (x ∷ xs) = x ∷ update_at i f xs

pub config_interrupt : (clock_interrupt_isr syscall_isr : ℕ) → Idtr → Idtr
config_interrupt clock_interrupt_isr syscall_isr idtr = record idtr {
  desc =
      update_at 0x80 (redirect syscall_isr) (update_at 32 (redirect clock_interrupt_isr) idtr.desc);
}
