-- ===== src/Trap/Report.antt =====
-- What `intr_hdlr` of kernel/core/intr.c and `excp_hdlr` of kernel/core/excp.c print, as their calls
-- of `debug`, `stack_trace` and `panic`.
pub mod Text
pub mod Printed
pub mod Names
use mathlib.Core.Option
use secos_ng.Base.{ℕ, ◌+◌, ◌*◌, ◌/◌, ◌%◌, ◌^◌, List, [], ◌∷◌, ◌++◌, Option, none, some, codes}
use secos_ng.Memory.{Memory}
use secos_ng.Print.Calls.{Call}
use secos_ng.Stack.{stack_trace}
use secos_ng.Trap.Dispatch.{
  Details, no_details, page_fault, protection, Handled, ignored_irq, ignored_nmi, fatal,
  out_of_range, intr_hdlr,
}

-- `int_ctx_t`: the registers that `pusha` saves, and what the processor and the stub push.
pub record Context : Type 0 where
  pub edi : ℕ
  pub esi : ℕ
  pub ebp : ℕ
  pub gpr_esp : ℕ
  pub ebx : ℕ
  pub edx : ℕ
  pub ecx : ℕ
  pub eax : ℕ
  pub nr : ℕ
  pub err : ℕ
  pub eip : ℕ
  pub cs : ℕ
  pub eflags : ℕ
  pub esp : ℕ
  pub ss : ℕ

-- The control registers, as their accessors read them.
pub record Control : Type 0 where
  pub cr0 : ℕ
  pub cr2 : ℕ
  pub cr3 : ℕ
  pub cr4 : ℕ

abbrev pub call : List ℕ → List ℕ → Call
call format args = record { format = format; args = args }

abbrev pub event_call : Context → Call
event_call x =
    call
      (codes
        "\nIDT event\n . int    #%d\n . error  0x%x\n . cs:eip 0x%x:0x%x\n . ss:esp 0x%x:0x%x\n . eflags 0x%x\n\n- GPR\neax     : 0x%x\necx     : 0x%x\nedx     : 0x%x\nebx     : 0x%x\nesp     : 0x%x\nebp     : 0x%x\nesi     : 0x%x\nedi     : 0x%x\n")
      (x.nr ∷ x.err ∷ x.cs ∷ x.eip ∷ x.ss ∷ x.esp ∷ x.eflags ∷ x.eax ∷ x.ecx ∷ x.edx ∷ x.ebx
        ∷ x.gpr_esp ∷ x.ebp ∷ x.esi ∷ x.edi ∷ [])

abbrev pub irq_call : ℕ → Call
irq_call vector = call (codes "ignore IRQ %d\n") (vector ∷ [])

abbrev pub nmi_call : Call
nmi_call = call (codes "#NMI (ignored)\n") []

-- `name_at` are the pointers in `exception_names`.
abbrev pub name_call : (name_at : ℕ → ℕ) (vector : ℕ) → Call
name_call name_at vector = call (codes "\nException: %s\n") (name_at vector ∷ [])

pub details_calls : Details → List Call
details_calls no_details = []
details_calls (page_fault p wr us id addr) =
    call (codes "#PF details: p:%d wr:%d us:%d id:%d addr 0x%x\n") (p ∷ wr ∷ us ∷ id ∷ addr ∷ [])
    ∷ []
details_calls (protection ext idt ti index) =
    call (codes "#GP details: ext:%d idt:%d ti:%d index:%d\n") (ext ∷ idt ∷ ti ∷ index ∷ []) ∷ []

abbrev pub register_calls : Control → List Call
register_calls c =
    call (codes "cr0 = %p\n") (c.cr0 ∷ [])
    ∷ call (codes "cr3 = %p\n") (c.cr3 ∷ [])
    ∷ call (codes "cr4 = %p\n") (c.cr4 ∷ [])
    ∷ []

-- `panic` prints this before it halts.
abbrev pub fatal_call : Call
fatal_call = call (codes "fatal exception !\n") []

module _ (name_at : ℕ → ℕ) (m : Memory) (kernel_start : ℕ) (c : Control) (x : Context) where
  -- What follows the event, by how the handler ends.
  pub handled_calls : Handled → Option (List Call)
  handled_calls (ignored_irq vector) = some (irq_call vector ∷ [])
  handled_calls ignored_nmi = some (name_call name_at (x.nr % 2 ^ 8) ∷ nmi_call ∷ [])
  handled_calls (fatal name d) =
      Option.map
        (λ trace.
          name_call name_at (x.nr % 2 ^ 8) ∷ details_calls d
          ++ (register_calls c ++ (trace ++ fatal_call ∷ [])))
        (stack_trace m kernel_start x.ebp)
  handled_calls out_of_range = none

  -- All calls in order; `none` is a read past the names, or a walk that has not ended.
  pub intr_calls : Option (List Call)
  intr_calls = Option.map (λ cs. event_call x ∷ cs) (handled_calls (intr_hdlr x.nr x.err c.cr2))
