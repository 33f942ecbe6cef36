-- ===== src/Trap/Causes.antt =====
-- The processor's exceptions, by its manual: the name of a vector, and what the bits of an error code
-- say. `exception_names` and the switch of `excp_hdlr` in kernel/core/excp.c are set against them.
use secos_ng.Base.{
  ℕ, ◌/◌, ◌%◌, ◌<◌, ◌≡◌, ◌≢◌, ap₂, ◌∙◌, sym, arith, ◌==◌, if◌then◌else◌, some, get_elem?,
}
use mathlib.Core.Option.{some-injective}
use secos_ng.Trap.Dispatch.{
  Name, divide_by_zero, debug, nmi_interrupt, breakpoint, overflow, bound_range_exceeded,
  invalid_opcode, device_not_available, double_fault_name, coprocessor_segment_overrun, invalid_tss,
  segment_not_present, stack_fault, general_protection, page_fault_name, intel_reserved,
  floating_point_error, alignment_check, machine_check, simd_floating_point, exception_names,
  Details, no_details, page_fault, protection, details, fatal, intr_hdlr, intr_hdlr_named,
}

-- The name of a vector below 20.
unfoldable pub named : ℕ → Name
named v =
    if v == 0
    then divide_by_zero
    else if v == 1
    then debug
    else if v == 2
    then nmi_interrupt
    else if v == 3
    then breakpoint
    else if v == 4
    then overflow
    else if v == 5
    then bound_range_exceeded
    else if v == 6
    then invalid_opcode
    else if v == 7
    then device_not_available
    else if v == 8
    then double_fault_name
    else if v == 9
    then coprocessor_segment_overrun
    else if v == 10
    then invalid_tss
    else if v == 11
    then segment_not_present
    else if v == 12
    then stack_fault
    else if v == 13
    then general_protection
    else if v == 14
    then page_fault_name
    else if v == 15
    then intel_reserved
    else if v == 16
    then floating_point_error
    else if v == 17
    then alignment_check
    else if v == 18
    then machine_check
    else simd_floating_point

-- A page fault's error code has whether the page was present, was written, was used by ring 3 and was
-- fetched from; that of a protection fault an external cause, the table and the selector's index.
unfoldable pub cause : (vector err cr2 : ℕ) → Details
cause vector err cr2 =
    if vector == 14
    then page_fault (err % 2) (err / 2 % 2) (err / 4 % 2) (err / 16 % 2) cr2
    else if vector == 13
    then protection (err % 2) (err / 2 % 2) (err / 4 % 2) (err / 8 % 8192)
    else no_details

pub details-cause : (vector err cr2 : ℕ) → details vector err cr2 ≡ cause vector err cr2
unfolding details cause
details-cause vector err cr2 = ground arith

exception_names-named : (v : ℕ) → v < 20 → get_elem? exception_names v ≡ some (named v)
unfolding exception_names named
exception_names-named v h = ground arith

pub intr_hdlr-named :
    (nr err cr2 : ℕ)
    → nr % 256 < 20
    → nr % 256 ≢ 2
    → intr_hdlr nr err cr2 ≡ fatal (named (nr % 256)) (cause (nr % 256) err cr2)
intr_hdlr-named nr err cr2 h n =
    let (name, at, ends) = intr_hdlr_named nr err cr2 h n in
    let same : name ≡ named (nr % 256) =
      some-injective name (named (nr % 256)) (sym at ∙ exception_names-named (nr % 256) h) in
    ends ∙ ap₂ fatal same (details-cause (nr % 256) err cr2)
