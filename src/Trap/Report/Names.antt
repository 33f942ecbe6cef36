-- ===== src/Trap/Report/Names.antt =====
-- The strings of `exception_names` in kernel/core/excp.c, and what `excp_hdlr` prints of them.
use secos_ng.Base.{
  ℕ, ◌%◌, ◌^◌, ◌<◌, ◌≡◌, ◌≢◌, refl, ap, ◌∙◌, List, [], ◌∷◌, ◌++◌, some, get_elem?, codes, u32,
}
use secos_ng.Print.Calls.{output}
use secos_ng.Print.Format.{done}
use secos_ng.Trap.Dispatch.{
  Name, divide_by_zero, debug, nmi_interrupt, breakpoint, overflow, bound_range_exceeded,
  invalid_opcode, device_not_available, double_fault_name, coprocessor_segment_overrun, invalid_tss,
  segment_not_present, stack_fault, general_protection, page_fault_name, intel_reserved,
  floating_point_error, alignment_check, machine_check, simd_floating_point, exception_names, fatal,
  details, intr_hdlr, intr_hdlr_named,
}
use secos_ng.Trap.Report.{name_call}
use secos_ng.Trap.Report.Text.{name_pieces, output-name}
use secos_ng.Print.Pieces.{text_of}
use mathlib.Core.List.{append-nil}
use native.Mathlib.Nat.{mod-eq_of_lt}

unfoldable pub name_text : Name → List ℕ
name_text divide_by_zero = codes "Divide by zero"
name_text debug = codes "Debug"
name_text nmi_interrupt = codes "NMI interrupt"
name_text breakpoint = codes "Breakpoint"
name_text overflow = codes "Overflow"
name_text bound_range_exceeded = codes "BOUND range exceeded"
name_text invalid_opcode = codes "Invalid Opcode"
name_text device_not_available = codes "Device not available"
name_text double_fault_name = codes "Double fault"
name_text coprocessor_segment_overrun = codes "Coprocessor segment overrun"
name_text invalid_tss = codes "Invalid TSS"
name_text segment_not_present = codes "Segment not present"
name_text stack_fault = codes "Stack fault"
name_text general_protection = codes "General protection"
name_text page_fault_name = codes "Page fault"
name_text intel_reserved = codes "Intel Reserved"
name_text floating_point_error = codes "Floating point error"
name_text alignment_check = codes "Alignment check"
name_text machine_check = codes "Machine check"
name_text simd_floating_point = codes "SIMD floating point"

-- The pointers in the table are 32-bit addresses of its strings.
pub record AreNames (text : ℕ → List ℕ) (name_at : ℕ → ℕ) : Type 0 where
  pub pointers : (v : ℕ) → name_at v < 2 ^ 32
  pub strings :
      (v : ℕ) (name : Name)
      → get_elem? exception_names v ≡ some name
      → text (name_at v) ≡ name_text name

-- With these strings behind the pointers, every exception but the NMI stops the kernel under the
-- name that its vector has in the table, and that is the name that `excp_hdlr` prints.
pub intr_hdlr-name_text :
    (text : ℕ → List ℕ) (name_at : ℕ → ℕ) (nr err cr2 : ℕ)
    → AreNames text name_at
    → nr % 256 < 20
    → nr % 256 ≢ 2
    → (name : Name) × (intr_hdlr nr err cr2 ≡ fatal name (details (nr % 256) err cr2))
      × (output text (name_call name_at (nr % 256) ∷ [])
          ≡ done (codes "\nException: " ++ (name_text name ++ codes "\n")))
unfolding text_of output
intr_hdlr-name_text text name_at nr err cr2 names h n =
    let v = nr % 256 in
    let found = intr_hdlr_named nr err cr2 h n in
    let string : text (u32 (name_at v)) ≡ name_text found.0 =
      ap text (mod-eq_of_lt (names.pointers v)) ∙ names.strings v found.0 found.1 in
    (
      found.0,
      found.2,
      output-name text name_at v [] [] refl
          ∙ ap done (append-nil (text_of text (name_pieces (name_at v))))
          ∙ ap (λ (t : List ℕ). done (codes "\nException: " ++ (t ++ codes "\n"))) string,
    )
