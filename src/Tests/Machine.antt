-- ===== src/Tests/Machine.antt =====
-- The stack trace, the panic, the header's views and masks, and the exercises at concrete inputs.
use mathlib.Core.Option
use secos_ng.Base.{
  ℕ, ◌+◌, ◌*◌, ◌≤◌, ◌==◌, ◌≡◌, ◌||◌, inl, inr, refl, arith, List, [], ◌∷◌, ◌++◌, some, none, codes,
  replicate, if◌then◌else◌,
}
use secos_ng.Memory.{Memory, load32}
use secos_ng.Uart.{can_send}
use secos_ng.Uart.Transfer.{ready}
use secos_ng.Print.Format.{done, arg32, sign_extend}
use secos_ng.Print.Format.Spec.{render, parse, read, show, directive, bits_of, take_signed}
use secos_ng.Print.Digits.Laws.{signed_text}
use secos_ng.Print.Digits.Numeral.{numeral}
use secos_ng.Print.Calls.{output}
use secos_ng.Print.Panic.{halted, panic, printf}
use secos_ng.Print.Panic.Halts.{last_words, message, panic-halted, printf-unsupported}
use secos_ng.Stack.{stack_trace}
use secos_ng.Stack.Frames.{Frames, bottom, frame, heading, lines, stack_trace-Frames}
use secos_ng.Segment.Dump.{print_gdt_content}
use secos_ng.Segment.Dump.Rows.{rows, print_gdt_content-rows}
use secos_ng.Print.Pieces.{text_of}
use secos_ng.Trap.Dispatch.{page_fault}
use secos_ng.Trap.Causes.{cause}
use secos_ng.Trap.Report.{Context, Control, intr_calls}
use secos_ng.Trap.Report.Text.{event_pieces, fatal_text, ending}
use secos_ng.Trap.Report.Printed.{intr_calls-report}
use secos_ng.Paging.Walk.{translate}
use secos_ng.Paging.SelfMap.{pgd, tp}
use secos_ng.Paging.SelfMap.Cut.{space, tp-space}

abbrev clear : Memory
clear x = 0

abbrev no_text : ℕ → List ℕ
no_text p = []

abbrev polls : List ℕ
polls = replicate 30 32

polls-ready : 27 ≤ ready polls
unfolding ready can_send
polls-ready = omega arith

panic-halted_example :
    panic no_text 0x309000 polls polls (codes "%d") (7 ∷ []) clear ≡ halted (last_words (b'7' ∷ []))
unfolding render parse read show directive bits_of take_signed arg32 sign_extend signed_text numeral
panic-halted_example =
    panic-halted no_text 0x309000 polls polls (codes "%d") (7 ∷ []) [] (b'7' ∷ []) clear refl
      (omega arith) (omega (arith, polls-ready)) (omega (arith, polls-ready))

printf-unsupported_example :
    (printf no_text 0x309000 polls polls (codes "a%q") (7 ∷ []) clear
      ≡ halted (last_words (message b'q')))
    × (panic no_text 0x309000 polls polls (codes "a%q") (7 ∷ []) clear
        ≡ halted (last_words (message b'q')))
unfolding render parse read show directive
printf-unsupported_example =
    printf-unsupported no_text 0x309000 polls polls (codes "a%q") (7 ∷ []) b'q' clear refl
      (omega arith) polls-ready (omega (arith, polls-ready))

-- Two frames; the outer one ends the chain.
abbrev stack : Memory
stack x =
    if x == 0x2001 then 0x21 else if x == 0x2004 then 0x66 else if x == 0x2104 then 0x77 else 0

two-Frames : Frames stack 0x300000 0x2000 (0x66 ∷ 0x77 ∷ [])
unfolding load32
two-Frames =
    frame 0x2000 0x2100 0x66 (omega arith) (omega arith) refl refl (inr (omega arith))
      (frame 0x2100 0 0x77 (omega arith) (omega arith) refl refl (inl refl) (bottom 0 (inl refl)))

stack_trace-Frames_example :
    Option.map (output no_text) (stack_trace stack 0x300000 0x2000)
    ≡ some (done (heading ++ lines (0x66 ∷ 0x77 ∷ [])))
stack_trace-Frames_example =
    stack_trace-Frames no_text stack 0x300000 0x2000 (0x66 ∷ 0x77 ∷ []) two-Frames

tp-space_example : (m' : Memory) × (tp clear ≡ some m') × (translate m' pgd 0x302010 ≡ none)
unfolding space
tp-space_example = tp-space clear 0x302010 (omega arith)

-- The null descriptor and the code segment that GRUB leaves.
abbrev grub : Memory
grub x =
    if x == 0x8008 || x == 0x8009
    then 0xff
    else if x == 0x800d
    then 0x9b
    else if x == 0x800e
    then 0xcf
    else 0

print_gdt_content_example :
    print_gdt_content grub 0x8000 15 ≡ some (rows 0 (0 ∷ 0xcf9b000000ffff ∷ []))
unfolding load32
print_gdt_content_example =
    print_gdt_content-rows grub 0x8000 15 (0 ∷ 0xcf9b000000ffff ∷ []) (refl, (refl, tt))
      (omega arith) refl (omega arith)

abbrev interrupted : Context
interrupted = record {
  edi = 0;
  esi = 0;
  ebp = 0x2000;
  gpr_esp = 0x1fe0;
  ebx = 0;
  edx = 0;
  ecx = 0;
  eax = 0x601004;
  nr = 14;
  err = 2;
  eip = 0x304206;
  cs = 8;
  eflags = 2;
  esp = 0;
  ss = 0;
}

abbrev registers : Control
registers = record { cr0 = 0x80000011; cr2 = 0x601004; cr3 = 0x600000; cr4 = 0 }

abbrev name_at : ℕ → ℕ
name_at v = 0x307000 + 32 * v

intr_calls-report_example :
    Option.map (output no_text) (intr_calls name_at stack 0x300000 registers interrupted)
    ≡ some (
        done (
          text_of no_text (event_pieces interrupted)
          ++ fatal_text no_text
              (name_at 14)
              (page_fault 0 1 0 0 0x601004)
              registers
              (0x66 ∷ 0x77 ∷ [])))
unfolding ending cause
intr_calls-report_example =
    intr_calls-report no_text name_at stack 0x300000 registers interrupted (0x66 ∷ 0x77 ∷ [])
      (inl (omega arith)) two-Frames
