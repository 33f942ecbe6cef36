-- ===== src/Trap/Report/Text.antt =====
-- The text of each part of a report.
use mathlib.Core.List.{append_assoc, append-nil}
use secos_ng.Base.{
  ℕ, ◌%◌, ◌≡◌, ◌==◌, leb, if◌then◌else◌, sym, refl, ap, ◌∙◌, arith, List, [], ◌∷◌, ◌++◌, codes, map,
}
use secos_ng.Print.Calls.{Call, output}
use secos_ng.Print.Format.{done}
use secos_ng.Print.Format.Spec.{render, parse, read, show}
use secos_ng.Print.Pieces.{
  Piece, IsPlain, words, dec, hexa, ptr, str, format_of, args_of, text_of, call_of, output-call_of,
}
use secos_ng.Stack.{heading_call, frame_call}
use secos_ng.Stack.Frames.{heading, lines, line}
use secos_ng.Trap.Dispatch.{Details, no_details, page_fault, protection}
use secos_ng.Trap.Causes.{cause}
use secos_ng.Trap.Report.{
  Context, Control, call, event_call, irq_call, nmi_call, name_call, details_calls, register_calls,
  fatal_call,
}

abbrev hex_line : List ℕ → ℕ → List Piece
hex_line label w = words label ∷ hexa w ∷ []

abbrev pub event_pieces : Context → List Piece
event_pieces x =
    words (codes "\nIDT event\n . int    #") ∷ dec x.nr ∷ hex_line (codes "\n . error  0x") x.err
    ++ (hex_line (codes "\n . cs:eip 0x") x.cs
        ++ (hex_line (codes ":0x") x.eip
            ++ (hex_line (codes "\n . ss:esp 0x") x.ss
                ++ (hex_line (codes ":0x") x.esp
                    ++ (hex_line (codes "\n . eflags 0x") x.eflags
                        ++ (hex_line (codes "\n\n- GPR\neax     : 0x") x.eax
                            ++ (hex_line (codes "\necx     : 0x") x.ecx
                                ++ (hex_line (codes "\nedx     : 0x") x.edx
                                    ++ (hex_line (codes "\nebx     : 0x") x.ebx
                                        ++ (hex_line (codes "\nesp     : 0x") x.gpr_esp
                                            ++ (hex_line (codes "\nebp     : 0x") x.ebp
                                                ++ (hex_line (codes "\nesi     : 0x") x.esi
                                                    ++ (hex_line (codes "\nedi     : 0x") x.edi
                                                        ++ words (codes "\n") ∷ [])))))))))))))

event_call-pieces : (x : Context) → event_call x ≡ call_of (event_pieces x)
unfolding format_of args_of
event_call-pieces x = refl

-- The text of the details, and of the control registers.
unfoldable pub details_pieces : Details → List Piece
details_pieces no_details = []
details_pieces (page_fault p wr us id addr) =
    words (codes "#PF details: p:")
    ∷ dec p
    ∷ words (codes " wr:")
    ∷ dec wr
    ∷ words (codes " us:")
    ∷ dec us
    ∷ words (codes " id:")
    ∷ dec id
    ∷ words (codes " addr 0x")
    ∷ hexa addr
    ∷ words (codes "\n")
    ∷ []
details_pieces (protection ext idt ti index) =
    words (codes "#GP details: ext:")
    ∷ dec ext
    ∷ words (codes " idt:")
    ∷ dec idt
    ∷ words (codes " ti:")
    ∷ dec ti
    ∷ words (codes " index:")
    ∷ dec index
    ∷ words (codes "\n")
    ∷ []

abbrev register_pieces : List ℕ → ℕ → List Piece
register_pieces label w = words label ∷ ptr w ∷ words (codes "\n") ∷ []

abbrev pub name_pieces : ℕ → List Piece
name_pieces p = words (codes "\nException: ") ∷ str p ∷ words (codes "\n") ∷ []

module _ (text : ℕ → List ℕ) where
  pub output-details :
      (d : Details) (cs : List Call) (t : List ℕ)
      → output text cs ≡ done t
      → output text (details_calls d ++ cs) ≡ done (text_of text (details_pieces d) ++ t)
  unfolding details_calls details_pieces format_of args_of text_of
  output-details no_details cs t e = e
  output-details (page_fault p wr us id addr) cs t e =
      output-call_of text (details_pieces (page_fault p wr us id addr)) cs t (omega arith) e
  output-details (protection ext idt ti index) cs t e =
      output-call_of text (details_pieces (protection ext idt ti index)) cs t (omega arith) e

  output-register :
      (label : List ℕ) (w : ℕ) (cs : List Call) (t : List ℕ)
      → IsPlain label
      → output text cs ≡ done t
      → output text (call (label ++ codes "%p\n") (w ∷ []) ∷ cs)
        ≡ done (text_of text (register_pieces label w) ++ t)
  unfolding format_of args_of
  output-register label w cs t h e =
      output-call_of text (register_pieces label w) cs t (h, omega arith) e

  output-frames-then :
      (eips : List ℕ) (cs : List Call) (t : List ℕ)
      → output text cs ≡ done t
      → output text (map frame_call eips ++ cs) ≡ done (lines eips ++ t)
  unfolding lines line format_of args_of text_of
  output-frames-then [] cs t e = e
  output-frames-then (eip ∷ eips) cs t e =
      output-call_of text (ptr eip ∷ words (codes "\n") ∷ []) (map frame_call eips ++ cs)
        (lines eips ++ t) (omega arith) (output-frames-then eips cs t e)
      ∙ ap done (sym (append_assoc (line eip) (lines eips) t))

  -- The registers, the stack trace and the last message.
  abbrev tail_text : Control → List ℕ → List ℕ
  tail_text c eips =
      text_of text (register_pieces (codes "cr0 = ") c.cr0)
      ++ (text_of text (register_pieces (codes "cr3 = ") c.cr3)
          ++ (text_of text (register_pieces (codes "cr4 = ") c.cr4)
              ++ (heading ++ (lines eips ++ codes "fatal exception !\n"))))

  output-fatal : output text (fatal_call ∷ []) ≡ done (codes "fatal exception !\n")
  unfolding output render parse read show
  output-fatal = refl

  pub output-tail :
      (c : Control) (eips : List ℕ)
      → output text (register_calls c ++ ((heading_call ∷ map frame_call eips) ++ fatal_call ∷ []))
        ≡ done (tail_text c eips)
  unfolding format_of args_of text_of
  output-tail c eips = output-register (codes "cr0 = ") c.cr0 _ _ (omega arith) (
      output-register (codes "cr3 = ") c.cr3 _ _ (omega arith) (
        output-register (codes "cr4 = ") c.cr4 _ _ (omega arith) (
          output-call_of text (words heading ∷ []) (map frame_call eips ++ fatal_call ∷ []) _
            (omega arith) (output-frames-then eips (fatal_call ∷ []) _ output-fatal))))

  unfoldable pub irq_text : ℕ → List ℕ
  irq_text vector =
      text_of text (words (codes "ignore IRQ ") ∷ dec vector ∷ words (codes "\n") ∷ [])

  unfoldable pub nmi_text : (name : ℕ) → List ℕ
  nmi_text name = text_of text (name_pieces name) ++ codes "#NMI (ignored)\n"

  unfoldable pub fatal_text : (name : ℕ) → Details → Control → List ℕ → List ℕ
  fatal_text name d c eips =
      text_of text (name_pieces name) ++ (text_of text (details_pieces d) ++ tail_text c eips)

  -- What a report says after the event, by the vector.
  unfoldable pub ending : (name_at : ℕ → ℕ) → Control → Context → List ℕ → List ℕ
  ending name_at c x eips =
      let vector = x.nr % 256 in
      if leb 32 vector
      then irq_text vector
      else if vector == 2
      then nmi_text (name_at vector)
      else fatal_text (name_at vector) (cause vector x.err c.cr2) c eips

  pub output-irq : (v : ℕ) → output text (irq_call v ∷ []) ≡ done (irq_text v)
  unfolding irq_text format_of args_of text_of output
  output-irq v =
      output-call_of text (words (codes "ignore IRQ ") ∷ dec v ∷ words (codes "\n") ∷ []) [] []
        (omega arith) refl
      ∙ ap done (
          append-nil (text_of text (words (codes "ignore IRQ ") ∷ dec v ∷ words (codes "\n") ∷ [])))

  pub output-name :
      (name_at : ℕ → ℕ) (v : ℕ) (cs : List Call) (t : List ℕ)
      → output text cs ≡ done t
      → output text (name_call name_at v ∷ cs) ≡ done (text_of text (name_pieces (name_at v)) ++ t)
  unfolding format_of args_of
  output-name name_at v cs t e = output-call_of text (name_pieces (name_at v)) cs t (omega arith) e

  pub output-nmi : output text (nmi_call ∷ []) ≡ done (codes "#NMI (ignored)\n")
  unfolding output render parse read show
  output-nmi = refl
