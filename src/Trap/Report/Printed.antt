-- ===== src/Trap/Report/Printed.antt =====
-- What `intr_hdlr` has printed when it ends.
use mathlib.Core.Option
use secos_ng.Base.{
  ℕ, ◌%◌, ◌<◌, ◌≡◌, ◌≢◌, ◌≤◌, ◌⊎◌, inl, inr, ap, ◌∙◌, arith, List, [], ◌∷◌, ◌++◌, Option, none,
  some,
}
use secos_ng.Memory.{Memory}
use secos_ng.Print.Calls.{Call, output}
use secos_ng.Print.Format.{done}
use secos_ng.Print.Pieces.{format_of, args_of, text_of, output-call_of}
use secos_ng.Stack.Frames.{Frames, stack_trace-calls}
use secos_ng.Trap.Dispatch.{Details, Handled, fatal, intr_hdlr, Name, intr_hdlr_irq, intr_hdlr_nmi}
use secos_ng.Trap.Causes.{named, cause, intr_hdlr-named}
use secos_ng.Trap.Report.{
  Context, Control, event_call, name_call, details_calls, register_calls, fatal_call, handled_calls,
  intr_calls,
}
use mathlib.Core.Option.{some-injective}
use secos_ng.Trap.Report.Text.{
  event_pieces, output-details, output-tail, nmi_text, fatal_text, ending, output-irq, output-name,
  output-nmi,
}

is_nmi : (v : ℕ) → (v ≡ 2) ⊎ (v ≢ 2)
is_nmi v = ground arith

module _ (text : ℕ → List ℕ) (name_at : ℕ → ℕ) (m : Memory) (kernel_start : ℕ) (c : Control)
    (x : Context) where
  output-event :
      (cs : List Call) (t : List ℕ)
      → output text cs ≡ done t
      → output text (event_call x ∷ cs) ≡ done (text_of text (event_pieces x) ++ t)
  unfolding format_of args_of
  output-event cs t e = output-call_of text (event_pieces x) cs t (omega arith) e

  abbrev Prints : Handled → List ℕ → Type 0
  Prints h t = Option.map (output text) (handled_calls name_at m kernel_start c x h) ≡ some (done t)

  Prints-fatal :
      (name : Name) (d : Details) (eips : List ℕ)
      → Frames m kernel_start x.ebp eips
      → Prints (fatal name d) (fatal_text text (name_at (x.nr % 256)) d c eips)
  unfolding handled_calls fatal_text
  Prints-fatal name d eips fs =
      ap
        (λ o. Option.map (output text) (
          Option.map
            (λ trace.
              name_call name_at (x.nr % 256) ∷ details_calls d
              ++ (register_calls c ++ (trace ++ fatal_call ∷ [])))
            o))
        (stack_trace-calls m kernel_start x.ebp eips fs)
      ∙ ap some (
          output-name text name_at (x.nr % 256) _ _
            (output-details text d _ _ (output-tail text c eips)))

  Prints-ending :
      (eips : List ℕ)
      → (x.nr % 256 < 20) ⊎ (32 ≤ x.nr % 256)
      → Frames m kernel_start x.ebp eips
      → Prints (intr_hdlr x.nr x.err c.cr2) (ending text name_at c x eips)
  unfolding ending handled_calls nmi_text
  Prints-ending eips (inr irq) fs =
      ground (arith, intr_hdlr_irq x.nr x.err c.cr2 irq, output-irq text (x.nr % 256))
  Prints-ending eips (inl low) fs = elim (is_nmi (x.nr % 256)) [
    | inl nmi ↦
        let o = output-name text name_at (x.nr % 256) _ _ (output-nmi text) in
        ground (arith, intr_hdlr_nmi x.nr x.err c.cr2 nmi, o)
    | inr other ↦
        let f = intr_hdlr-named x.nr x.err c.cr2 low other in
        let p = Prints-fatal (named (x.nr % 256)) (cause (x.nr % 256) x.err c.cr2) eips fs in
        ground (arith, f, p)
  ]

  later_printed :
      (o : Option (List Call)) (t : List ℕ)
      → Option.map (output text) o ≡ some (done t)
      → Option.map (output text) (Option.map (λ cs. event_call x ∷ cs) o)
        ≡ some (done (text_of text (event_pieces x) ++ t))
  later_printed none t e = absurd (ground (arith, e))
  later_printed (some cs) t e =
      ap some (output-event cs t (some-injective (output text cs) (done t) e))

  -- For an exception that has a name or a vector that is none, on a stack whose frames lie one
  -- above the other, `intr_hdlr` comes to its end, and every call of it prints: the registers of
  -- the interrupted code; then for a device that it is ignored, and for the NMI its name and that
  -- it is ignored; for every other exception its name, the error code of a page fault or a
  -- protection fault, the control registers, the return address of every frame and the message of
  -- `panic`.
  pub intr_calls-report :
      (eips : List ℕ)
      → (x.nr % 256 < 20) ⊎ (32 ≤ x.nr % 256)
      → Frames m kernel_start x.ebp eips
      → Option.map (output text) (intr_calls name_at m kernel_start c x)
        ≡ some (done (text_of text (event_pieces x) ++ ending text name_at c x eips))
  unfolding intr_calls
  intr_calls-report eips v fs =
      later_printed (handled_calls name_at m kernel_start c x (intr_hdlr x.nr x.err c.cr2))
        (ending text name_at c x eips) (Prints-ending eips v fs)
