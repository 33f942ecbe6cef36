-- ===== src/Trap/Stubs/Ending.antt =====
-- The whole interrupt: the processor's entry, the stub, `intr_hdlr` on the context, and the return.
use mathlib.Core.List.{reverse_aux}
use secos_ng.Base.{
  ℕ, ◌+◌, ◌-◌, ◌*◌, ◌%◌, ◌^◌, ◌≤◌, ◌<◌, ◌≡◌, ◌≢◌, ◌⊎◌, inl, inr, refl, ap, ap₂, ◌∙◌, sym, arith,
  Bool, true, false, ◌==◌, if◌then◌else◌, List, [], ◌∷◌, none, some, length, take, add32, sub32,
}
use secos_ng.Io.{Out}
use secos_ng.Memory.{Memory, load32}
use secos_ng.Cpu.Push.{push_all, words, take-words, words-push_all}
use secos_ng.Cpu.Interrupt.{
  Registers, AreWordsOf, HasRoom, frame, frame_top, iret, frame-AreWords32, length-frame,
}
use secos_ng.Trap.Dispatch.{Handled, intr_hdlr, fatal, returns, intr_hdlr-returns}
use secos_ng.Trap.Causes.{named, cause, intr_hdlr-named}
use secos_ng.Trap.Report
use secos_ng.Trap.Stubs.{no_error, has_error, HandlerCall, stub, idt_entry, resume_from_intr}
use secos_ng.Trap.Stubs.Context.{context_of, stub_words, context, idt_entry-context, acknowledged}

-- How an interrupt ends: the code at the registers goes on, or the handler never returns.
pub data Ending : Type 0 where
  resumed : List Out → Registers → Ending
  stopped : Handled → Ending
  bad_stack : Ending

-- The handler's return; `g` has the registers as the handler leaves them.
return_from : HandlerCall → (ss : ℕ) → Registers → Handled → Ending
return_from c ss g h =
    if returns h
    then elim (resume_from_intr c.ctx ss g (words c.mem c.ctx 15)) [
      | none ↦ bad_stack
      | some r ↦ resumed c.sent r
    ]
    else stopped h

handle : HandlerCall → (ss : ℕ) → Registers → (cr2 : ℕ) → Ending
handle c ss g cr2 = elim (context_of (words c.mem c.ctx 15)) [
  | none ↦ bad_stack
  | some ctx ↦ return_from c ss g (intr_hdlr ctx.nr ctx.err cr2)
]

-- The `iret` of the stubs that call no handler.
iret_at_once : Memory → (esp0 : ℕ) → Registers → Ending
iret_at_once m esp0 r =
    let top = frame_top esp0 r in
    let esp = sub32 top (4 * length (frame r)) in
    elim (iret esp r.ss r (words (push_all m top (frame r)) esp 5)) [
      | none ↦ bad_stack
      | some r' ↦ resumed [] r'
    ]

pub interrupt : Memory → (esp0 : ℕ) → (r g : Registers) → (v err cr2 : ℕ) → Ending
interrupt m esp0 r g v err cr2 = elim (idt_entry m esp0 r v err) [
  | none ↦ iret_at_once m esp0 r
  | some c ↦ handle c r.ss g cr2
]

iret-frame :
    (b : Bool) (r : Registers) (e c d : ℕ)
    → (r.cs % 4 == 0) ≡ b
    → (b ≡ true → r.esp ≡ add32 e 12)
    → iret e r.ss r (
        take 5 (
          reverse_aux
            (if b
              then r.eflags ∷ r.cs ∷ r.eip ∷ []
              else r.ss ∷ r.esp ∷ r.eflags ∷ r.cs ∷ r.eip ∷ [])
            (c ∷ d ∷ [])))
      ≡ some r
unfolding iret
iret-frame true r e c d h k = ground (arith, h, k refl)
iret-frame false r e c d h k = ground (arith, h)

words-frame :
    (m : Memory) (esp0 : ℕ) (r : Registers)
    → AreWordsOf r
    → HasRoom esp0 r []
    → words
        (push_all m (frame_top esp0 r) (frame r))
        (sub32 (frame_top esp0 r) (4 * length (frame r)))
        5
      ≡ take 5 (reverse_aux (frame r) (words m (frame_top esp0 r) 2))
words-frame m esp0 r w h =
    let n = length (frame r) + 2 in
    let top = frame_top esp0 r in
    let pushed = push_all m top (frame r) in
    let few = length-frame r in
    let count : n ≡ 5 + (n - 5) = omega arith in
    let low : sub32 top (4 * length (frame r)) ≡ top - 4 * length (frame r) =
      omega (arith, h.below, h.above) in
    ap (λ a. words pushed a 5) low
    ∙ sym (take-words 5 (n - 5) pushed (top - 4 * length (frame r)))
    ∙ ap (λ (j : ℕ). take 5 (words pushed (top - 4 * length (frame r)) j)) (sym count)
    ∙ ap (take 5) (
        words-push_all (frame r) m top 2 (omega (arith, h.aligned, h.above)) (frame-AreWords32 r w)
          (omega (arith, h.below)) (omega (arith, h.above)))

iret-at_once :
    (m : Memory) (esp0 : ℕ) (r : Registers)
    → AreWordsOf r
    → HasRoom esp0 r []
    → iret_at_once m esp0 r ≡ resumed [] r
unfolding iret_at_once words
iret-at_once m esp0 r w h =
    let top = frame_top esp0 r in
    let esp = sub32 top (4 * length (frame r)) in
    let back : iret esp r.ss r (words (push_all m top (frame r)) esp 5) ≡ some r =
      ap (iret esp r.ss r) (words-frame m esp0 r w h)
      ∙ iret-frame (r.cs % 4 == 0) r esp (load32 m top) (load32 m (add32 top 4)) refl
          (λ b. ground (arith, b, h.below, h.above)) in
    ground (arith, back)

-- The two exceptions with details have an error code.
cause_error :
    (v err cr2 : ℕ) → cause v (if has_error v then err else no_error) cr2 ≡ cause v err cr2
unfolding cause
cause_error v err cr2 = ground arith

above_exceptions : {v : ℕ} → (v ≡ 2) ⊎ (20 ≤ v) → (v ≡ 2) ⊎ (((20 ≤ v) × (v < 32)) ⊎ (32 ≤ v))
above_exceptions h = omega arith

module _ (m : Memory) (esp0 : ℕ) (r g : Registers) (v err cr2 : ℕ) where
  interrupt-entered :
      (c : HandlerCall) (x : Report.Context)
      → idt_entry m esp0 r v err ≡ some c
      → context_of (words c.mem c.ctx 15) ≡ some x
      → interrupt m esp0 r g v err cr2 ≡ return_from c r.ss g (intr_hdlr x.nr x.err cr2)
  unfolding interrupt handle
  interrupt-entered c x e k = ground (arith, e, k)

  resumes :
      (c : HandlerCall)
      → resume_from_intr c.ctx r.ss g (words c.mem c.ctx 15) ≡ some r
      → (h : Handled) → returns h ≡ true
      → return_from c r.ss g h ≡ resumed c.sent r
  unfolding return_from
  resumes c e h k = ground (arith, e, k)

  stops : (c : HandlerCall) (h : Handled) → returns h ≡ false → return_from c r.ss g h ≡ stopped h
  unfolding return_from
  stops c h k = ground (arith, k)

  pub entered :
      (v < 20) ⊎ (32 ≤ v)
      → v < 256
      → err < 2 ^ 32
      → AreWordsOf r
      → HasRoom esp0 r (stub_words v err)
      → let h = intr_hdlr v (if has_error v then err else no_error) cr2 in
        (returns h ≡ true → interrupt m esp0 r g v err cr2 ≡ resumed (acknowledged v) r)
        × (returns h ≡ false → interrupt m esp0 r g v err cr2 ≡ stopped h)
  entered s lv le w room =
      let (c, e, sent, x, back) = idt_entry-context m esp0 r v err g s lv le w room in
      let h = intr_hdlr v (if has_error v then err else no_error) cr2 in
      let at = interrupt-entered c (context m esp0 r v err) e x in
      (λ k. at ∙ resumes c back h k ∙ ap (λ o. resumed o r) sent, λ k. at ∙ stops c h k)

  skipped :
      20 ≤ v
      → v < 32
      → AreWordsOf r
      → HasRoom esp0 r (stub_words v err)
      → interrupt m esp0 r g v err cr2 ≡ resumed (acknowledged v) r
  unfolding interrupt idt_entry stub
  skipped low high w room =
      let h : HasRoom esp0 r [] = record {
        aligned = room.aligned;
        below = omega (arith, room.below);
        above = room.above;
      } in
      ground (arith, iret-at_once m esp0 r w h)

  -- With 32-bit registers and error code and an aligned stack with room, the interrupt of every
  -- vector of the table, from the processor's entry through the stub, `intr_hdlr` and the return,
  -- gives the interrupted code all its registers back, with the request acknowledged at the
  -- controllers that need it, if the vector is the NMI's or is not below 20; at the vectors 20 to 31
  -- no handler is called. At any other vector the kernel stops with the name that the processor's
  -- manual gives the exception and, at a page fault or protection fault, what the bits of its error
  -- code say. The handler never reads past the exceptions' names.
  pub interrupt-resumed :
      v < 256
      → err < 2 ^ 32
      → AreWordsOf r
      → HasRoom esp0 r (stub_words v err)
      → ((v ≡ 2) ⊎ (20 ≤ v) → interrupt m esp0 r g v err cr2 ≡ resumed (acknowledged v) r)
        × (v < 20
            → v ≢ 2
            → interrupt m esp0 r g v err cr2 ≡ stopped (fatal (named v) (cause v err cr2)))
  unfolding returns
  interrupt-resumed lv le w room =
      let e = if has_error v then err else no_error in
      let ends = intr_hdlr-returns v e cr2 in
      (
        λ s. elim (above_exceptions s) [
          | inl two ↦ (entered (omega arith) lv le w room).0 (ends.0.1 (omega arith))
          | inr (inl (low, high)) ↦ skipped low high w room
          | inr (inr high) ↦ (entered (omega arith) lv le w room).0 (ends.0.1 (omega arith))
        ],
        λ low n.
            let at = intr_hdlr-named v e cr2 (omega arith) (omega arith) in
            let small : v % 256 ≡ v = omega arith in
            (entered (inl low) lv le w room).1 (ap returns at)
            ∙ ap stopped (
                at
                ∙ ap₂ fatal (ap named small)
                    (ap (λ n. cause n e cr2) small ∙ cause_error v err cr2)),
      )
