-- ===== src/Trap/Breakpoint.antt =====
-- `bp_handler` of tp2/tp.c, which a gate enters without a stub: the compiled prologue pushes the
-- frame pointer, the body saves the registers with `pusha`, and `leave` and `iret` lead back. What the
-- body stores in its local variable and below the stack pointer is left out: it touches none of the
-- words that are read. Breakpoint/Gate has `tp`, which leads the gate of the breakpoint to it.
pub mod Gate
use mathlib.Core.List.{reverse_aux}
use secos_ng.Base.{
  ℕ, ◌+◌, ◌-◌, ◌*◌, ◌%◌, ◌^◌, ◌≤◌, ◌<◌, ◌≡◌, ap, ap₂, ◌∙◌, arith, List, [], ◌∷◌, ◌++◌, Option, none,
  some, length, drop, add32, sub32, codes,
}
use secos_ng.Memory.{Memory, load32}
use secos_ng.Print.Calls.{Call}
use secos_ng.Cpu.Push.{push_all, push_all-outside, words, words-shift, words-push_all}
use secos_ng.Cpu.Interrupt.{Registers, AreWordsOf, frame, pusha, iret}

-- The frame pointer, after an interrupt of ring 0 and the prologue.
abbrev pub frame_pointer : Registers → ℕ
frame_pointer r = sub32 r.esp (4 * length (frame r ++ r.ebp ∷ []))

-- The memory after the prologue and `pusha`; `locals` is the room for the local variables.
unfoldable pub bp_entry : Memory → Registers → (locals : ℕ) → Memory
bp_entry m r locals =
    let bp = frame_pointer r in
    let e = sub32 bp locals in
    push_all (push_all m r.esp (frame r ++ r.ebp ∷ [])) e (pusha (record r { ebp = bp }) e)

-- `leave; iret` from the frame pointer that `popa` has loaded.
unfoldable pub leave_iret : Memory → Registers → Option Registers
leave_iret m r =
    iret (add32 r.ebp 4) r.ss (record r { ebp = load32 m r.ebp }) (words m (add32 r.ebp 4) 5)

-- `popa`, with the words that it takes.
unfoldable pub popa : Registers → List ℕ → Option Registers
popa r (edi ∷ esi ∷ ebp ∷ gpr_esp ∷ ebx ∷ edx ∷ ecx ∷ eax ∷ rest) =
    some (record r { edi = edi; esi = esi; ebp = ebp; ebx = ebx; edx = edx; ecx = ecx; eax = eax })
popa r ws = none

-- What is printed, and the registers of the code that goes on; `g` has the registers at `popa`.
unfoldable pub bp_handler : Memory → (r g : Registers) → (locals : ℕ) → Call × Option Registers
bp_handler m r g locals =
    let bp = frame_pointer r in
    let m' = bp_entry m r locals in
    (
      record { format = codes "EIP = %x\n"; args = load32 m' (add32 bp 4) ∷ [] },
      elim (popa g (words m' (sub32 (sub32 bp locals) 32) 8)) [
        | none ↦ none
        | some g' ↦ leave_iret m' g'
      ],
    )

first : List ℕ → ℕ
first [] = 0
first (x ∷ xs) = x

module _ (m : Memory) (r g : Registers) (locals : ℕ) where
  abbrev bp : ℕ
  bp = r.esp - 16

  bp_words :
      r.cs % 4 ≡ 0
      → AreWordsOf r
      → r.esp % 4 ≡ 0
      → locals % 4 ≡ 0
      → 48 + locals ≤ r.esp
      → r.esp + 8 < 2 ^ 32
      → (words (bp_entry m r locals) (bp - locals - 32) 8
          ≡ reverse_aux (pusha (record r { ebp = bp }) (bp - locals)) [])
        × (words (bp_entry m r locals) bp 6
            ≡ r.ebp ∷ r.eip ∷ r.cs ∷ r.eflags ∷ load32 m r.esp ∷ load32 m (add32 r.esp 4) ∷ [])
  unfolding bp_entry words
  bp_words z w a b low high =
      let hw = r.eflags ∷ r.cs ∷ r.eip ∷ r.ebp ∷ [] in
      let pushed : frame r ++ r.ebp ∷ [] ≡ hw = ground (arith, z) in
      let m1 = push_all m r.esp hw in
      let e = bp - locals in
      let at : frame_pointer r ≡ bp = ap (λ vs. sub32 r.esp (4 * length vs)) pushed ∙ omega arith in
      let below : sub32 (frame_pointer r) locals ≡ e =
        ap (λ (a : ℕ). sub32 a locals) at ∙ omega arith in
      let ps = pusha (record r { ebp = bp }) e in
      let entry : bp_entry m r locals ≡ push_all m1 e ps =
        ap₂
          (λ vs (a : ℕ).
            push_all (push_all m r.esp vs) a (pusha (record r { ebp = frame_pointer r }) a))
          pushed below
        ∙ ap (λ (a : ℕ). push_all m1 e (pusha (record r { ebp = a }) e)) at in
      (
        ap (λ (m' : Memory). words m' (e - 32) 8) entry
            ∙ words-push_all ps m1 e 0 (omega arith) (omega (arith, w.pointers, w.others))
                (omega arith) (omega arith),
        ap (λ (m' : Memory). words m' bp 6) entry
            ∙ words-shift 6 m1 (push_all m1 e ps) bp bp (omega arith) (omega arith)
                (λ j l. push_all-outside ps m1 e (bp + j) (omega arith) (omega arith) (omega arith))
            ∙ words-push_all hw m r.esp 2 (omega arith) (omega (arith, w.pointers, w.code))
                (omega arith) (omega arith),
      )

  -- Within ring 0, with 32-bit registers on an aligned stack with room, the handler prints the address
  -- of the instruction behind the breakpoint, and the interrupted code goes on with all registers as
  -- they were, whatever room the compiler has taken for locals and whatever the registers have become.
  pub bp_handler-resumes :
      r.cs % 4 ≡ 0
      → AreWordsOf r
      → g.ss ≡ r.ss
      → r.esp % 4 ≡ 0
      → locals % 4 ≡ 0
      → 48 + locals ≤ r.esp
      → r.esp + 8 < 2 ^ 32
      → bp_handler m r g locals
        ≡ (record { format = codes "EIP = %x\n"; args = r.eip ∷ [] }, some r)
  unfolding bp_handler popa leave_iret iret words first
  bp_handler-resumes z w s a b low high =
      let (lower, upper) = bp_words z w a b low high in
      let m' = bp_entry m r locals in
      let at : frame_pointer r ≡ bp = ground (arith, z) in
      let below : sub32 (sub32 (frame_pointer r) locals) 32 ≡ bp - locals - 32 =
        ap (λ (x : ℕ). sub32 (sub32 x locals) 32) at ∙ omega arith in
      let popped : Registers = record g {
        edi = r.edi;
        esi = r.esi;
        ebp = bp;
        ebx = r.ebx;
        edx = r.edx;
        ecx = r.ecx;
        eax = r.eax;
      } in
      let taken : popa g (words m' (sub32 (sub32 (frame_pointer r) locals) 32) 8) ≡ some popped =
        ap (λ (x : ℕ). popa g (words m' x 8)) below ∙ ap (popa g) lower in
      let back : leave_iret m' popped ≡ some r =
        ap₂ (λ (x : ℕ) (ws : List ℕ). iret (add32 bp 4) g.ss (record popped { ebp = x }) ws)
          (ap first upper) (ap (drop 1) upper)
        ∙ ground (arith, z, s) in
      ap₂
        (λ (x : ℕ) (o : Option Registers). (
          record { format = codes "EIP = %x\n"; args = x ∷ [] },
          elim o as (λ _. Option Registers) [ none ↦ none | some g' ↦ leave_iret m' g' ],
        ))
        (ap (λ (x : ℕ). load32 m' (add32 x 4)) at ∙ ap (λ ws. first (drop 1 ws)) upper) taken
      ∙ ap (λ o. (record { format = codes "EIP = %x\n"; args = r.eip ∷ [] }, o)) back
