-- ===== src/Trap/Syscall/Returns.antt =====
-- A system call hands the caller's registers to the handler, and gives them back.
use mathlib.Core.List.{reverse_aux}
use secos_ng.Base.{
  ℕ, ◌+◌, ◌*◌, ◌%◌, ◌^◌, ◌≤◌, ◌<◌, ◌≡◌, refl, ap, ap₂, ◌∙◌, sym, arith, ◌==◌, if◌then◌else◌, List,
  [], ◌∷◌, ◌++◌, length, Option, none, some, add32, sub32, codes,
}
use secos_ng.Io.{out}
use secos_ng.Memory.{Memory, load32}
use secos_ng.Print.Calls.{Call}
use secos_ng.Cpu.Push.{push_all, words}
use secos_ng.Cpu.Interrupt.{
  Registers, AreWordsOf, HasRoom, frame, frame_top, pusha, enter, words-enter, popa_iret-enter,
}
use secos_ng.Segment.{c3_sel, d3_sel}
use secos_ng.Trap.{Idtr, intr_init}
use secos_ng.Trap.Table.{gate_at, kernel_gate}
use secos_ng.Trap.Userland
use secos_ng.Trap.Userland.{Frame, Entered, tp-userland}
use secos_ng.Trap.Ring3.{frame_words}
use secos_ng.Trap.Ring3.Stop.{enter_ring3_lem}
use secos_ng.Trap.Syscall.{
  syscall_isr, print_registers, print_counter, int_vector, secret, userland,
}

-- The words behind the handler's argument, for code of ring 3.
abbrev pub syscall_words : Memory → (esp0 : ℕ) → Registers → List ℕ
syscall_words m esp0 r =
    r.edi
    ∷ r.esi
    ∷ r.ebp
    ∷ sub32 esp0 20
    ∷ r.ebx
    ∷ r.edx
    ∷ r.ecx
    ∷ r.eax
    ∷ r.eip
    ∷ r.cs
    ∷ r.eflags
    ∷ r.esp
    ∷ r.ss
    ∷ load32 m esp0
    ∷ load32 m (add32 esp0 4)
    ∷ []

module _ (m : Memory) (esp0 : ℕ) (r : Registers) (ring : r.cs % 4 ≡ 3) (w : AreWordsOf r)
    (room : HasRoom esp0 r []) where
  frame3 : frame r ++ [] ≡ r.ss ∷ r.esp ∷ r.eflags ∷ r.cs ∷ r.eip ∷ []
  frame3 = ground (arith, ring)

  words-context : words (enter m esp0 r []).0 (enter m esp0 r []).1 15 ≡ syscall_words m esp0 r
  unfolding words
  words-context =
      let count : 8 + (length (frame r ++ []) + 2) ≡ 15 = ground (arith, ring) in
      let top : frame_top esp0 r ≡ esp0 = ground (arith, ring) in
      sym (ap (words (enter m esp0 r []).0 (enter m esp0 r []).1) count)
      ∙ words-enter m esp0 r [] w (omega arith) room
      ∙ ap₂
          (λ (fs : List ℕ) (t : ℕ).
            reverse_aux (pusha r (sub32 t (4 * length fs))) (reverse_aux fs (words m t 2)))
          frame3 top

  -- With 32-bit registers of ring 3 and an aligned stack of ring 0 with room, the handler gets the
  -- caller's registers in its context, and the caller goes on with all registers as they were.
  pub syscall_isr-resumes :
      {A : Type 0} (handler : Memory → List ℕ → A) (h : Registers)
      → syscall_isr handler m esp0 r h
        ≡ (handler (enter m esp0 r []).0 (syscall_words m esp0 r), some r)
  unfolding syscall_isr
  syscall_isr-resumes handler h =
      let e = enter m esp0 r [] in
      let count : 8 + (length (frame r ++ []) + 2) ≡ 15 = ground (arith, ring) in
      ap₂ (λ a o. (a, o)) (ap (handler e.0) words-context)
        (popa_iret-enter m esp0 r [] h e.1 (words e.0 e.1 15) w (omega arith) room
          (ap (words e.0 e.1) count) (λ z. refl))

  -- The call of tp_exam prints the word at the address in `eax`, read with the rights of ring 0, and
  -- gives the task its registers back.
  pub print_counter-resumes :
      (load : ℕ → ℕ) (h : Registers)
      → syscall_isr (print_counter load) m esp0 r h ≡ (
        (
          record { format = codes "Counter value: %u\n"; args = load r.eax ∷ [] } ∷ [],
          out 0x80 0x80 ∷ [],
        ),
        some r,
      )
  unfolding print_counter
  print_counter-resumes load h = syscall_isr-resumes (print_counter load) h

int_vector-open :
    (v a : ℕ) (r : Registers) (idtr : Idtr)
    → gate_at v idtr ≡ some (kernel_gate a 3)
    → int_vector v r idtr ≡ some a
unfolding int_vector
int_vector-open v a r idtr h = ground (arith, h)

if_self : {A : Type 0} (n : ℕ) (x y : A) → (if n == n then x else y) ≡ x
if_self n x y = ground arith

-- What `userland` has at the system call.
abbrev pub calling : Registers → (userland ebp eflags next : ℕ) → Registers
calling g userland ebp eflags next = record g {
  ss = d3_sel;
  esp = 0x800000;
  eflags = eflags;
  cs = c3_sel;
  eip = next;
  esi = secret;
}

-- With 32-bit addresses and registers and aligned stacks with room, `tp` of tp5 enters ring 3, where
-- `int $48` leads through its gate to the handler: the kernel prints `eax` and the string at 0x3048e0,
-- the address in `esi`, and the code goes on behind the call with all registers as they were.
pub userland-prints :
    (isr tss ul ebp eflags stub esp next : ℕ) (m : Memory) (g h : Registers)
    → isr < 2 ^ 32
    → tss < 2 ^ 32
    → stub < 2 ^ 32
    → ul < 2 ^ 32
    → eflags < 2 ^ 32
    → next < 2 ^ 32
    → AreWordsOf g
    → esp % 4 ≡ 0
    → 20 ≤ esp
    → esp < 2 ^ 32
    → ebp % 4 ≡ 0
    → 52 ≤ ebp
    → ebp + 8 < 2 ^ 32
    → userland esp isr next (Userland.tp isr tss ul ebp eflags (intr_init stub)) m g h
      ≡ some (
        record { format = codes "SYSCALL eax = %p\n"; args = g.eax ∷ [] }
            ∷ record { format = codes "print syscall: %s"; args = secret ∷ [] }
            ∷ [],
        some (calling g ul ebp eflags next),
      )
unfolding userland Userland.tp print_registers
userland-prints isr tss ul ebp eflags stub esp next m g h hi ht hs hu he hn w a low high b below
      above =
    let e = Userland.tp isr tss ul ebp eflags (intr_init stub) in
    let f : Frame = e.frame in
    let r = calling g ul ebp eflags next in
    let m' = push_all m esp (frame_words f) in
    let there = enter_ring3_lem m esp g f refl (omega arith) a low high in
    let opened =
      int_vector-open 48 isr r e.idtr
        (tp-userland isr tss ul ebp eflags stub 48 hi ht hs (omega arith)).6 in
    let words_of : AreWordsOf r = record {
      pointers = omega (arith, w.pointers);
      others = w.others;
      code = omega arith;
    } in
    let room : HasRoom ebp r [] = record { aligned = b; below = below; above = above } in
    let answer = syscall_isr-resumes m' ebp r refl words_of room print_registers h in
    let called = λ (r' : Registers) (o : Option ℕ).
      elim o as (λ _. Option (List Call × Option Registers)) [
        | none ↦ none
        | some x ↦ if x == isr then some (syscall_isr print_registers m' ebp r' h) else none
      ] in
    ap
      (λ (o : Option Registers). elim o as (λ _. Option (List Call × Option Registers)) [
        | none ↦ none
        | some q ↦
            let r' : Registers = record q { esi = secret; eip = next } in
            called r' (int_vector 48 r' e.idtr)
      ])
      there
    ∙ ap (called r) opened
    ∙ if_self isr (some (syscall_isr print_registers m' ebp r h)) none
    ∙ ap some answer
