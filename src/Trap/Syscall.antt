-- ===== src/Trap/Syscall.antt =====
-- The system calls of tp5/tp.c and tp_exam/tp.c: `syscall_isr`, which pushes nothing but the registers
-- of `pusha`, the two handlers, and `userland` of tp5/tp.c.
pub mod Returns
use secos_ng.Base.{
  ℕ, ◌+◌, ◌-◌, ◌*◌, ◌%◌, ◌^◌, leb, ◌==◌, ◌&&◌, if◌then◌else◌, List, [], ◌∷◌, Option, none, some,
  codes,
}
use secos_ng.Io.{Out, out}
use secos_ng.Memory.{Memory}
use secos_ng.Print.Calls.{Call}
use secos_ng.Cpu.Push.{push_all, words}
use secos_ng.Cpu.Interrupt.{Registers, enter, popa_iret}
use secos_ng.Trap.{Idtr}
use secos_ng.Trap.Table.{Gate, gate_at}
use secos_ng.Trap.Userland.{Entered}
use secos_ng.Trap.Ring3.{frame_words, enter_ring3}

-- `leave ; pusha`, the handler with the words of its context, `popa ; iret`; `h` has the registers as
-- the handler leaves them. The `leave` takes back what the compiled prologue has pushed.
unfoldable pub syscall_isr :
    {A : Type 0}
    → (Memory → List ℕ → A)
    → Memory
    → (esp0 : ℕ) → (r h : Registers) → A × Option Registers
syscall_isr handler m esp0 r h =
    let entered = enter m esp0 r [] in
    let ctx = words entered.0 entered.1 15 in
    (handler entered.0 ctx, popa_iret 0 entered.1 r.ss h ctx)

-- `syscall_handler` of tp5/tp.c.
unfoldable pub print_registers : Memory → List ℕ → List Call
print_registers m (edi ∷ esi ∷ ebp ∷ gpr_esp ∷ ebx ∷ edx ∷ ecx ∷ eax ∷ rest) =
    record { format = codes "SYSCALL eax = %p\n"; args = eax ∷ [] }
    ∷ record { format = codes "print syscall: %s"; args = esi ∷ [] }
    ∷ []
print_registers m ws = []

-- `syscall_handler` of tp_exam/tp.c: the message, and what it sends; `load` reads a word through the
-- directory that is loaded.
unfoldable pub print_counter : (load : ℕ → ℕ) → Memory → List ℕ → List Call × List Out
print_counter load m (edi ∷ esi ∷ ebp ∷ gpr_esp ∷ ebx ∷ edx ∷ ecx ∷ eax ∷ rest) =
    (record { format = codes "Counter value: %u\n"; args = load eax ∷ [] } ∷ [], out 0x80 0x80 ∷ [])
print_counter load m ws = ([], [])

-- `int` with a vector: the handler's address, if the gate is open to the ring of the code.
unfoldable pub int_vector : ℕ → Registers → Idtr → Option ℕ
int_vector v r idtr = elim (gate_at v idtr) [
  | none ↦ none
  | some g ↦ if leb (r.cs % 4) g.dpl then some g.handler else none
]

-- The string that `userland` asks for.
abbrev pub secret : ℕ
secret = 0x3048e0

-- `userland` of tp5/tp.c up to its loop, from the `iret` of `tp` on: `m` and `g` are the memory and
-- registers at the first `push`, `next` is the address behind `int $48`, `isr` that of `syscall_isr`.
-- What any other handler does is left open.
unfoldable pub userland :
    (esp isr next : ℕ)
    → Entered
    → Memory
    → (g h : Registers) → Option (List Call × Option Registers)
userland esp isr next e m g h = elim (enter_ring3 m esp g e.frame) [
  | none ↦ none
  | some r ↦
      let r' : Registers = record r { esi = secret; eip = next } in
      elim (int_vector 48 r' e.idtr) [
        | none ↦ none
        | some a ↦
            if a == isr
            then some (
                syscall_isr print_registers (push_all m esp (frame_words e.frame))
                  e.segments.tss_esp0 r' h)
            else none
      ]
]
