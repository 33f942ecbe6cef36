-- ===== src/Trap/Stubs.antt =====
-- kernel/core/idt.s: the stub of each vector, `idt_common` and `resume_from_intr`.
pub mod Context
pub mod Ending
pub mod Requests
pub mod Vectors
use secos_ng.Base.{
  ℕ, ◌+◌, ◌-◌, ◌*◌, ◌/◌, ◌%◌, ◌^◌, Bool, ◌&&◌, ◌||◌, ◌==◌, ltb, leb, if◌then◌else◌, List, [], ◌∷◌,
  ◌++◌, Option, none, some,
}
use secos_ng.Io.{Out, out}
use secos_ng.Memory.{Memory}
use secos_ng.Cpu.Interrupt.{Registers, enter, popa_iret}

-- What a stub pushes behind what the processor has pushed, and what it sends to the controllers.
pub record Stub : Type 0 where
  pub pushed : List ℕ
  pub sent : List Out

-- `pushl $-1`
abbrev pub no_error : ℕ
no_error = 2 ^ 32 - 1

-- `ack_pic1`, and `ack_pic2` before it; both restore the register that they use.
abbrev pub ack_pic1 : List Out
ack_pic1 = out 0x20 0x20 ∷ []

abbrev pub ack_pic2 : List Out
ack_pic2 = out 0x20 0xa0 ∷ ack_pic1

-- The exceptions for which the processor pushes an error code.
abbrev pub has_error : ℕ → Bool
has_error v = (v == 8) || ((leb 10 v && leb v 14) || (v == 17))

-- The stub at 16 bytes times the vector; `none` is an `iret` at once.
unfoldable pub stub : ℕ → Option Stub
stub v =
    if has_error v
    then some (record { pushed = v ∷ []; sent = [] })
    else if leb 20 v && leb v 31
    then none
    else some (record {
      pushed = no_error ∷ v ∷ [];
      sent =
          if leb 32 v && leb v 39 then ack_pic1 else if leb 40 v && leb v 47 then ack_pic2 else [];
    })

-- The call of `intr_hdlr`: the memory, the context's address and what has been sent.
pub record HandlerCall : Type 0 where
  pub mem : Memory
  pub ctx : ℕ
  pub sent : List Out

-- From the interrupt `v` on; `err` is the processor's error code, and `esp0` the stack of ring 0.
unfoldable pub idt_entry : Memory → (esp0 : ℕ) → Registers → (v err : ℕ) → Option HandlerCall
idt_entry m esp0 r v err = elim (stub v) [
  | none ↦ none
  | some s ↦
      let pushed = if has_error v then err ∷ s.pushed else s.pushed in
      let at = enter m esp0 r pushed in some (record { mem = at.0; ctx = at.1; sent = s.sent })
]

-- `popa`, `add $8, %esp` and `iret`, from the words at the stack pointer.
abbrev pub resume_from_intr : (ctx ss : ℕ) → Registers → List ℕ → Option Registers
resume_from_intr ctx ss r ws = popa_iret 2 ctx ss r ws
