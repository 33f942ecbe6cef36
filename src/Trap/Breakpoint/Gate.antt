-- ===== src/Trap/Breakpoint/Gate.antt =====
-- `tp` of tp2/tp.c: the gate of the breakpoint, and the breakpoint in `bp_trigger`.
use mathlib.Core.Option.{map}
use secos_ng.Base.{
  ℕ, ◌+◌, ◌*◌, ◌/◌, ◌%◌, ◌^◌, ◌≤◌, ◌<◌, ◌≡◌, refl, ap, ◌∙◌, arith, ◌==◌, if◌then◌else◌, List, [],
  ◌∷◌, Bool, true, false, Option, none, some, codes,
}
use secos_ng.Bitfield.{get, put}
use secos_ng.Bitfield.Assign.{assign, get-assign}
use secos_ng.Memory.{Memory}
use secos_ng.Print.Calls.{Call}
use secos_ng.Cpu.Interrupt.{Registers, AreWordsOf}
use secos_ng.Segment.{gdt_krn_seg_sel}
use secos_ng.Trap.Gate.{
  int_desc_offset_1, int_desc_selector, int_desc_type, int_desc_dpl, int_desc_p, int_desc_offset_2,
}
use secos_ng.Trap.{Idtr, intr_init, update_at, build_int_desc}
use secos_ng.Trap.Table.{
  Gate, gate, gate_at, kernel_gate, get_elem?-fill_idt, get_elem?-update, gate-build_int_desc,
}
use secos_ng.Trap.Breakpoint.{bp_handler, bp_handler-resumes}

-- The two assignments to `bp_dsc`.
unfoldable pub set_offset : ℕ → ℕ → ℕ
set_offset isr dsc = put int_desc_offset_2 (isr / 2 ^ 16) (put int_desc_offset_1 isr dsc)

-- `isr` is the address of `bp_handler`.
unfoldable pub set_handler : (isr : ℕ) → Idtr → Idtr
set_handler isr idtr = record idtr { desc = update_at 3 (set_offset isr) idtr.desc }

gate-members :
    (y a cs kind dpl p : ℕ)
    → get int_desc_offset_1 y + get int_desc_offset_2 y * 2 ^ 16 ≡ a
    → get int_desc_selector y ≡ cs
    → get int_desc_type y ≡ kind
    → get int_desc_dpl y ≡ dpl
    → get int_desc_p y ≡ p
    → gate y ≡ record { handler = a; cs = cs; kind = kind; dpl = dpl; present = p }
unfolding gate
gate-members y a cs kind dpl p e1 e2 e3 e4 e5 = cc

gate-set_offset :
    (isr d : ℕ) → isr < 2 ^ 32 → gate (set_offset isr d) ≡ record (gate d) { handler = isr }
unfolding gate set_offset assign
gate-set_offset isr d h =
    let es = (int_desc_offset_1, isr) ∷ (int_desc_offset_2, isr / 2 ^ 16) ∷ [] in
    let low = get-assign es int_desc_offset_1 d (omega arith) in
    let high = get-assign es int_desc_offset_2 d (omega arith) in
    gate-members (set_offset isr d) isr _ _ _ _ (omega (arith, low, high))
      (get-assign es int_desc_selector d (omega arith))
      (get-assign es int_desc_type d (omega arith)) (get-assign es int_desc_dpl d (omega arith))
      (get-assign es int_desc_p d (omega arith))

gate_or :
    (v isr d : ℕ)
    → isr < 2 ^ 32
    → gate (if 3 == v then set_offset isr d else d)
      ≡ (if 3 == v then record (gate d) { handler = isr } else gate d)
gate_or v isr d h = ground (arith, gate-set_offset isr d h)

if-kernel_gate :
    (b : Bool) (x y : ℕ)
    → (if b then kernel_gate x 0 else kernel_gate y 0) ≡ kernel_gate (if b then x else y) 0
if-kernel_gate true x y = refl
if-kernel_gate false x y = refl

-- With 32-bit addresses, of the 256 gates of `intr_init` the one of the breakpoint leads to the
-- handler, and all keep their level and the rest of their stub's gate.
pub gate_at-set_handler :
    (isr stub v : ℕ)
    → isr < 2 ^ 32
    → stub < 2 ^ 32
    → v < 256
    → gate_at v (set_handler isr (intr_init stub))
      ≡ some (kernel_gate (if 3 == v then isr else (stub + 16 * v) % 2 ^ 32) 0)
unfolding set_handler intr_init
gate_at-set_handler isr stub v hi hs hv =
    let a = (stub + 16 * v) % 2 ^ 32 in
    let d = build_int_desc (gdt_krn_seg_sel 1) a in
    ap (map gate) (
      get_elem?-update 3 v (set_offset isr) d (intr_init stub).desc
        (get_elem?-fill_idt 256 stub v hv hs))
    ∙ ap some (gate_or v isr d hi)
    ∙ ap (λ (g : Gate). some (if 3 == v then record g { handler = isr } else g))
        (gate-build_int_desc a (omega arith))
    ∙ ap some (if-kernel_gate (3 == v) isr a)

-- `int3` in ring 0 at the registers `r`, which has the address behind it: the code at `isr`, the
-- address of `bp_handler`, runs if the gate leads there; what other handlers do is left open.
unfoldable pub breakpoint :
    (isr : ℕ) → Idtr → Memory → (r g : Registers) → (locals : ℕ) → Option (Call × Option Registers)
breakpoint isr idtr m r g locals = elim (gate_at 3 idtr) [
  | none ↦ none
  | some gt ↦ if gt.handler == isr then some (bp_handler m r g locals) else none
]

-- What follows the breakpoint.
unfoldable pub after_breakpoint :
    Call → Option (Call × Option Registers) → Option (List Call × Registers)
after_breakpoint first (some (call, some r)) =
    some (first ∷ call ∷ record { format = codes "after bp triggered\n"; args = [] } ∷ [], r)
after_breakpoint first o = none

-- `tp` with `bp_trigger`; `addr` is what `sidt` stores.
unfoldable pub tp :
    (addr isr : ℕ)
    → Idtr
    → Memory
    → (r g : Registers) → (locals : ℕ) → Option (List Call × Registers)
tp addr isr idtr m r g locals =
    after_breakpoint (record { format = codes "IDT @ 0x%x\n"; args = addr ∷ [] })
      (breakpoint isr (set_handler isr idtr) m r g locals)

breakpoint-set_handler :
    (isr stub : ℕ) (m : Memory) (r g : Registers) (locals : ℕ)
    → isr < 2 ^ 32
    → stub < 2 ^ 32
    → breakpoint isr (set_handler isr (intr_init stub)) m r g locals
      ≡ some (bp_handler m r g locals)
unfolding breakpoint
breakpoint-set_handler isr stub m r g locals hi hs =
    ap
      (λ (o : Option Gate). elim o as (λ _. Option (Call × Option Registers)) [
        | none ↦ none
        | some gt ↦ if gt.handler == isr then some (bp_handler m r g locals) else none
      ])
      (gate_at-set_handler isr stub 3 hi hs (omega arith))
    ∙ ground arith

-- On the table of `intr_init`, with 32-bit addresses and registers and an aligned stack with room,
-- `tp` comes to its end: the breakpoint leads through its gate to the handler, which prints the
-- address behind it, and the code goes on there with all registers as they were.
pub tp-resumes :
    (addr isr stub : ℕ) (m : Memory) (r g : Registers) (locals : ℕ)
    → isr < 2 ^ 32
    → stub < 2 ^ 32
    → r.cs % 4 ≡ 0
    → AreWordsOf r
    → g.ss ≡ r.ss
    → r.esp % 4 ≡ 0
    → locals % 4 ≡ 0
    → 48 + locals ≤ r.esp
    → r.esp + 8 < 2 ^ 32
    → tp addr isr (intr_init stub) m r g locals
      ≡ some (
        record { format = codes "IDT @ 0x%x\n"; args = addr ∷ [] }
            ∷ record { format = codes "EIP = %x\n"; args = r.eip ∷ [] }
            ∷ record { format = codes "after bp triggered\n"; args = [] }
            ∷ [],
        r,
      )
unfolding tp after_breakpoint
tp-resumes addr isr stub m r g locals hi hs z w s a b low high =
    let first : Call = record { format = codes "IDT @ 0x%x\n"; args = addr ∷ [] } in
    ap (after_breakpoint first) (
      breakpoint-set_handler isr stub m r g locals hi hs
      ∙ ap some (bp_handler-resumes m r g locals z w s a b low high))
