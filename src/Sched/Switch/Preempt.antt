-- ===== src/Sched/Switch/Preempt.antt =====
-- A task of ring 3 that the clock interrupts, and its way back: `clock_interrupt_isr` around the
-- handler. The stub pushes nothing but the registers of `pusha`: its `leave` takes back what the
-- compiled prologue has pushed.
use secos_ng.Base.{
  ℕ, ◌+◌, ◌-◌, ◌%◌, ◌^◌, ◌≤◌, ◌<◌, ◌≡◌, ◌⊎◌, inl, inr, refl, ap, ◌∙◌, subst⁻¹, arith, [], Option,
  some,
}
use secos_ng.Memory.{Memory, IsBytes, load32}
use secos_ng.Cpu.Push.{words, load32-shift}
use secos_ng.Cpu.Interrupt.{
  Registers, AreWordsOf, HasRoom, frame_top, enter, enter-outside, enter-IsBytes, popa_iret,
  popa_iret-enter,
}
use secos_ng.Sched
use secos_ng.Sched.{Kernel, Context, Resume, restore, task_at, clock_interrupt_handler}
use secos_ng.Sched.Invariant.{IsValid, running, Runs, clock_interrupt_handler-Runs}
use secos_ng.Sched.Switch.{Globals, Machine, task_addr, clock_handler}
use secos_ng.Sched.Switch.Layout.{HasTask-same, LaidOut}
use secos_ng.Sched.Switch.Refine.{Matches, Agrees, clock_handler-refines}

-- `clock_interrupt_isr`, from the processor's entry on; it takes the stack from the TSS.
unfoldable pub clock_interrupt : Globals → Machine → Registers → Machine × Resume
clock_interrupt g s r =
    let entered = enter s.mem (load32 s.mem g.tss_esp0) r [] in
    clock_handler g entered.1 (record s { mem = entered.0 })

-- `popa ; sti ; iret`, or the `iret` to a new frame, at stack pointer `e`; `r` has the registers as
-- the handler leaves them.
unfoldable pub leave : (e ss : ℕ) → Registers → Resume → Option Registers
leave e ss r (restore ws) = popa_iret 0 e ss r ws
leave e ss r (Sched.enter ss' esp cs eip) =
    some (record r { ss = ss'; esp = esp; cs = cs; eip = eip })

-- Code of ring 3 at registers `r` with a stack of ring 0 at `esp0`, all apart from the globals.
pub record Interruptible (g : Globals) (esp0 : ℕ) (r : Registers) : Type 0 where
  pub ring : r.cs % 4 ≡ 3
  pub words : AreWordsOf r
  pub room : HasRoom esp0 r []
  pub layout : LaidOut g (esp0 - 52)

-- The scheduler's globals and registers are the same.
pub record Kept (g : Globals) (s s' : Machine) : Type 0 where
  pub bytes : IsBytes s'.mem
  pub current : load32 s'.mem g.current ≡ load32 s.mem g.current
  pub tss_esp0 : load32 s'.mem g.tss_esp0 ≡ load32 s.mem g.tss_esp0
  pub tasks : (x : ℕ) → g.tasks ≤ x → x < g.tasks + 160 → s'.mem x ≡ s.mem x
  pub registers : (s'.cr3 ≡ s.cr3) × ((s'.data_sel ≡ s.data_sel) × (s'.log ≡ s.log))

Kept-Matches :
    (g : Globals) (s s' : Machine) (k : Kernel)
    → g.tasks + 160 ≤ 2 ^ 32
    → Kept g s s'
    → Matches g s k
    → Matches g s' k
Kept-Matches g s s' k r h a = record {
  globals = record {
    current = h.current ∙ a.globals.current;
    esp0 = h.tss_esp0 ∙ a.globals.esp0;
    first =
        HasTask-same s.mem s'.mem (task_addr g 0) k.task0 (omega arith)
          (λ x p q. h.tasks x (omega arith) (omega arith)) a.globals.first;
    second =
        HasTask-same s.mem s'.mem (task_addr g 1) k.task1 (omega arith)
          (λ x p q. h.tasks x (omega arith) (omega arith)) a.globals.second;
  };
  bytes = h.bytes;
  cr3 = h.registers.0 ∙ a.cr3;
  data_sel = h.registers.1.0 ∙ a.data_sel;
  log = h.registers.1.1 ∙ a.log;
}

two_ticks-0 :
    (c c' : Context) (k : Kernel)
    → k.current_task_idx ≡ 0
    → (clock_interrupt_handler c' (clock_interrupt_handler c k).0).1 ≡ restore c
unfolding clock_interrupt_handler
two_ticks-0 c c' k e = ground arith

two_ticks-1 :
    (c c' : Context) (k : Kernel)
    → k.current_task_idx ≡ 1
    → (clock_interrupt_handler c' (clock_interrupt_handler c k).0).1 ≡ restore c
unfolding clock_interrupt_handler
two_ticks-1 c c' k e = ground arith

two_ticks :
    (i : ℕ) (c c' : Context) (k : Kernel)
    → Runs i k
    → (clock_interrupt_handler c' (clock_interrupt_handler c k).0).1 ≡ restore c
two_ticks i c c' k r = elim r.is_task [
  | inl e ↦ two_ticks-0 c c' k (r.index ∙ e)
  | inr e ↦ two_ticks-1 c c' k (r.index ∙ e)
]

module _ (g : Globals) (s : Machine) (r : Registers) (b : IsBytes s.mem)
    (h : Interruptible g (load32 s.mem g.tss_esp0) r) where
  abbrev top : ℕ
  top = load32 s.mem g.tss_esp0

  abbrev pub entered : Memory × ℕ
  entered = enter s.mem top r []

  -- The context's address; the context reaches eight bytes past the stack's top.
  entered-ctx : entered.1 ≡ top - 52
  unfolding enter
  entered-ctx = ground (arith, h.ring, h.room.below, h.room.above)

  entered-LaidOut : LaidOut g entered.1
  entered-LaidOut = subst⁻¹ (LaidOut g) entered-ctx h.layout

  entered-outside : (x : ℕ) → (x < top - 52) ⊎ (top ≤ x) → entered.0 x ≡ s.mem x
  entered-outside x o =
      let at : frame_top top r ≡ top = ground (arith, h.ring) in
      enter-outside s.mem top r [] h.room x (omega (arith, at, o))

  entered_word :
      (a : ℕ)
      → a + 4 ≤ 2 ^ 32
      → (a + 4 ≤ top - 52) ⊎ (top - 52 + 60 ≤ a)
      → load32 entered.0 a ≡ load32 s.mem a
  entered_word a r' o =
      load32-shift s.mem entered.0 a a r' r' (λ j l. entered-outside (a + j) (omega arith))

  entered-Kept : Kept g s (record s { mem = entered.0 })
  entered-Kept =
      let lay = h.layout in
      record {
        bytes = enter-IsBytes s.mem top r [] b;
        current = entered_word g.current (omega (arith, lay.current)) lay.current_ctx;
        tss_esp0 = entered_word g.tss_esp0 (omega (arith, lay.tss_esp0)) lay.tss_ctx;
        tasks = λ x p q. entered-outside x (omega (arith, lay.tasks_ctx));
        registers = (refl, (refl, refl));
      }

  pub clock_interrupt-Agrees :
      (k : Kernel)
      → IsValid k
      → Matches g s k
      → Agrees g (clock_interrupt g s r) (clock_interrupt_handler (words entered.0 entered.1 15) k)
  unfolding clock_interrupt
  clock_interrupt-Agrees k v a =
      clock_handler-refines g entered.1 entered-LaidOut (record s { mem = entered.0 }) k v
        (Kept-Matches g s (record s { mem = entered.0 }) k (omega (arith, h.layout.in_range))
          entered-Kept a)

  leave-entered :
      (e : ℕ) (gp : Registers) → leave e r.ss gp (restore (words entered.0 entered.1 15)) ≡ some r
  unfolding leave
  leave-entered e gp =
      popa_iret-enter s.mem top r [] gp e (words entered.0 entered.1 15) h.words (omega arith)
        h.room (ap (words entered.0 entered.1) (ground (arith, h.ring)))
        (λ z. absurd (ground (arith, h.ring, z)))

-- On a machine that matches a kernel in which task `i` runs, and whose memory, apart from the
-- globals, changes in any way between the two interrupts: if the clock interrupts the running task
-- in ring 3 at registers `r`, and then the other one, the second interrupt leads back to the first
-- task with all registers as they were.
pub preempted-resumed :
    (g : Globals) (i : ℕ) (k : Kernel) (s : Machine) (r : Registers)
    → Runs i k
    → Matches g s k
    → Interruptible g (load32 s.mem g.tss_esp0) r
    → (s' : Machine) (r' : Registers) → Kept g (clock_interrupt g s r).0 s'
    → Interruptible g (load32 s'.mem g.tss_esp0) r'
    → (e : ℕ) (gp : Registers) → leave e r.ss gp (clock_interrupt g s' r').1 ≡ some r
preempted-resumed g i k s r runs a h s' r' kept h' e gp =
    let c = words (entered g s r a.bytes h).0 (entered g s r a.bytes h).1 15 in
    let k' = (clock_interrupt_handler c k).0 in
    let first = clock_interrupt-Agrees g s r a.bytes h k (running i runs) a in
    let a' =
      Kept-Matches g (clock_interrupt g s r).0 s' k' (omega (arith, h.layout.in_range)) kept
        first.machine in
    let v' = running _ (clock_interrupt_handler-Runs c (running i runs)).0 in
    let second = clock_interrupt-Agrees g s' r' a'.bytes h' k' v' a' in
    ap (leave e r.ss gp) (second.resume ∙ two_ticks i c _ k runs)
    ∙ leave-entered g s r a.bytes h e gp
