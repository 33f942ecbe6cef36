-- ===== src/Tests/Switch.antt =====
-- Interrupts with their stacks and registers at concrete inputs.
use secos_ng.Base.{
  ℕ, ◌-◌, ◌%◌, ◌≤◌, ◌<◌, ◌==◌, ◌≡◌, ◌≢◌, ◌||◌, ◌⊎◌, inl, refl, subst⁻¹, arith, replicate,
  if◌then◌else◌, some, [],
}
use secos_ng.Memory.{Memory, load32}
use secos_ng.Cpu.Push.{words}
use secos_ng.Cpu.Interrupt.{Registers, AreWordsOf, HasRoom}
use secos_ng.Sched.{Kernel, Task, clock_interrupt_handler}
use secos_ng.Sched.Invariant.{Runs, running}
use secos_ng.Sched.Switch.{Globals, Machine, clock_handler}
use secos_ng.Sched.Switch.Layout.{LaidOut}
use secos_ng.Sched.Switch.Refine.{Matches, Agrees, clock_handler-refines}
use secos_ng.Sched.Switch.Preempt.{
  Interruptible, Kept, clock_interrupt, leave, entered, clock_interrupt-Agrees, preempted-resumed,
}
use secos_ng.Trap.Dispatch.{fatal}
use secos_ng.Trap.Causes.{named, cause}
use secos_ng.Trap.Stubs.{HandlerCall, idt_entry, resume_from_intr}
use secos_ng.Trap.Stubs.Context.{context_of, stub_words, acknowledged, context, idt_entry-context}
use secos_ng.Trap.Stubs.Ending.{interrupt, resumed, stopped, interrupt-resumed}

abbrev globals : Globals
globals = record { current = 0x304000; tss_esp0 = 0x304104; tasks = 0x304200 }

-- The first task runs; both have their kernel stacks, and no context has been saved.
abbrev started : Memory
started x =
    if (x == 0x304105) || ((x == 0x304209) || (x == 0x304259))
    then 0x10
    else if (x == 0x304106) || (x == 0x30420a)
    then 0x38
    else if x == 0x30425a
    then 0x39
    else 0

abbrev new_task : ℕ → Task
new_task stack = record {
  function = 0;
  stack = 0;
  interrupt_stack = stack;
  pgd = 0;
  context = replicate 15 0;
  context_saved = 0;
}

abbrev kernel : Kernel
kernel = record {
  current_task_idx = 0;
  task0 = new_task 0x381000;
  task1 = new_task 0x391000;
  esp0 = 0x381000;
  cr3 = 0;
  data_sel = 0;
  log = [];
}

abbrev machine : Machine
machine = record { mem = started; cr3 = 0; data_sel = 0; log = [] }

machine-Matches : Matches globals machine kernel
unfolding load32 words
machine-Matches = record {
  globals = record {
    current = refl;
    esp0 = refl;
    first = record {
      function = refl;
      stack = refl;
      interrupt_stack = refl;
      pgd = refl;
      context = refl;
      context_saved = refl;
    };
    second = record {
      function = refl;
      stack = refl;
      interrupt_stack = refl;
      pgd = refl;
      context = refl;
      context_saved = refl;
    };
  };
  bytes = λ x. ground arith;
  cr3 = refl;
  data_sel = refl;
  log = refl;
}

kernel-Runs : Runs 0 kernel
kernel-Runs = record { index = refl; is_task = inl refl; stack = refl; directory = refl }

-- Registers of ring 3.
abbrev user : Registers
user = record {
  edi = 1;
  esi = 2;
  ebp = 3;
  ebx = 4;
  edx = 5;
  ecx = 6;
  eax = 7;
  eip = 0x400010;
  cs = 0x1b;
  eflags = 0x202;
  esp = 0x405000;
  ss = 0x23;
}

user-AreWordsOf : AreWordsOf user
user-AreWordsOf = record { pointers = omega arith; others = omega arith; code = omega arith }

globals-LaidOut : (ctx : ℕ) → 0x304400 ≤ ctx → ctx ≤ 0x400000 → LaidOut globals ctx
globals-LaidOut ctx low high = record {
  current = omega arith;
  tss_esp0 = omega arith;
  in_range = omega arith;
  apart = omega arith;
  current_tasks = omega arith;
  tss_tasks = omega arith;
  current_ctx = omega arith;
  tss_ctx = omega arith;
  tasks_ctx = omega arith;
}

user-Interruptible :
    (esp0 : ℕ) → esp0 % 4 ≡ 0 → 0x310000 ≤ esp0 → esp0 ≤ 0x400000 → Interruptible globals esp0 user
user-Interruptible esp0 a low high = record {
  ring = refl;
  words = user-AreWordsOf;
  room = record { aligned = omega arith; below = omega arith; above = omega arith };
  layout = globals-LaidOut (esp0 - 52) (omega arith) (omega arith);
}

clock_handler-refines_example :
    Agrees globals
      (clock_handler globals 0x380fcc machine)
      (clock_interrupt_handler (words started 0x380fcc 15) kernel)
clock_handler-refines_example =
    clock_handler-refines globals 0x380fcc (globals-LaidOut 0x380fcc (omega arith) (omega arith))
      machine kernel (running 0 kernel-Runs) machine-Matches

abbrev ticked : Machine
ticked = (clock_interrupt globals machine user).0

machine_stack : load32 started 0x304104 ≡ 0x381000
machine_stack = machine-Matches.globals.esp0

machine-Interruptible : Interruptible globals (load32 started 0x304104) user
machine-Interruptible =
    subst⁻¹ (λ a. Interruptible globals a user) machine_stack
      (user-Interruptible 0x381000 refl (omega arith) (omega arith))

ticked-Agrees :
    let (m, ctx) = entered globals machine user machine-Matches.bytes machine-Interruptible in
    Agrees globals
      (clock_interrupt globals machine user)
      (clock_interrupt_handler (words m ctx 15) kernel)
ticked-Agrees =
    clock_interrupt-Agrees globals machine user machine-Matches.bytes machine-Interruptible kernel
      (running 0 kernel-Runs) machine-Matches

ticked-Interruptible : Interruptible globals (load32 ticked.mem 0x304104) user
unfolding clock_interrupt_handler
ticked-Interruptible =
    subst⁻¹ (λ a. Interruptible globals a user) ticked-Agrees.machine.globals.esp0
      (user-Interruptible 0x391000 refl (omega arith) (omega arith))

ticked-Kept : Kept globals ticked ticked
ticked-Kept = record {
  bytes = ticked-Agrees.machine.bytes;
  current = refl;
  tss_esp0 = refl;
  tasks = λ x p q. refl;
  registers = (refl, (refl, refl));
}

preempted-resumed_example : leave 0 0x23 user (clock_interrupt globals ticked user).1 ≡ some user
preempted-resumed_example =
    preempted-resumed globals 0 kernel machine user kernel-Runs machine-Matches
      machine-Interruptible ticked user ticked-Kept ticked-Interruptible 0 user

stub-HasRoom : (v err : ℕ) → HasRoom 0x400000 user (stub_words v err)
stub-HasRoom v err = record { aligned = omega arith; below = omega arith; above = omega arith }

idt_entry-context_example :
    (c : HandlerCall) × (idt_entry started 0x400000 user 14 5 ≡ some c)
    × (c.sent ≡ acknowledged 14)
    × (context_of (words c.mem c.ctx 15) ≡ some (context started 0x400000 user 14 5))
    × (resume_from_intr c.ctx 0x23 user (words c.mem c.ctx 15) ≡ some user)
idt_entry-context_example =
    idt_entry-context started 0x400000 user 14 5 user (inl (omega arith)) (omega arith)
      (omega arith) user-AreWordsOf (stub-HasRoom 14 5)

abbrev timer : ℕ
timer = 33

interrupt-resumed_example :
    ((timer ≡ 2) ⊎ (20 ≤ timer)
      → interrupt started 0x400000 user user timer 0 0 ≡ resumed (acknowledged timer) user)
    × (timer < 20
        → timer ≢ 2
        → interrupt started 0x400000 user user timer 0 0
          ≡ stopped (fatal (named timer) (cause timer 0 0)))
interrupt-resumed_example =
    interrupt-resumed started 0x400000 user user timer 0 0 (omega arith) (omega arith)
      user-AreWordsOf (stub-HasRoom timer 0)
