-- ===== src/Sched.antt =====
-- The preemptive scheduler of tp_exam/tp.c: `config_task`, the task set-up of `config`, and
-- `clock_interrupt_handler`. A context is the block of words that `memcpy` moves.
pub mod Invariant
pub mod Fairness
pub mod Counter
pub mod Switch
use secos_ng.Base.{
  ℕ, zero, suc, ◌+◌, ◌-◌, ◌%◌, ◌^◌, Bool, ◌==◌, if◌then◌else◌, List, [], ◌∷◌, ◌++◌, replicate,
  add32,
}
use secos_ng.Io.{Out, out}
use secos_ng.Paging.{pgd_task_1, pgd_task_2}
use secos_ng.Segment.{d3_sel, c3_sel}

abbrev pub Context : Type 0
Context = List ℕ

-- `struct task`
pub record Task : Type 0 where
  pub function : ℕ
  pub stack : ℕ
  pub interrupt_stack : ℕ
  pub pgd : ℕ
  pub context : Context
  pub context_saved : ℕ

pub data Event : Type 0 where
  printing_counter : Event
  increasing_counter : Event
  port : Out → Event

-- The globals, the TSS entry and the registers that the handler writes, and its output so far.
pub record Kernel : Type 0 where
  pub current_task_idx : ℕ
  pub task0 : Task
  pub task1 : Task
  pub esp0 : ℕ
  pub cr3 : ℕ
  pub data_sel : ℕ
  pub log : List Event

-- How the interrupt is left: `iret` to the context on the stack, or to a frame pushed for a task
-- that has not run yet.
pub data Resume : Type 0 where
  restore : Context → Resume
  enter : (ss esp cs eip : ℕ) → Resume

-- No task has run: `(uint32_t)-1`.
abbrev pub no_task : ℕ
no_task = 2 ^ 32 - 1

-- `tasks[i]`; an index is 0 or 1.
abbrev pub task_at : Kernel → ℕ → Task
task_at k i = if i == 0 then k.task0 else k.task1

abbrev save_context : Context → Task → Task
save_context c t = record t { context = c; context_saved = 1 }

-- `if((int)current_task_idx!=-1)`: the interrupted task keeps its context.
unfoldable pub save_current : Context → Kernel → Kernel
save_current c k =
    if k.current_task_idx == no_task
    then k
    else if k.current_task_idx == 0
    then record k { task0 = save_context c k.task0 }
    else record k { task1 = save_context c k.task1 }

abbrev pub eoi : Event
eoi = port (out 32 32)

unfoldable pub clock_interrupt_handler : Context → Kernel → Kernel × Resume
unfolding save_current
clock_interrupt_handler c k =
    let next_task = add32 k.current_task_idx 1 % 2 in
    let message = if next_task == 1 then printing_counter else increasing_counter in
    let k1 = save_current c k in
    let next = task_at k1 next_task in
    let k2 : Kernel = record k1 {
      data_sel = d3_sel;
      esp0 = next.interrupt_stack;
      cr3 = next.pgd;
      current_task_idx = next_task;
      log = k.log ++ message ∷ eoi ∷ [];
    } in
    if next.context_saved == 1
    then (k2, restore next.context)
    else (k2, enter d3_sel next.stack c3_sel next.function)

-- `sizeof(int_ctx_t)` in words.
abbrev context_words : ℕ
context_words = 15

abbrev config_task : ℕ → ℕ → ℕ → ℕ → Task
config_task func stack interrupt_stack pgd = record {
  function = func;
  stack = stack;
  interrupt_stack = interrupt_stack;
  pgd = pgd;
  context = replicate context_words 0;
  context_saved = 0;
}

-- The two calls of `config_task` in `config` and what follows them, up to the endless loop.
unfoldable pub config : (function1 base1 function2 base2 : ℕ) → Kernel
config function1 base1 function2 base2 =
    let first = config_task function1 base1 (0x380000 + 4096) pgd_task_1 in
    let second = config_task function2 base2 (0x390000 + 4096) pgd_task_2 in
    record {
      current_task_idx = no_task;
      task0 = first;
      task1 = second;
      esp0 = first.interrupt_stack;
      cr3 = first.pgd;
      data_sel = d3_sel;
      log = [];
    }
