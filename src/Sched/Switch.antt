-- ===== src/Sched/Switch.antt =====
-- The clock interrupt of tp_exam/tp.c on memory: `clock_interrupt_handler` with the globals
-- `current_task_idx`, `TSS` and `tasks` where they stand, and its argument on the stack. Both tasks'
-- directories map these addresses to themselves.
pub mod Layout
pub mod Stages
pub mod Refine
pub mod Preempt
use secos_ng.Base.{
  ℕ, ◌+◌, ◌-◌, ◌*◌, ◌%◌, ◌^◌, ◌≤◌, ◌<◌, ◌≡◌, ◌⊎◌, Bool, ◌==◌, if◌then◌else◌, List, [], ◌∷◌, ◌++◌,
  add32,
}
use secos_ng.Segment.{d3_sel, c3_sel}
use secos_ng.Memory.{Memory, store8, store32, load32, memcpy}
use secos_ng.Cpu.Push.{words}
use secos_ng.Sched.{
  Event, Kernel, Resume, restore, enter, no_task, task_at, printing_counter, increasing_counter,
  eoi,
}

-- The addresses of `current_task_idx`, `TSS.s0.esp` and `tasks`.
pub record Globals : Type 0 where
  pub current : ℕ
  pub tss_esp0 : ℕ
  pub tasks : ℕ

-- `sizeof(struct task)`, with the padding behind `context_saved`.
abbrev pub task_size : ℕ
task_size = 80

abbrev pub context_size : ℕ
context_size = 60

-- `&tasks[i]` and the offsets of its members.
abbrev pub task_addr : Globals → ℕ → ℕ
task_addr g i = g.tasks + task_size * i

abbrev pub context_addr : Globals → ℕ → ℕ
context_addr g i = task_addr g i + 16

abbrev pub saved_addr : Globals → ℕ → ℕ
saved_addr g i = task_addr g i + 76

-- The memory, the registers that the handler writes and its output so far.
pub record Machine : Type 0 where
  pub mem : Memory
  pub cr3 : ℕ
  pub data_sel : ℕ
  pub log : List Event

-- `memcpy(&tasks[current_task_idx].context,ctx,sizeof(int_ctx_t))` and the flag, if a task runs.
unfoldable pub save_memory : Globals → (ctx : ℕ) → Memory → Memory
save_memory g ctx m =
    let i = load32 m g.current in
    if i == no_task
    then m
    else store8 (memcpy (context_addr g i) ctx context_size m).1 (saved_addr g i) 1

-- The writes of `TSS.s0.esp` and `current_task_idx`.
unfoldable pub switch_memory : Globals → ℕ → Memory → Memory
switch_memory g next m =
    store32 (store32 m g.tss_esp0 (load32 m (task_addr g next + 8))) g.current next

unfoldable pub clock_handler : Globals → (ctx : ℕ) → Machine → Machine × Resume
clock_handler g ctx s =
    let next_task = add32 (load32 s.mem g.current) 1 % 2 in
    let message = if next_task == 1 then printing_counter else increasing_counter in
    let m = save_memory g ctx s.mem in
    let m' = switch_memory g next_task m in
    let s' : Machine = record {
      mem = m';
      cr3 = load32 m (task_addr g next_task + 12);
      data_sel = d3_sel;
      log = s.log ++ message ∷ eoi ∷ [];
    } in
    let copied = (memcpy ctx (context_addr g next_task) context_size m').1 in
    if m' (saved_addr g next_task) == 1
    then (record s' { mem = copied }, restore (words copied ctx 15))
    else (
      s',
      enter d3_sel (load32 m' (task_addr g next_task + 4)) c3_sel
          (load32 m' (task_addr g next_task)),
    )
