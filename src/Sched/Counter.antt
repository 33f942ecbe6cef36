-- ===== src/Sched/Counter.antt =====
-- The two tasks of tp_exam/tp.c under the scheduler: `task1_function`, `task2_function` with
-- `sys_counter`, and `syscall_handler`, interleaved by clock interrupts. Each access goes through
-- the directory that is loaded.
pub mod Access
pub mod Reach
pub mod Safety
use secos_ng.Base.{
  ℕ, ◌+◌, ◌%◌, ◌^◌, ◌≡◌, Bool, true, false, ◌||◌, if◌then◌else◌, Option, none, some, List, [], ◌∷◌,
  add32,
}
use mathlib.Core.Option
use secos_ng.Memory.{Memory, load32, store32}
use secos_ng.Paging.Walk.{Mapping, translate, writable}
use secos_ng.Sched.{Context, Kernel, clock_interrupt_handler}

-- The physical address that the code may use; ring 3 only pages that are the user's.
pub reach : Bool → Memory → (dir va : ℕ) → Option ℕ
reach kernel m dir va = elim (translate m dir va) [
  | none ↦ none
  | some p ↦ if kernel || p.user then some p.phys else none
]

-- A load and a store of a word; `none` is a page fault. A store of ring 3 needs a page that may be
-- written.
pub load_at : Bool → Memory → (dir va : ℕ) → Option ℕ
load_at kernel m dir va = Option.map (load32 m) (reach kernel m dir va)

pub store_at : Bool → Memory → (dir va value : ℕ) → Option Memory
store_at kernel m dir va value =
    if kernel || writable m dir va
    then Option.map (λ p. store32 m p value) (reach kernel m dir va)
    else none

-- Where the first task is: before `*counter=0`, before the load of `*counter + 1`, or before the
-- store with the value that it has loaded.
pub data Pc : Type 0 where
  clearing loading : Pc
  storing : ℕ → Pc

-- `rounds` counts the increments that are complete; `printed` has the counter values printed, the
-- last one first.
pub record System : Type 0 where
  pub mem : Memory
  pub kernel : Kernel
  pub pc : Pc
  pub rounds : ℕ
  pub printed : List ℕ

-- `counter` of the first task, and the argument of `sys_counter` in the second one.
abbrev pub counter_1 : ℕ
counter_1 = 0x800000

abbrev pub counter_2 : ℕ
counter_2 = 0x400000

-- What the running task does next. The system call runs in ring 0 with interrupts off, from the
-- `int` of the second task to its `iret`.
pub data Work (s : System) : System → Type 0 where
  clear :
      (m : Memory)
      → s.kernel.current_task_idx ≡ 0
      → s.pc ≡ clearing
      → store_at false s.mem s.kernel.cr3 counter_1 0 ≡ some m
      → Work s (record s { mem = m; pc = loading })
  load :
      (v : ℕ)
      → s.kernel.current_task_idx ≡ 0
      → s.pc ≡ loading
      → load_at false s.mem s.kernel.cr3 counter_1 ≡ some v
      → Work s (record s { pc = storing v })
  store :
      (v : ℕ) (m : Memory)
      → s.kernel.current_task_idx ≡ 0
      → s.pc ≡ storing v
      → store_at false s.mem s.kernel.cr3 counter_1 (add32 v 1) ≡ some m
      → Work s (record s { mem = m; pc = loading; rounds = s.rounds + 1 })
  syscall :
      (v : ℕ)
      → s.kernel.current_task_idx ≡ 1
      → load_at true s.mem s.kernel.cr3 counter_2 ≡ some v
      → Work s (record s { printed = v ∷ s.printed })

-- One step of the machine: a clock interrupt, with any context on the stack, or the task's.
pub data Step (s : System) : System → Type 0 where
  tick : (c : Context) → Step s (record s { kernel = (clock_interrupt_handler c s.kernel).0 })
  work : {t : System} → Work s t → Step s t
