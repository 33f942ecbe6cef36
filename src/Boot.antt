-- ===== src/Boot.antt =====
-- The kernel from its entry in C to the loop in which clock interrupts take over: `start` of
-- kernel/core/start.c with `config` of tp_exam/tp.c.
pub mod Request
pub mod MemoryMap
use mathlib.Core.Option
use secos_ng.Base.{ℕ, ◌-◌, ◌%◌, ◌^◌, List, [], ◌∷◌, ◌++◌, Option, none, some, codes, add32}
use secos_ng.Io.{Out}
use secos_ng.Memory.{Memory, store32}
use secos_ng.Pic.{pic_init}
use secos_ng.Uart.{flush_recv}
use secos_ng.Uart.Init.{uart_init}
use secos_ng.Print.Format.{Outcome, done, panicked, fault}
use secos_ng.Print.Console.{vprintf}
use secos_ng.Segment.{d3_sel}
use secos_ng.Segment.Table.{Loaded, config_segmentation}
use secos_ng.Paging.{Machine, config_pgds}
use secos_ng.Cpu.FlagOps.{force_interrupts_on}
use secos_ng.Trap.{Idtr, intr_init, config_interrupt}
use secos_ng.Sched
use secos_ng.Sched.{Kernel}

-- What the compiler and the linker place.
pub record Addresses : Type 0 where
  pub info : ℕ
  pub vprint_buffer : ℕ
  pub idt_trampoline : ℕ
  pub tss : ℕ
  pub clock_interrupt_isr : ℕ
  pub syscall_isr : ℕ
  pub task1_function : ℕ
  pub task1_stack_base : ℕ
  pub task2_function : ℕ
  pub task2_stack_base : ℕ

-- The machine in the endless loop of `config`, with what has been written to ports.
pub record Running : Type 0 where
  pub sent : List Out
  pub segments : Loaded
  pub machine : Machine
  pub idtr : Idtr
  pub kernel : Kernel
  pub eflags : ℕ

-- How far `start` comes: to the loop, to a poll without an answer, or, where a text is no format that
-- `printf` takes, not past it.
pub data Started : Type 0 where
  looping : Running → Started
  waiting : Started
  stopped : Started

-- The argument of `debug` at the end of `config_pgds`.
abbrev pub paging_message : List ℕ
paging_message = codes "pagination enabled\n"

module _ (a : Addresses) (text : ℕ → List ℕ) (esp eflags : ℕ) where
  -- `config` behind its call of `config_pgds`, up to its loop; `esp` is the stack pointer there, `eflags`
  -- the register before `force_interrupts_on`.
  pub after_pgds : Idtr → Machine → List Out → Outcome (ℕ × Option (List Out) × Memory) → Started
  after_pgds idtr s sent (done (n, none, m)) = waiting
  after_pgds idtr s sent (done (n, some os, m)) =
      let kernel =
        Sched.config a.task1_function a.task1_stack_base a.task2_function a.task2_stack_base in
      looping (record {
        sent = sent ++ os;
        segments = record (config_segmentation a.tss esp) {
          data_sel = kernel.data_sel;
          tss_esp0 = kernel.esp0;
        };
        machine = record s { mem = m; cr3 = kernel.cr3 };
        idtr = config_interrupt a.clock_interrupt_isr a.syscall_isr idtr;
        kernel = kernel;
        eflags = force_interrupts_on eflags;
      })
  after_pgds idtr s sent (panicked c) = stopped
  after_pgds idtr s sent fault = stopped

  -- `statuses` is what the polls of the `debug` in `config_pgds` read. That call finds its buffer
  -- through the kernel's directory, which maps the first 4 MB to themselves.
  unfoldable pub config : (statuses : List ℕ) → Idtr → Machine → List Out → Started
  config statuses idtr s sent =
      let paged = config_pgds s in
      after_pgds idtr paged sent (vprintf text a.vprint_buffer statuses paging_message [] paged.mem)

-- The argument of `debug`; `release` is the text of the macro RELEASE.
abbrev pub banner : List ℕ → List ℕ
banner release = codes "\n" ++ (release ++ codes " (c) Airbus\n")

-- `answers` is what the polls in `uart_init` read, `fcr` what the stack holds in a local there, and
-- `statuses` and `later` what the polls of the two `debug` read.
module _ (a : Addresses) (text : ℕ → List ℕ) (release : List ℕ) (esp eflags fcr : ℕ)
    (later : List ℕ) where
  -- From the banner on.
  pub after_banner : Machine → List Out → Outcome (ℕ × Option (List Out) × Memory) → Started
  after_banner s sent (done (n, none, m)) = waiting
  after_banner s sent (done (n, some os, m)) =
      config a text esp eflags later (intr_init a.idt_trampoline) (record s { mem = m })
        (sent ++ os)
  after_banner s sent (panicked c) = stopped
  after_banner s sent fault = stopped

  pub start : (answers : List (ℕ × ℕ)) (statuses : List ℕ) (mbi : ℕ) → Machine → Started
  start answers statuses mbi s =
      let s1 : Machine = record s { mem = store32 s.mem a.info mbi } in
      elim (flush_recv answers) [
        | none ↦ waiting
        | some dropped ↦
            after_banner s1 (pic_init ++ uart_init fcr)
              (vprintf text a.vprint_buffer statuses (banner release) [] s1.mem)
      ]
