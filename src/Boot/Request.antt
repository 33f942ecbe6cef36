-- ===== src/Boot/Request.antt =====
-- What a device's request leads to once the kernel has started.
use secos_ng.Base.{
  ℕ, ◌+◌, ◌*◌, ◌%◌, ◌^◌, ◌≤◌, ◌<◌, ◌≡◌, ◌≢◌, ◌⊎◌, false, refl, ap, ◌∙◌, arith, List, [], ◌∷◌, ◌++◌,
  length, some, codes, ◌==◌, if◌then◌else◌, take, take_of_ge,
}
use secos_ng.Io.{Out}
use secos_ng.Memory.{Memory, store32, within}
use secos_ng.Cpu.FlagOps.{
  is_interrupts_enabled, force_interrupts_on, force_interrupts_on-is_interrupts_enabled,
}
use secos_ng.Pic.{pic_init}
use secos_ng.Pic.Remap.{Pair, command_all, command, vector, pic_init-vector}
use secos_ng.Uart.{com1, flush_recv}
use secos_ng.Uart.Init.{uart_init}
use secos_ng.Uart.Transfer.{ready, sends}
use secos_ng.Print.Format.{done}
use secos_ng.Print.Format.Spec.{plain, parse, render, read, show}
use secos_ng.Print.Pieces.{IsPlain}
use secos_ng.Print.Console.{vprintf-sends, vprintf-framed}
use secos_ng.Segment.{code_xr}
use secos_ng.Segment.Table.{select, flat, config_segmentation, config_segmentation-select}
use secos_ng.Paging.{Machine, pgd, config_pgds}
use secos_ng.Paging.Frame.{overlaid-config_pgds}
use secos_ng.Sched
use secos_ng.Sched.{Kernel}
use secos_ng.Trap.{intr_init, config_interrupt}
use secos_ng.Trap.Table.{gate_at, kernel_gate, handler_of, level_of, gate_at-config_interrupt}
use secos_ng.Sched.Counter.{System, clearing}
use secos_ng.Sched.Counter.Reach.{boot}
use secos_ng.Boot.{
  Addresses, Running, paging_message, after_pgds, config, looping, banner, after_banner, start,
}

render-IsPlain :
    (text : ℕ → List ℕ) (t args : List ℕ)
    → IsPlain t
    → render text (parse plain t) args ≡ done (args, t)
unfolding render parse read show
render-IsPlain text [] args h = refl
render-IsPlain text (c ∷ t) args h = ground (arith, h.0, render-IsPlain text t args h.1)

IsPlain-append : (t u : List ℕ) → IsPlain t → IsPlain u → IsPlain (t ++ u)
IsPlain-append [] u h k = k
IsPlain-append (c ∷ t) u h k = (h.0, IsPlain-append t u h.1 k)

IsPlain-banner : (release : List ℕ) → IsPlain release → IsPlain (banner release)
IsPlain-banner release h =
    (omega arith, IsPlain-append release (codes " (c) Airbus\n") h (omega arith))

command_all-append :
    (xs ys : List Out) (p : Pair) → command_all (xs ++ ys) p ≡ command_all ys (command_all xs p)
unfolding command_all
command_all-append [] ys p = refl
command_all-append (x ∷ xs) ys p = command_all-append xs ys (command x p)

-- The serial port's writes do not reach the controllers.
command_all-sends : (t : List ℕ) (p : Pair) → command_all (sends com1 t) p ≡ p
unfolding command_all command
command_all-sends [] p = refl
command_all-sends (c ∷ t) p = ground (arith, command_all-sends t p)

command_all-uart_init : (fcr : ℕ) (p : Pair) → command_all (uart_init fcr) p ≡ p
unfolding command_all command uart_init
command_all-uart_init fcr p = ground arith

-- The tasks have made no step yet.
abbrev pub system : Running → System
system r = record {
  mem = r.machine.mem;
  kernel = r.kernel;
  pc = clearing;
  rounds = 0;
  printed = [];
}

-- The same, for a memory.
abbrev system_at : Kernel → Memory → System
system_at k m = record { mem = m; kernel = k; pc = clearing; rounds = 0; printed = [] }

beside : (a n x : ℕ) → within a n x ≡ false → (x < a) ⊎ (a + n ≤ x)
beside a n x e = ground (arith, e)

-- What `start` writes to ports, up to the loop.
abbrev output : (release : List ℕ) (fcr : ℕ) → List Out
output release fcr =
    ((pic_init ++ uart_init fcr) ++ sends com1 (banner release))
    ++ sends com1 (codes "pagination enabled\n")

module _ (a : Addresses) (text : ℕ → List ℕ) (release : List ℕ) (esp eflags fcr : ℕ)
    (later : List ℕ) where
  -- What holds of the machine in the loop of `config`.
  pub record IsReady (r : Running) : Type 0 where
    pub written : r.sent ≡ output release fcr
    pub enabled : is_interrupts_enabled r.eflags ≢ 0
    pub table :
        r.idtr ≡ config_interrupt a.clock_interrupt_isr a.syscall_isr (intr_init a.idt_trampoline)
    pub segments : select r.segments 8 ≡ select (config_segmentation a.tss esp) 8
    pub tasks :
        (b : Machine) × (system r
          ≡ boot b a.task1_function a.task1_stack_base a.task2_function a.task2_stack_base)

  -- `config` comes to its loop.
  config-IsReady :
      (s : Machine) (sent : List Out)
      → sent ≡ (pic_init ++ uart_init fcr) ++ sends com1 (banner release)
      → a.vprint_buffer + 1024 ≤ pgd
      → 19 ≤ ready later
      → (r : Running) × (config a text esp eflags later (intr_init a.idt_trampoline) s sent
          ≡ looping r)
        × IsReady r
  unfolding config select after_pgds
  config-IsReady s sent ports b e =
      let t = paging_message in
      let paged = config_pgds s in
      let p =
        vprintf-framed text a.vprint_buffer later t [] [] t paged.mem
          (render-IsPlain text t [] (omega arith)) (omega arith) e in
      let o =
        overlaid-config_pgds s p.0 a.vprint_buffer 1024 b (λ x out. p.2 x (beside _ 1024 x out)) in
      let kernel =
        Sched.config a.task1_function a.task1_stack_base a.task2_function a.task2_stack_base in
      (
        record {
          sent = sent ++ sends com1 t;
          segments = record (config_segmentation a.tss esp) {
            data_sel = kernel.data_sel;
            tss_esp0 = kernel.esp0;
          };
          machine = record paged { mem = p.0; cr3 = kernel.cr3 };
          idtr = config_interrupt a.clock_interrupt_isr a.syscall_isr (intr_init a.idt_trampoline);
          kernel = kernel;
          eflags = force_interrupts_on eflags;
        },
        ap (after_pgds a text esp eflags (intr_init a.idt_trampoline) paged sent) p.1,
        record {
          written = ap (λ (os : List Out). os ++ sends com1 t) ports;
          enabled = force_interrupts_on-is_interrupts_enabled eflags;
          table = refl;
          segments = refl;
          tasks = (o.0, ap (system_at kernel) o.1);
        },
      )

  start-IsReady :
      (answers : List (ℕ × ℕ)) (statuses dropped : List ℕ) (mbi : ℕ) (s : Machine)
      → IsPlain release
      → length (banner release) < 1024
      → a.vprint_buffer + 1024 ≤ pgd
      → flush_recv answers ≡ some dropped
      → length (banner release) ≤ ready statuses
      → 19 ≤ ready later
      → (r : Running) × (start a text release esp eflags fcr later answers statuses mbi s
          ≡ looping r)
        × IsReady r
  unfolding start after_banner
  start-IsReady answers statuses dropped mbi s h l b d e f =
      let t = banner release in
      let s1 : Machine = record s { mem = store32 s.mem a.info mbi } in
      let p =
        vprintf-sends text a.vprint_buffer statuses t [] [] t s1.mem
          (render-IsPlain text t [] (IsPlain-banner release h)) (omega (arith, b)) e in
      let ports = pic_init ++ uart_init fcr in
      let s2 : Machine = record s1 { mem = p.0 } in
      let all : take 1023 t ≡ t = take_of_ge 1023 t (omega arith) in
      let c =
        config-IsReady s2 (ports ++ sends com1 (take 1023 t))
          (ap (λ (u : List ℕ). ports ++ sends com1 u) all) b f in
      (c.0, ground (arith, d, p.1, c.1), c.2)

  IsReady-vector :
      (r : Running)
      → IsReady r
      → (p : Pair) (irq : ℕ) → irq < 16
      → vector (command_all r.sent p) irq ≡ some (32 + irq)
  IsReady-vector r h p irq lt =
      let q = command_all pic_init p in
      let t = banner release in
      let u = codes "pagination enabled\n" in
      let same : command_all (output release fcr) p ≡ q =
        command_all-append ((pic_init ++ uart_init fcr) ++ sends com1 t) (sends com1 u) p
        ∙ command_all-sends u (command_all ((pic_init ++ uart_init fcr) ++ sends com1 t) p)
        ∙ command_all-append (pic_init ++ uart_init fcr) (sends com1 t) p
        ∙ command_all-sends t (command_all (pic_init ++ uart_init fcr) p)
        ∙ command_all-append pic_init (uart_init fcr) p
        ∙ command_all-uart_init fcr q in
      ap (λ os. vector (command_all os p) irq) h.written
      ∙ ap (λ c. vector c irq) same
      ∙ (pic_init-vector p irq lt).0

  IsReady-gate :
      (r : Running)
      → IsReady r
      → (v : ℕ) → v < 256
      → a.idt_trampoline < 2 ^ 32
      → a.clock_interrupt_isr < 2 ^ 32
      → a.syscall_isr < 2 ^ 32
      → gate_at v r.idtr
        ≡ some (
            kernel_gate
              (handler_of a.clock_interrupt_isr a.syscall_isr a.idt_trampoline v)
              (level_of v))
  IsReady-gate r h v lt i j k =
      ap (gate_at v) h.table
      ∙ gate_at-config_interrupt a.idt_trampoline a.clock_interrupt_isr a.syscall_isr v i j k lt

  -- With a release name that has no percent sign, a banner that fits its buffer, that buffer below the
  -- page tables, an input that ends, a transmitter that becomes ready often enough for both texts,
  -- and 32-bit addresses, `start` comes to the loop of `config`. It has set up the controllers and
  -- the serial port and sent the banner and `pagination enabled`, and interrupts are on. From then on, in whatever state the interrupt controllers were before,
  -- request `irq` of the sixteen comes as vector `32 + irq`, and the processor finds there a gate
  -- into the flat code segment of ring 0 that leads to the clock handler for the timer and to the
  -- vector's stub for every other device; and the tasks are in the state from which the scheduler's
  -- runs start.
  pub start-request :
      (answers : List (ℕ × ℕ)) (statuses dropped : List ℕ) (mbi : ℕ) (s : Machine) (p : Pair)
      (irq : ℕ)
      → IsPlain release
      → length (banner release) < 1024
      → a.vprint_buffer + 1024 ≤ 0x350000
      → flush_recv answers ≡ some dropped
      → length (banner release) ≤ ready statuses
      → 19 ≤ ready later
      → a.idt_trampoline < 2 ^ 32
      → a.clock_interrupt_isr < 2 ^ 32
      → a.syscall_isr < 2 ^ 32
      → a.tss < 2 ^ 32
      → irq < 16
      → (r : Running) × (start a text release esp eflags fcr later answers statuses mbi s
          ≡ looping r)
        × (r.sent
            ≡ ((pic_init ++ uart_init fcr) ++ sends com1 (banner release))
              ++ sends com1 (codes "pagination enabled\n"))
        × (is_interrupts_enabled r.eflags ≢ 0)
        × (vector (command_all r.sent p) irq ≡ some (32 + irq))
        × (gate_at (32 + irq) r.idtr
            ≡ some (
                if irq == 0
                then kernel_gate a.clock_interrupt_isr 3
                else kernel_gate ((a.idt_trampoline + 16 * (32 + irq)) % 2 ^ 32) 0))
        × (select r.segments 8 ≡ some (flat code_xr 0))
        × (b : Machine) × (system r
            ≡ boot b a.task1_function a.task1_stack_base a.task2_function a.task2_stack_base)
  start-request answers statuses dropped mbi s p irq h l b d e f i j k t lt =
      let x = start-IsReady answers statuses dropped mbi s h l b d e f in
      let g = IsReady-gate x.0 x.2 (32 + irq) (omega arith) i j k in
      (
        x.0,
        x.1,
        x.2.written,
        x.2.enabled,
        IsReady-vector x.0 x.2 p irq lt,
        ground (arith, g),
        x.2.segments ∙ (config_segmentation-select a.tss esp t).0,
        x.2.tasks.0,
        x.2.tasks.1,
      )
