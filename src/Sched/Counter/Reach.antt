-- ===== src/Sched/Counter/Reach.antt =====
-- The states that the machine reaches from the end of `config`, and what holds in all of them.
use mathlib.Core.Option.{some-injective}
use secos_ng.Base.{
  ℕ, ◌%◌, ◌^◌, ◌≤◌, ◌<◌, ◌≡◌, refl, ap, ◌∙◌, sym, arith, some, false, List, [], ◌∷◌, ◌==◌,
  if◌then◌else◌,
}
use secos_ng.Memory.{Memory, load32, store32}
use secos_ng.Memory.Words.{load32-store32}
use secos_ng.Paging.{Machine, pgd_task_1, pgd_task_2}
use secos_ng.Paging.Read.{tables}
use secos_ng.Sched.{Context, Kernel, clock_interrupt_handler, config}
use secos_ng.Sched.Invariant.{IsValid, idle, running, clock_interrupt_handler-Runs}
use secos_ng.Sched.Counter.{System, Pc, clearing, loading, storing, Step, counter_1, store_at}
use secos_ng.Sched.Counter.Access.{shared, HasTables, store_at_1}

-- The machine when `config` has built the tables over the memory of `b` and enters its loop.
abbrev pub boot : Machine → (function1 base1 function2 base2 : ℕ) → System
boot b function1 base1 function2 base2 = record {
  mem = tables b;
  kernel = config function1 base1 function2 base2;
  pc = clearing;
  rounds = 0;
  printed = [];
}

pub data Reach (b : Machine) (f1 b1 f2 b2 : ℕ) : System → Type 0 where
  start : Reach b f1 b1 f2 b2 (boot b f1 b1 f2 b2)
  later : {s t : System} → Reach b f1 b1 f2 b2 s → Step s t → Reach b f1 b1 f2 b2 t

abbrev AllAre : ℕ → List ℕ → Type 0
AllAre g [] = Unit
AllAre g (v ∷ vs) = (v ≡ g) × AllAre g vs

-- Values printed, the last one first, each the count at a time that is not after `n` nor after the
-- one printed next; before the first of them only the word that memory held at first, `g`.
pub data Counts (g : ℕ) : ℕ → List ℕ → Type 0 where
  early : (n : ℕ) (vs : List ℕ) → AllAre g vs → Counts g n vs
  counted : (i n v : ℕ) (vs : List ℕ) → i ≤ n → v ≡ i % 2 ^ 32 → Counts g i vs → Counts g n (v ∷ vs)

pub Counts-le : {g n : ℕ} {vs : List ℕ} (k : ℕ) → n ≤ k → Counts g n vs → Counts g k vs
Counts-le k le (early n vs a) = early k vs a
Counts-le k le (counted i n v vs h e c) = counted i k v vs (omega arith) e c

-- The counter's word, the register of the first task and the values printed, at each place.
abbrev pub AtPc : ℕ → Pc → (word rounds : ℕ) → List ℕ → Type 0
AtPc g clearing word n vs = (word ≡ g) × (n ≡ 0) × AllAre g vs
AtPc g loading word n vs = (word ≡ n % 2 ^ 32) × Counts g n vs
AtPc g (storing v) word n vs = (word ≡ n % 2 ^ 32) × (v ≡ n % 2 ^ 32) × Counts g n vs

-- The scheduler's part: the tasks keep their directories.
pub record Directed (k : Kernel) : Type 0 where
  pub valid : IsValid k
  pub first : k.task0.pgd ≡ pgd_task_1
  pub second : k.task1.pgd ≡ pgd_task_2

handler_pgds :
    (k : Kernel) (c : Context)
    → ((clock_interrupt_handler c k).0.task0.pgd ≡ k.task0.pgd)
      × ((clock_interrupt_handler c k).0.task1.pgd ≡ k.task1.pgd)
unfolding clock_interrupt_handler
handler_pgds k c = ground arith

pub handler-Directed :
    (k : Kernel) (c : Context) → Directed k → Directed (clock_interrupt_handler c k).0
handler-Directed k c d = record {
  valid = running _ (clock_interrupt_handler-Runs c d.valid).0;
  first = (handler_pgds k c).0 ∙ d.first;
  second = (handler_pgds k c).1 ∙ d.second;
}

cr3_of :
    (k : Kernel) (i : ℕ)
    → IsValid k
    → k.current_task_idx ≡ i
    → i < 2
    → k.cr3 ≡ (if i == 0 then k.task0.pgd else k.task1.pgd)
cr3_of k i (idle e) h lt = absurd (omega arith)
cr3_of k i (running j r) h lt = ground (arith, r.index, r.directory)

pub cr3_first : (k : Kernel) → Directed k → k.current_task_idx ≡ 0 → k.cr3 ≡ pgd_task_1
cr3_first k d e = cr3_of k 0 d.valid e (omega arith) ∙ d.first

pub cr3_second : (k : Kernel) → Directed k → k.current_task_idx ≡ 1 → k.cr3 ≡ pgd_task_2
cr3_second k d e = cr3_of k 1 d.valid e (omega arith) ∙ d.second

-- What holds in every state that is reached.
pub record Inv (b : Machine) (s : System) : Type 0 where
  pub mapped : HasTables b s.mem
  pub directed : Directed s.kernel
  pub progress : AtPc (load32 (tables b) shared) s.pc (load32 s.mem shared) s.rounds s.printed

pub boot-Inv : (b : Machine) (f1 b1 f2 b2 : ℕ) → Inv b (boot b f1 b1 f2 b2)
unfolding config
boot-Inv b f1 b1 f2 b2 = record {
  mapped = λ x lt. refl;
  directed = record { valid = idle refl; first = refl; second = refl };
  progress = (refl, refl, tt);
}

-- The word after a store to it.
pub read_back : (m : Memory) (v : ℕ) → v < 2 ^ 32 → load32 (store32 m shared v) shared ≡ v
read_back m v h = load32-store32 m shared v shared (omega arith) (omega arith) h ∙ ground arith

-- The memory that the first task's store leaves.
pub stored :
    (b : Machine) (s : System) (v : ℕ) (m : Memory)
    → Inv b s
    → s.kernel.current_task_idx ≡ 0
    → store_at false s.mem s.kernel.cr3 counter_1 v ≡ some m
    → store32 s.mem shared v ≡ m
stored b s v m i run st = some-injective (store32 s.mem shared v) m (
    sym (store_at_1 b s.mem i.mapped v)
    ∙ ap (λ (dir : ℕ). store_at false s.mem dir counter_1 v)
        (sym (cr3_first s.kernel i.directed run))
    ∙ st)
