-- ===== src/Sched/Counter/Safety.antt =====
-- Every step keeps the invariant, and what follows of the values printed.
use mathlib.Core.Option.{some-injective}
use secos_ng.Base.{
  ℕ, ◌+◌, ◌≡◌, refl, ap, ◌∙◌, sym, subst, arith, some, true, false, List, ◌∷◌, add32, ◌⊎◌, inl, inr,
}
use secos_ng.Memory.{Memory, load32, store32}
use secos_ng.Paging.{Machine}
use secos_ng.Paging.Read.{tables}
use secos_ng.Sched.{Context, clock_interrupt_handler}
use secos_ng.Sched.Counter.{
  System, Pc, clearing, loading, storing, Work, Step, tick, work, clear, load, store, syscall,
  counter_1, counter_2, load_at, store_at,
}
use secos_ng.Sched.Counter.Access.{
  shared, HasTables, load_at_1, store_at_1, load_at_2, store32-HasTables,
}
use secos_ng.Sched.Counter.Reach.{
  Reach, start, later, Counts, early, counted, Counts-le, AtPc, Inv, handler-Directed, cr3_first,
  cr3_second, boot-Inv, read_back, stored,
}

-- One more value printed, the counter's word.
print_next :
    (p : Pc) (g word n v : ℕ) (vs : List ℕ)
    → word ≡ v
    → AtPc g p word n vs
    → AtPc g p word n (v ∷ vs)
print_next clearing g word n v vs e a = (a.0, a.1, (sym e ∙ a.0, a.2))
print_next loading g word n v vs e a = (a.0, counted n n v vs (omega arith) (sym e ∙ a.0) a.1)
print_next (storing w) g word n v vs e a =
    (a.0, a.1, counted n n v vs (omega arith) (sym e ∙ a.0) a.2)

module _ (b : Machine) (s : System) (i : Inv b s) where
  -- The word that memory held at first.
  abbrev first_word : ℕ
  first_word = load32 (tables b) shared

  abbrev AtPlace : Pc → Type 0
  AtPlace p = AtPc first_word p (load32 s.mem shared) s.rounds s.printed

  at_place : (p : Pc) → s.pc ≡ p → AtPlace p
  at_place p e = subst AtPlace e i.progress

  tick-Inv : (c : Context) → Inv b (record s { kernel = (clock_interrupt_handler c s.kernel).0 })
  tick-Inv c = record {
    mapped = i.mapped;
    directed = handler-Directed s.kernel c i.directed;
    progress = i.progress;
  }

  clear-Inv :
      (m : Memory)
      → s.pc ≡ clearing
      → store32 s.mem shared 0 ≡ m
      → Inv b (record s { mem = m; pc = loading })
  clear-Inv m e st = record {
    mapped = subst (HasTables b) st (store32-HasTables b s.mem 0 i.mapped);
    directed = i.directed;
    progress = (
      ap (λ n. load32 n shared) (sym st)
          ∙ read_back s.mem 0 (omega arith)
          ∙ omega (arith, (at_place clearing e).1),
      early s.rounds s.printed (at_place clearing e).2,
    );
  }

  load-Inv :
      (v : ℕ) → s.pc ≡ loading → load32 s.mem shared ≡ v → Inv b (record s { pc = storing v })
  load-Inv v e l = record {
    mapped = i.mapped;
    directed = i.directed;
    progress = ((at_place loading e).0, sym l ∙ (at_place loading e).0, (at_place loading e).1);
  }

  store-Inv :
      (v : ℕ) (m : Memory)
      → s.pc ≡ storing v
      → store32 s.mem shared (add32 v 1) ≡ m
      → Inv b (record s { mem = m; pc = loading; rounds = s.rounds + 1 })
  store-Inv v m e st = record {
    mapped = subst (HasTables b) st (store32-HasTables b s.mem (add32 v 1) i.mapped);
    directed = i.directed;
    progress = (
      ap (λ n. load32 n shared) (sym st)
          ∙ read_back s.mem (add32 v 1) (omega arith)
          ∙ omega (arith, (at_place (storing v) e).1),
      Counts-le (s.rounds + 1) (omega arith) (at_place (storing v) e).2,
    );
  }

  syscall-Inv : (v : ℕ) → load32 s.mem shared ≡ v → Inv b (record s { printed = v ∷ s.printed })
  syscall-Inv v l = record {
    mapped = i.mapped;
    directed = i.directed;
    progress = print_next s.pc first_word (load32 s.mem shared) s.rounds v s.printed l i.progress;
  }

loaded :
    (b : Machine) (s : System) (v : ℕ)
    → Inv b s
    → s.kernel.current_task_idx ≡ 0
    → load_at false s.mem s.kernel.cr3 counter_1 ≡ some v
    → load32 s.mem shared ≡ v
loaded b s v i run l = some-injective (load32 s.mem shared) v (
    sym (load_at_1 b s.mem i.mapped)
    ∙ ap (λ (dir : ℕ). load_at false s.mem dir counter_1) (sym (cr3_first s.kernel i.directed run))
    ∙ l)

fetched :
    (b : Machine) (s : System) (v : ℕ)
    → Inv b s
    → s.kernel.current_task_idx ≡ 1
    → load_at true s.mem s.kernel.cr3 counter_2 ≡ some v
    → load32 s.mem shared ≡ v
fetched b s v i run l = some-injective (load32 s.mem shared) v (
    sym (load_at_2 b s.mem i.mapped)
    ∙ ap (λ (dir : ℕ). load_at true s.mem dir counter_2) (sym (cr3_second s.kernel i.directed run))
    ∙ l)

Work-Inv : (b : Machine) (s : System) {t : System} → Inv b s → Work s t → Inv b t
Work-Inv b s i (clear m run e st) = clear-Inv b s i m e (stored b s 0 m i run st)
Work-Inv b s i (load v run e l) = load-Inv b s i v e (loaded b s v i run l)
Work-Inv b s i (store v m run e st) = store-Inv b s i v m e (stored b s (add32 v 1) m i run st)
Work-Inv b s i (syscall v run l) = syscall-Inv b s i v (fetched b s v i run l)

Step-Inv : (b : Machine) (s : System) {t : System} → Inv b s → Step s t → Inv b t
Step-Inv b s i (tick c) = tick-Inv b s i c
Step-Inv b s i (work w) = Work-Inv b s i w

Reach-Inv : (b : Machine) {f1 b1 f2 b2 : ℕ} {s : System} → Reach b f1 b1 f2 b2 s → Inv b s
Reach-Inv b {f1} {b1} {f2} {b2} start = boot-Inv b f1 b1 f2 b2
Reach-Inv b (later {s} r st) = Step-Inv b s (Reach-Inv b r) st

Counts-AtPc : (p : Pc) (g word n : ℕ) (vs : List ℕ) → AtPc g p word n vs → Counts g n vs
Counts-AtPc clearing g word n vs a = early n vs a.2
Counts-AtPc loading g word n vs a = a.1
Counts-AtPc (storing v) g word n vs a = a.2

-- However clock interrupts cut into the two tasks, the values that the second task has printed are,
-- from the last one back, counts of increments that the first task had completed, each at most
-- the next one and none more than there are by now, modulo 2^32; only the first values printed may
-- be the word that memory held before the first task cleared it.
pub printed-Counts :
    (b : Machine) {f1 b1 f2 b2 : ℕ} {s : System}
    → Reach b f1 b1 f2 b2 s
    → Counts (load32 (tables b) shared) s.rounds s.printed
printed-Counts b {f1} {b1} {f2} {b2} {s} r =
    Counts-AtPc s.pc (load32 (tables b) shared) (load32 s.mem shared) s.rounds s.printed
      (Reach-Inv b r).progress

module _ (b : Machine) (s : System) (i : Inv b s) where
  can_store :
      (v : ℕ)
      → s.kernel.current_task_idx ≡ 0
      → store_at false s.mem s.kernel.cr3 counter_1 v ≡ some (store32 s.mem shared v)
  can_store v run =
      ap (λ (dir : ℕ). store_at false s.mem dir counter_1 v) (cr3_first s.kernel i.directed run)
      ∙ store_at_1 b s.mem i.mapped v

  can_load :
      s.kernel.current_task_idx ≡ 0
      → load_at false s.mem s.kernel.cr3 counter_1 ≡ some (load32 s.mem shared)
  can_load run =
      ap (λ (dir : ℕ). load_at false s.mem dir counter_1) (cr3_first s.kernel i.directed run)
      ∙ load_at_1 b s.mem i.mapped

  can_fetch :
      s.kernel.current_task_idx ≡ 1
      → load_at true s.mem s.kernel.cr3 counter_2 ≡ some (load32 s.mem shared)
  can_fetch run =
      ap (λ (dir : ℕ). load_at true s.mem dir counter_2) (cr3_second s.kernel i.directed run)
      ∙ load_at_2 b s.mem i.mapped

  first_works : (p : Pc) → s.pc ≡ p → s.kernel.current_task_idx ≡ 0 → (t : System) × Work s t
  first_works clearing e run = (_, clear _ run e (can_store 0 run))
  first_works loading e run = (_, load _ run e (can_load run))
  first_works (storing v) e run = (_, store v _ run e (can_store (add32 v 1) run))

-- No access to the counter faults: in every state that is reached, the task that runs has a step,
-- the first one at each place of its loop, where its stores find the right to write in both levels of
-- the tables, and the second one with its system call.
pub Reach-Work :
    (b : Machine) {f1 b1 f2 b2 : ℕ} {s : System}
    → Reach b f1 b1 f2 b2 s
    → (s.kernel.current_task_idx ≡ 0) ⊎ (s.kernel.current_task_idx ≡ 1)
    → (t : System) × Work s t
Reach-Work b {s = s} r (inl run) = first_works b s (Reach-Inv b r) s.pc refl run
Reach-Work b {s = s} r (inr run) = (_, syscall _ run (can_fetch b s (Reach-Inv b r) run))
