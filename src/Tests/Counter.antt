-- ===== src/Tests/Counter.antt =====
-- The two tasks of tp_exam/tp.c at a concrete run.
use secos_ng.Base.{ℕ, ◌≡◌, inl, refl, [], length}
use secos_ng.Memory.{Memory, load32, store32}
use secos_ng.Paging.{Machine}
use secos_ng.Paging.Read.{tables}
use secos_ng.Sched.{Context, clock_interrupt_handler, config, save_current}
use secos_ng.Sched.Counter.{System, tick, work, Work, clearing, clear, load, store, syscall}
use secos_ng.Sched.Counter.Access.{
  shared, HasTables, store_at_1, load_at_1, load_at_2, store32-HasTables,
}
use secos_ng.Sched.Counter.Reach.{Reach, start, later, Counts}
use secos_ng.Sched.Counter.Safety.{printed-Counts, Reach-Work}

abbrev fresh : Machine
fresh = record { mem = λ x. 0x5a; cr0 = 0x11; cr3 = 0 }

abbrev Reached : System → Type 0
Reached = Reach fresh 0x303000 0x800000 0x304000 0x800000

abbrev no_context : Context
no_context = []

abbrev with_word : ℕ → Memory
with_word v = store32 (tables fresh) shared v

-- The first clock interrupt starts the first task, which clears the counter and increments it; the
-- second one starts the second task, whose system call prints the counter.
first_task : (s : System) × Reached s × (s.kernel.current_task_idx ≡ 0) × (s.pc ≡ clearing)
unfolding config clock_interrupt_handler save_current
first_task = (_, later start (tick no_context), refl, refl)

Reach-Work_example : (t : System) × Work first_task.0 t
Reach-Work_example = Reach-Work fresh first_task.1 (inl first_task.2)

cleared : HasTables fresh (with_word 0)
cleared = store32-HasTables fresh (tables fresh) 0 (λ x lt. refl)

-- The first task's three accesses, up to the end of its first round.
one_round :
    (s : System) × Reached s × (s.kernel.current_task_idx ≡ 0) × (s.rounds ≡ 1) × (s.printed ≡ [])
unfolding config clock_interrupt_handler save_current
one_round = (
  _,
  later
      (later
        (later (later start (tick no_context))
          (work (clear _ refl refl (store_at_1 fresh (tables fresh) (λ x lt. refl) 0))))
        (work (load _ refl refl (load_at_1 fresh (with_word 0) cleared))))
      (work (store _ _ refl refl (store_at_1 fresh (with_word 0) cleared _))),
  refl,
  refl,
  refl,
)

-- The second task's system call after that.
one_print : (s : System) × Reached s × (s.rounds ≡ 1) × (length s.printed ≡ 1)
unfolding one_round config clock_interrupt_handler save_current
one_print = (
  _,
  later (later one_round.1 (tick no_context))
      (work (syscall _ refl (load_at_2 fresh _ (store32-HasTables fresh (with_word 0) _ cleared)))),
  refl,
  refl,
)

printed-Counts_example :
    Counts (load32 (tables fresh) shared) one_print.0.rounds one_print.0.printed
printed-Counts_example = printed-Counts fresh one_print.1
