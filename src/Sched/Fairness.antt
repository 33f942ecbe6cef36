-- ===== src/Sched/Fairness.antt =====
-- The whole run of the scheduler: who is resumed at each clock interrupt, and where.
use secos_ng.Base.{ℕ, ◌-◌, ◌≡◌, refl, ap, ap₂, arith, List, [], ◌∷◌}
use secos_ng.Segment.{c3_sel, d3_sel}
use secos_ng.Sched.{
  Context, Kernel, task_at, clock_interrupt_handler, config, Resume, restore, enter,
}

-- How each of the interrupts is left, given the context that each one finds on the stack.
pub resumes : List Context → Kernel → List Resume
resumes [] k = []
resumes (c ∷ cs) k = (clock_interrupt_handler c k).1 ∷ resumes cs (clock_interrupt_handler c k).0

-- Each context comes back at the interrupt after next.
unfoldable pub delayed : Context → List Context → List Resume
delayed p [] = []
delayed p (c ∷ cs) = restore p ∷ delayed c cs

-- Task `i` runs, and the other one waits with context `p`.
pub record Waits (i : ℕ) (p : Context) (k : Kernel) : Type 0 where
  pub index : k.current_task_idx ≡ i
  pub saved : (task_at k (1 - i)).context_saved ≡ 1
  pub context : (task_at k (1 - i)).context ≡ p

tick-Waits-0 :
    (c p : Context) (k : Kernel)
    → Waits 0 p k
    → Waits 1 c (clock_interrupt_handler c k).0 × ((clock_interrupt_handler c k).1 ≡ restore p)
unfolding clock_interrupt_handler
tick-Waits-0 c p k w = ground arith

tick-Waits-1 :
    (c p : Context) (k : Kernel)
    → Waits 1 p k
    → Waits 0 c (clock_interrupt_handler c k).0 × ((clock_interrupt_handler c k).1 ≡ restore p)
unfolding clock_interrupt_handler
tick-Waits-1 c p k w = ground arith

resumes-delayed-0 :
    (cs : List Context) (p : Context) (k : Kernel) → Waits 0 p k → resumes cs k ≡ delayed p cs
unfolding resumes delayed
resumes-delayed-0 [] p k w = refl
resumes-delayed-0 (c ∷ []) p k w = ap (λ r. r ∷ []) (tick-Waits-0 c p k w).1
resumes-delayed-0 (c ∷ d ∷ cs) p k w =
    let first = tick-Waits-0 c p k w in
    let k1 = (clock_interrupt_handler c k).0 in
    let second = tick-Waits-1 d c k1 first.0 in
    ap₂ (λ r rs. r ∷ rs) first.1
      (ap₂ (λ r rs. r ∷ rs) second.1
        (resumes-delayed-0 cs d (clock_interrupt_handler d k1).0 second.0))

start_Waits :
    (c0 c1 : Context) (f1 b1 f2 b2 : ℕ)
    → let k1 = (clock_interrupt_handler c0 (config f1 b1 f2 b2)).0 in
      Waits 1 c1 (clock_interrupt_handler c1 k1).0
unfolding clock_interrupt_handler config
start_Waits c0 c1 f1 b1 f2 b2 = record { index = refl; saved = refl; context = refl }

resumes-delayed-1 :
    (cs : List Context) (p : Context) (k : Kernel) → Waits 1 p k → resumes cs k ≡ delayed p cs
unfolding resumes delayed
resumes-delayed-1 [] p k w = refl
resumes-delayed-1 (c ∷ cs) p k w =
    ap₂ (λ r rs. r ∷ rs) (tick-Waits-1 c p k w).1
      (resumes-delayed-0 cs c (clock_interrupt_handler c k).0 (tick-Waits-1 c p k w).0)

-- From the state that `config` leaves, the first clock interrupt enters the first task at its
-- function and on its stack, the second one the second task in the same way, and every later
-- interrupt resumes the task that did not run, with the very context that it was interrupted in,
-- at the interrupt before. This holds for any number of interrupts.
pub resumes-config :
    (c0 c1 : Context) (cs : List Context) (f1 b1 f2 b2 : ℕ)
    → resumes (c0 ∷ c1 ∷ cs) (config f1 b1 f2 b2)
      ≡ enter d3_sel b1 c3_sel f1 ∷ enter d3_sel b2 c3_sel f2 ∷ delayed c1 cs
unfolding resumes config clock_interrupt_handler
resumes-config c0 c1 cs f1 b1 f2 b2 =
    ap (λ rs. enter d3_sel b1 c3_sel f1 ∷ enter d3_sel b2 c3_sel f2 ∷ rs)
      (resumes-delayed-1 cs c1 _ (start_Waits c0 c1 f1 b1 f2 b2))
