-- ===== src/Sched/Invariant.antt =====
-- What holds between two clock interrupts.
use secos_ng.Base.{
  ℕ, ◌≡◌, ap, subst, subst⁻¹, ◌⊎◌, inl, inr, arith, ◌==◌, if◌then◌else◌, [], ◌∷◌, ◌++◌,
}
use secos_ng.Segment.{d3_sel}
use secos_ng.Sched.{
  Context, Kernel, no_task, task_at, clock_interrupt_handler, printing_counter, increasing_counter,
  eoi,
}

-- Task `i` runs, on its own directory and with its own kernel stack.
pub record Runs (i : ℕ) (k : Kernel) : Type 0 where
  pub index : k.current_task_idx ≡ i
  pub is_task : (i ≡ 0) ⊎ (i ≡ 1)
  pub stack : k.esp0 ≡ (task_at k i).interrupt_stack
  pub directory : k.cr3 ≡ (task_at k i).pgd

-- No task has been entered yet, or one runs.
pub data IsValid (k : Kernel) : Type 0 where
  idle : k.current_task_idx ≡ no_task → IsValid k
  running : (i : ℕ) → Runs i k → IsValid k

-- The one whose turn it is.
abbrev turn : Kernel → ℕ
turn k = if k.current_task_idx == 0 then 1 else 0

tick-Runs-0 : {k : Kernel} (c : Context) → Runs 0 k → Runs 1 (clock_interrupt_handler c k).0
unfolding clock_interrupt_handler
tick-Runs-0 c r = ground arith

tick-Runs-1 : {k : Kernel} (c : Context) → Runs 1 k → Runs 0 (clock_interrupt_handler c k).0
unfolding clock_interrupt_handler
tick-Runs-1 c r = ground arith

tick-Runs_idle :
    (k : Kernel) (c : Context)
    → k.current_task_idx ≡ no_task
    → Runs 0 (clock_interrupt_handler c k).0
unfolding clock_interrupt_handler
tick-Runs_idle k c r = ground arith

turn_of : (k : Kernel) (i : ℕ) → k.current_task_idx ≡ i → turn k ≡ (if i == 0 then 1 else 0)
turn_of k i e = ap (λ n. if n == 0 then 1 else 0) e

at_Runs :
    (k : Kernel) (c : Context) (i : ℕ)
    → (i ≡ 0) ⊎ (i ≡ 1)
    → Runs i k
    → Runs (turn k) (clock_interrupt_handler c k).0
at_Runs k c i (inl e) r =
    let r0 = subst (λ j. Runs j k) e r in
    subst⁻¹ (λ t. Runs t (clock_interrupt_handler c k).0) (turn_of k 0 r0.index) (tick-Runs-0 c r0)
at_Runs k c i (inr e) r =
    let r1 = subst (λ j. Runs j k) e r in
    subst⁻¹ (λ t. Runs t (clock_interrupt_handler c k).0) (turn_of k 1 r1.index) (tick-Runs-1 c r1)

next_Runs : (k : Kernel) (c : Context) → IsValid k → Runs (turn k) (clock_interrupt_handler c k).0
next_Runs k c (idle e) =
    subst⁻¹ (λ t. Runs t (clock_interrupt_handler c k).0) (turn_of k no_task e)
      (tick-Runs_idle k c e)
next_Runs k c (running i r) = at_Runs k c i r.is_task r

handler_data : (k : Kernel) (c : Context) → (clock_interrupt_handler c k).0.data_sel ≡ d3_sel
unfolding clock_interrupt_handler
handler_data k c = ground arith

handler_log :
    (k : Kernel) (c : Context)
    → IsValid k
    → (clock_interrupt_handler c k).0.log
      ≡ k.log ++ (if turn k == 1 then printing_counter else increasing_counter) ∷ eoi ∷ []
unfolding clock_interrupt_handler
handler_log k c (idle e) = ground arith
handler_log k c (running i r) = ground arith

-- After a clock interrupt the other task runs, or the first one where none did, on its own
-- directory and kernel stack; the log has one message and one end of interrupt more.
pub clock_interrupt_handler-Runs :
    {k : Kernel} (c : Context)
    → IsValid k
    → let k' = (clock_interrupt_handler c k).0 in
      Runs (turn k) k'
      × (k'.data_sel ≡ d3_sel)
      × (k'.log
          ≡ k.log ++ (if turn k == 1 then printing_counter else increasing_counter) ∷ eoi ∷ [])
unfolding clock_interrupt_handler
clock_interrupt_handler-Runs {k} c v = (next_Runs k c v, handler_data k c, handler_log k c v)
