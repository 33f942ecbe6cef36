-- ===== src/Sched/Switch/Stages.antt =====
-- The writes of the clock interrupt's handler, one after the other: the interrupted task's context,
-- the TSS and the index, and the copy of the next context onto the stack.
use secos_ng.Base.{ℕ, ◌+◌, ◌^◌, ◌≤◌, ◌<◌, ◌≡◌, ◌⊎◌, inl, inr, refl, ap, ◌∙◌, sym, arith}
use secos_ng.Memory.{Memory, IsBytes, store32, load32, memcpy}
use secos_ng.Memory.Words.{load32-store32, store32-outside, load32-bound}
use secos_ng.Memory.Copy.{Separate, store32-IsBytes}
use secos_ng.Cpu.Push.{words, load32-shift}
use secos_ng.Sched.{Kernel, Task, task_at, save_context}
use secos_ng.Sched.Switch.{Globals, task_addr, context_addr, context_size, switch_memory}
use secos_ng.Sched.Switch.Layout.{
  HasTask, HasTask-same, Holds, LaidOut, copy-outside, save_at, save_at-outside, save_at-HasTask,
}

module _ (g : Globals) (ctx : ℕ) (l : LaidOut g ctx) (m : Memory) (b : IsBytes m) (k : Kernel)
    (h : Holds g m k) where
  pub context_apart : (i : ℕ) → (i ≡ 0) ⊎ (i ≡ 1) → Separate (context_addr g i) ctx context_size
  context_apart i o = record {
    apart = omega (arith, o, l.tasks_ctx);
    room_a = omega (arith, o, l.in_range);
    room_b = omega (arith, l.in_range);
  }

  save_at-words :
      (i : ℕ)
      → (i ≡ 0) ⊎ (i ≡ 1)
      → (a : ℕ) → (a + 4 ≤ g.tasks) ⊎ (g.tasks + 160 ≤ a)
      → a + 4 ≤ 2 ^ 32
      → load32 (save_at m (task_addr g i) ctx) a ≡ load32 m a
  save_at-words i o a p r =
      load32-shift m (save_at m (task_addr g i) ctx) a a r r
        (λ j t. save_at-outside m (task_addr g i) ctx b (context_apart i o) (a + j) (omega arith))

  pub save_at-Holds-0 :
      Holds g
        (save_at m (task_addr g 0) ctx)
        (record k { task0 = save_context (words m ctx 15) k.task0 })
  save_at-Holds-0 = record {
    current =
        save_at-words 0 (inl refl) g.current l.current_tasks (omega (arith, l.current)) ∙ h.current;
    esp0 = save_at-words 0 (inl refl) g.tss_esp0 l.tss_tasks (omega (arith, l.tss_esp0)) ∙ h.esp0;
    first =
        save_at-HasTask m (task_addr g 0) ctx b (context_apart 0 (inl refl)) k.task0
          (omega (arith, l.in_range)) h.first;
    second =
        HasTask-same m _ (task_addr g 1) k.task1 (omega (arith, l.in_range))
          (λ x p q.
            save_at-outside m (task_addr g 0) ctx b (context_apart 0 (inl refl)) x (omega arith))
          h.second;
  }

  pub save_at-Holds-1 :
      Holds g
        (save_at m (task_addr g 1) ctx)
        (record k { task1 = save_context (words m ctx 15) k.task1 })
  save_at-Holds-1 = record {
    current =
        save_at-words 1 (inr refl) g.current l.current_tasks (omega (arith, l.current)) ∙ h.current;
    esp0 = save_at-words 1 (inr refl) g.tss_esp0 l.tss_tasks (omega (arith, l.tss_esp0)) ∙ h.esp0;
    first =
        HasTask-same m _ (task_addr g 0) k.task0 (omega (arith, l.in_range))
          (λ x p q.
            save_at-outside m (task_addr g 1) ctx b (context_apart 1 (inr refl)) x (omega arith))
          h.first;
    second =
        save_at-HasTask m (task_addr g 1) ctx b (context_apart 1 (inr refl)) k.task1
          (omega (arith, l.in_range)) h.second;
  }

  pub copy-Holds :
      (i : ℕ) → (i ≡ 0) ⊎ (i ≡ 1) → Holds g (memcpy ctx (context_addr g i) context_size m).1 k
  copy-Holds i o = record {
    current = copy_word g.current l.current_ctx (omega (arith, l.current)) ∙ h.current;
    esp0 = copy_word g.tss_esp0 l.tss_ctx (omega (arith, l.tss_esp0)) ∙ h.esp0;
    first = copy_task 0 (inl refl) k.task0 h.first;
    second = copy_task 1 (inr refl) k.task1 h.second;
  }
    where
      back : Separate ctx (context_addr g i) context_size
      back = record {
        apart = omega (arith, o, l.tasks_ctx);
        room_a = omega (arith, l.in_range);
        room_b = omega (arith, o, l.in_range);
      }

      copy_word :
          (a : ℕ)
          → (a + 4 ≤ ctx) ⊎ (ctx + context_size ≤ a)
          → a + 4 ≤ 2 ^ 32
          → load32 (memcpy ctx (context_addr g i) context_size m).1 a ≡ load32 m a
      copy_word a p r =
          load32-shift m (memcpy ctx (context_addr g i) context_size m).1 a a r r
            (λ j t. copy-outside m ctx (context_addr g i) (a + j) b back (omega arith))

      copy_task :
          (j : ℕ)
          → (j ≡ 0) ⊎ (j ≡ 1)
          → (t : Task) → HasTask m (task_addr g j) t
          → HasTask (memcpy ctx (context_addr g i) context_size m).1 (task_addr g j) t
      copy_task j q t =
          HasTask-same m (memcpy ctx (context_addr g i) context_size m).1 (task_addr g j) t
            (omega (arith, q, l.in_range))
            (λ x p r.
              copy-outside m ctx (context_addr g i) x b back (omega (arith, q, l.tasks_ctx)))

  abbrev stack_of : ℕ → ℕ
  stack_of next = load32 m (task_addr g next + 8)

  pub switch-IsBytes : (next : ℕ) → IsBytes (switch_memory g next m)
  unfolding switch_memory
  switch-IsBytes next =
      store32-IsBytes _ g.current next (store32-IsBytes m g.tss_esp0 (stack_of next) b)

  switch-outside :
      (next x : ℕ)
      → (x < g.current) ⊎ (g.current + 4 ≤ x)
      → (x < g.tss_esp0) ⊎ (g.tss_esp0 + 4 ≤ x)
      → switch_memory g next m x ≡ m x
  unfolding switch_memory load32
  switch-outside next x p q =
      store32-outside (store32 m g.tss_esp0 (stack_of next)) g.current next x
        (omega (arith, l.current)) p
      ∙ store32-outside m g.tss_esp0 (stack_of next) x (omega (arith, l.tss_esp0)) q

  switch_task :
      (next i : ℕ)
      → (i ≡ 0) ⊎ (i ≡ 1)
      → (t : Task) → HasTask m (task_addr g i) t
      → HasTask (switch_memory g next m) (task_addr g i) t
  switch_task next i q t =
      HasTask-same m (switch_memory g next m) (task_addr g i) t (omega (arith, q, l.in_range))
        (λ x p r.
          switch-outside next x (omega (arith, q, l.current_tasks)) (omega (arith, q, l.tss_tasks)))

  stack_at : (next : ℕ) → (next ≡ 0) ⊎ (next ≡ 1) → stack_of next ≡ (task_at k next).interrupt_stack
  stack_at next (inl e) =
      ap stack_of e
      ∙ h.first.interrupt_stack
      ∙ sym (ap (λ (n : ℕ). (task_at k n).interrupt_stack) e)
  stack_at next (inr e) =
      ap stack_of e
      ∙ h.second.interrupt_stack
      ∙ sym (ap (λ (n : ℕ). (task_at k n).interrupt_stack) e)

  switch_current :
      (next : ℕ) → (next ≡ 0) ⊎ (next ≡ 1) → load32 (switch_memory g next m) g.current ≡ next
  unfolding switch_memory load32
  switch_current next o =
      load32-store32 (store32 m g.tss_esp0 (stack_of next)) g.current next g.current l.current
        l.current (omega arith)
      ∙ ground arith

  switch_esp0 :
      (next : ℕ)
      → (next ≡ 0) ⊎ (next ≡ 1)
      → load32 (switch_memory g next m) g.tss_esp0 ≡ (task_at k next).interrupt_stack
  unfolding switch_memory load32
  switch_esp0 next o =
      load32-store32 (store32 m g.tss_esp0 (stack_of next)) g.current next g.tss_esp0 l.current
        l.tss_esp0 (omega arith)
      ∙ ground (arith, l.apart)
      ∙ load32-store32 m g.tss_esp0 (stack_of next) g.tss_esp0 l.tss_esp0 l.tss_esp0
          (load32-bound m _ b)
      ∙ ground (arith, stack_at next o)

  pub switch-Holds :
      (next : ℕ)
      → (next ≡ 0) ⊎ (next ≡ 1)
      → Holds g
          (switch_memory g next m)
          (record k { esp0 = (task_at k next).interrupt_stack; current_task_idx = next })
  switch-Holds next o = record {
    current = switch_current next o;
    esp0 = switch_esp0 next o;
    first = switch_task next 0 (inl refl) k.task0 h.first;
    second = switch_task next 1 (inr refl) k.task1 h.second;
  }
