-- ===== src/Sched/Switch/Layout.antt =====
-- How memory holds the globals of the scheduler, and what its writes leave of them.
use secos_ng.Base.{ℕ, ◌+◌, ◌^◌, ◌≤◌, ◌<◌, ◌≡◌, ◌⊎◌, inl, ◌∙◌, arith}
use secos_ng.Memory.{Memory, IsBytes, store8, load32, memcpy}
use secos_ng.Memory.Words.{IsWord}
use secos_ng.Memory.Copy.{Separate, memcpy_lem, memcpy-IsBytes, store8-IsBytes}
use secos_ng.Cpu.Push.{words, words-shift, load32-shift}
use secos_ng.Sched.{Kernel, Task}
use secos_ng.Sched.Switch.{Globals, task_addr, context_size}

-- The member words of a task, its context and its flag.
pub record HasTask (m : Memory) (a : ℕ) (t : Task) : Type 0 where
  pub function : load32 m a ≡ t.function
  pub stack : load32 m (a + 4) ≡ t.stack
  pub interrupt_stack : load32 m (a + 8) ≡ t.interrupt_stack
  pub pgd : load32 m (a + 12) ≡ t.pgd
  pub context : words m (a + 16) 15 ≡ t.context
  pub context_saved : m (a + 76) ≡ t.context_saved

pub record Holds (g : Globals) (m : Memory) (k : Kernel) : Type 0 where
  pub current : load32 m g.current ≡ k.current_task_idx
  pub esp0 : load32 m g.tss_esp0 ≡ k.esp0
  pub first : HasTask m (task_addr g 0) k.task0
  pub second : HasTask m (task_addr g 1) k.task1

-- Where the globals and the context may be.
pub record LaidOut (g : Globals) (ctx : ℕ) : Type 0 where
  pub current : IsWord g.current
  pub tss_esp0 : IsWord g.tss_esp0
  pub in_range : (g.tasks + 160 ≤ 2 ^ 32) × (ctx + context_size ≤ 2 ^ 32)
  pub apart : (g.current + 4 ≤ g.tss_esp0) ⊎ (g.tss_esp0 + 4 ≤ g.current)
  pub current_tasks : (g.current + 4 ≤ g.tasks) ⊎ (g.tasks + 160 ≤ g.current)
  pub tss_tasks : (g.tss_esp0 + 4 ≤ g.tasks) ⊎ (g.tasks + 160 ≤ g.tss_esp0)
  pub current_ctx : (g.current + 4 ≤ ctx) ⊎ (ctx + context_size ≤ g.current)
  pub tss_ctx : (g.tss_esp0 + 4 ≤ ctx) ⊎ (ctx + context_size ≤ g.tss_esp0)
  pub tasks_ctx : (g.tasks + 160 ≤ ctx) ⊎ (ctx + context_size ≤ g.tasks)

-- A task whose 77 bytes are the same in two memories.
pub HasTask-same :
    (m m' : Memory) (a : ℕ) (t : Task)
    → a + 80 ≤ 2 ^ 32
    → ((x : ℕ) → a ≤ x → x < a + 77 → m' x ≡ m x)
    → HasTask m a t
    → HasTask m' a t
HasTask-same m m' a t r h s =
    let word : (d : ℕ) → d < 16 → load32 m' (a + d) ≡ load32 m (a + d) = λ d l.
      load32-shift m m' (a + d) (a + d) (omega arith) (omega arith)
        (λ j i. h (a + d + j) (omega arith) (omega arith)) in
    record {
      function =
          load32-shift m m' a a (omega arith) (omega arith)
            (λ j i. h (a + j) (omega arith) (omega arith))
          ∙ s.function;
      stack = word 4 (omega arith) ∙ s.stack;
      interrupt_stack = word 8 (omega arith) ∙ s.interrupt_stack;
      pgd = word 12 (omega arith) ∙ s.pgd;
      context =
          words-shift 15 m m' (a + 16) (a + 16) (omega arith) (omega arith)
            (λ j i. h (a + 16 + j) (omega arith) (omega arith))
          ∙ s.context;
      context_saved = h (a + 76) (omega arith) (omega arith) ∙ s.context_saved;
    }

-- What the copy of a context leaves at a byte outside of it.
pub copy-outside :
    (m : Memory) (d s x : ℕ)
    → IsBytes m
    → Separate d s context_size
    → (x < d) ⊎ (d + context_size ≤ x)
    → (memcpy d s context_size m).1 x ≡ m x
copy-outside m d s x b h o = ground (arith, (memcpy_lem d s context_size m b h).1 x)

pub words-copy :
    (m : Memory) (d s : ℕ)
    → IsBytes m
    → Separate d s context_size
    → words (memcpy d s context_size m).1 d 15 ≡ words m s 15
words-copy m d s b h =
    words-shift 15 m (memcpy d s context_size m).1 d s (omega (arith, h.room_a))
      (omega (arith, h.room_b))
      (λ j l. ground (arith, (memcpy_lem d s context_size m b h).1 (d + j)))

-- One task's context and flag.
unfoldable pub save_at : Memory → (a ctx : ℕ) → Memory
save_at m a ctx = store8 (memcpy (a + 16) ctx context_size m).1 (a + 76) 1

module _ (m : Memory) (a ctx : ℕ) (b : IsBytes m) (h : Separate (a + 16) ctx context_size) where
  pub save_at-outside : (x : ℕ) → (x < a + 16) ⊎ (a + 77 ≤ x) → save_at m a ctx x ≡ m x
  unfolding save_at
  save_at-outside x o = ground (arith, copy-outside m (a + 16) ctx x b h)

  pub save_at-IsBytes : IsBytes (save_at m a ctx)
  unfolding save_at
  save_at-IsBytes = store8-IsBytes _ (a + 76) 1 (memcpy-IsBytes (a + 16) ctx context_size m b h)

  pub save_at-HasTask :
      (t : Task)
      → a + 80 ≤ 2 ^ 32
      → HasTask m a t
      → HasTask (save_at m a ctx) a (record t { context = words m ctx 15; context_saved = 1 })
  unfolding save_at
  save_at-HasTask t r s =
      let m' = save_at m a ctx in
      let copied = (memcpy (a + 16) ctx context_size m).1 in
      let word : (d : ℕ) → d ≤ 12 → load32 m' (a + d) ≡ load32 m (a + d) = λ d l.
        load32-shift m m' (a + d) (a + d) (omega arith) (omega arith)
          (λ j i. save_at-outside (a + d + j) (inl (omega arith))) in
      record {
        function =
            load32-shift m m' a a (omega arith) (omega arith)
              (λ j i. save_at-outside (a + j) (inl (omega arith)))
            ∙ s.function;
        stack = word 4 (omega arith) ∙ s.stack;
        interrupt_stack = word 8 (omega arith) ∙ s.interrupt_stack;
        pgd = word 12 (omega arith) ∙ s.pgd;
        context =
            words-shift 15 copied m' (a + 16) (a + 16) (omega arith) (omega arith)
              (λ j l. ground arith)
            ∙ words-copy m (a + 16) ctx b h;
        context_saved = ground arith;
      }
