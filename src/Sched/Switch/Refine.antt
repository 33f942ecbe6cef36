-- ===== src/Sched/Switch/Refine.antt =====
-- The handler on memory does what the one on records does.
use secos_ng.Base.{
  ℕ, ◌+◌, ◌%◌, ◌≡◌, ◌⊎◌, inl, inr, refl, ap, ap₂, ◌∙◌, subst⁻¹, arith, Bool, true, false, ◌==◌,
  if◌then◌else◌, List, [], ◌∷◌, ◌++◌, add32,
}
use secos_ng.Memory.{Memory, IsBytes, load32, memcpy}
use secos_ng.Memory.Copy.{Separate, memcpy-IsBytes}
use secos_ng.Cpu.Push.{words}
use secos_ng.Segment.{d3_sel, c3_sel}
use secos_ng.Sched.{
  Kernel, Task, Resume, restore, enter, no_task, task_at, save_current, save_context,
  clock_interrupt_handler, printing_counter, increasing_counter, eoi,
}
use secos_ng.Sched.Invariant.{IsValid, idle, running}
use secos_ng.Sched.Switch.{
  Globals, Machine, task_addr, context_addr, saved_addr, context_size, save_memory, switch_memory,
  clock_handler,
}
use secos_ng.Sched.Switch.Layout.{HasTask, Holds, LaidOut, words-copy, save_at, save_at-IsBytes}
use secos_ng.Sched.Switch.Stages.{
  context_apart, save_at-Holds-0, save_at-Holds-1, copy-Holds, switch-IsBytes, switch-Holds,
}

-- A machine that holds the globals, the registers and the output of a kernel.
pub record Matches (g : Globals) (s : Machine) (k : Kernel) : Type 0 where
  pub globals : Holds g s.mem k
  pub bytes : IsBytes s.mem
  pub cr3 : s.cr3 ≡ k.cr3
  pub data_sel : s.data_sel ≡ k.data_sel
  pub log : s.log ≡ k.log

-- The same way back, too.
pub record Agrees (g : Globals) (s : Machine × Resume) (k : Kernel × Resume) : Type 0 where
  pub machine : Matches g s.0 k.0
  pub resume : s.1 ≡ k.1

is_index :
    {k : Kernel}
    → IsValid k
    → (k.current_task_idx ≡ no_task) ⊎ ((k.current_task_idx ≡ 0) ⊎ (k.current_task_idx ≡ 1))
is_index (idle e) = inl e
is_index (running i r) = omega (arith, r.index, r.is_task)

module _ (g : Globals) (ctx : ℕ) (l : LaidOut g ctx) where
  -- What the first stage leaves.
  Saved : Memory → Memory → Kernel → Type 0
  Saved m m' k = Holds g m' (save_current (words m ctx 15) k) × IsBytes m'

  save_to : Memory → ℕ → Memory
  save_to m i = if i == no_task then m else save_at m (task_addr g i) ctx

  saved_by : List ℕ → Kernel → ℕ → Kernel
  saved_by c k i =
      if i == no_task
      then k
      else if i == 0
      then record k { task0 = save_context c k.task0 }
      else record k { task1 = save_context c k.task1 }

  index-Saved :
      (m : Memory) (k : Kernel) (i : ℕ)
      → Holds g m k
      → k.current_task_idx ≡ i
      → Holds g (save_to m i) (saved_by (words m ctx 15) k i) × IsBytes (save_to m i)
      → Saved m (save_memory g ctx m) k
  unfolding Saved save_to saved_by save_memory save_at save_current
  index-Saved m k i h e (held, b) =
      let at : save_memory g ctx m ≡ save_to m i = ap (save_to m) (h.current ∙ e) in
      (
        subst⁻¹ (λ x. Holds g x (save_current (words m ctx 15) k)) at
            (subst⁻¹ (Holds g (save_to m i)) (ap (saved_by (words m ctx 15) k) e) held),
        subst⁻¹ IsBytes at b,
      )

  save-Saved :
      (m : Memory) (k : Kernel)
      → IsBytes m
      → Holds g m k
      → (k.current_task_idx ≡ no_task) ⊎ ((k.current_task_idx ≡ 0) ⊎ (k.current_task_idx ≡ 1))
      → Saved m (save_memory g ctx m) k
  unfolding save_to saved_by
  save-Saved m k b h (inl e) = index-Saved m k no_task h e (h, b)
  save-Saved m k b h (inr (inl e)) = index-Saved m k 0 h e (
    save_at-Holds-0 g ctx l m b k h,
    save_at-IsBytes m (task_addr g 0) ctx b (context_apart g ctx l m b k h 0 (inl refl)),
  )
  save-Saved m k b h (inr (inr e)) = index-Saved m k 1 h e (
    save_at-Holds-1 g ctx l m b k h,
    save_at-IsBytes m (task_addr g 1) ctx b (context_apart g ctx l m b k h 1 (inr refl)),
  )

  task_Holds :
      (m : Memory) (k : Kernel) (i : ℕ)
      → Holds g m k
      → (i ≡ 0) ⊎ (i ≡ 1)
      → HasTask m (task_addr g i) (task_at k i)
  task_Holds m k i h (inl e) = subst⁻¹ (λ j. HasTask m (task_addr g j) (task_at k j)) e h.first
  task_Holds m k i h (inr e) = subst⁻¹ (λ j. HasTask m (task_addr g j) (task_at k j)) e h.second

  -- The end of the handler, by whether the next task's context has been saved.
  left : Bool → Machine → ℕ → Machine × Resume
  left saved s next =
      let copied = (memcpy ctx (context_addr g next) context_size s.mem).1 in
      if saved then (record s { mem = copied }, restore (words copied ctx 15)) else (
        s,
        enter d3_sel (load32 s.mem (task_addr g next + 4)) c3_sel (load32 s.mem (task_addr g next)),
      )

  left_kernel : Bool → Kernel → Task → Kernel × Resume
  left_kernel saved k t =
      if saved then (k, restore t.context) else (k, enter d3_sel t.stack c3_sel t.function)

  left-Agrees :
      (saved : Bool) (s : Machine) (k : Kernel) (next : ℕ)
      → (next ≡ 0) ⊎ (next ≡ 1)
      → Matches g s k
      → Agrees g (left saved s next) (left_kernel saved k (task_at k next))
  unfolding left left_kernel
  left-Agrees true s k next o h =
      let apart = context_apart g ctx l s.mem h.bytes k h.globals next o in
      let back : Separate ctx (context_addr g next) context_size = record {
        apart = omega (arith, apart.apart);
        room_a = apart.room_b;
        room_b = apart.room_a;
      } in
      record {
        machine = record {
          globals = copy-Holds g ctx l s.mem h.bytes k h.globals next o;
          bytes = memcpy-IsBytes ctx (context_addr g next) context_size s.mem h.bytes back;
          cr3 = h.cr3;
          data_sel = h.data_sel;
          log = h.log;
        };
        resume = ap restore (
            words-copy s.mem ctx (context_addr g next) h.bytes back
            ∙ (task_Holds s.mem k next h.globals o).context);
      }
  left-Agrees false s k next o h =
      let t = task_Holds s.mem k next h.globals o in
      record { machine = h; resume = ap₂ (λ a e. enter d3_sel a c3_sel e) t.stack t.function }

  -- Before its end, with `next` the index of the next task.
  before_end : Machine → ℕ → Machine
  before_end s next =
      let m = save_memory g ctx s.mem in
      record {
        mem = switch_memory g next m;
        cr3 = load32 m (task_addr g next + 12);
        data_sel = d3_sel;
        log = s.log ++ (if next == 1 then printing_counter else increasing_counter) ∷ eoi ∷ [];
      }

  before_end_kernel : List ℕ → Kernel → ℕ → Kernel
  before_end_kernel c k next =
      let k1 = save_current c k in
      record k1 {
        data_sel = d3_sel;
        esp0 = (task_at k1 next).interrupt_stack;
        cr3 = (task_at k1 next).pgd;
        current_task_idx = next;
        log = k.log ++ (if next == 1 then printing_counter else increasing_counter) ∷ eoi ∷ [];
      }

  before_end-Matches :
      (s : Machine) (k : Kernel) (next : ℕ)
      → (next ≡ 0) ⊎ (next ≡ 1)
      → IsValid k
      → Matches g s k
      → Matches g (before_end s next) (before_end_kernel (words s.mem ctx 15) k next)
  unfolding before_end before_end_kernel Saved
  before_end-Matches s k next o v h =
      let (held, b) = save-Saved s.mem k h.bytes h.globals (is_index v) in
      let m = save_memory g ctx s.mem in
      let k1 = save_current (words s.mem ctx 15) k in
      let switched = switch-Holds g ctx l m b k1 held next o in
      record {
        globals = record {
          current = switched.current;
          esp0 = switched.esp0;
          first = switched.first;
          second = switched.second;
        };
        bytes = switch-IsBytes g ctx l m b k1 held next;
        cr3 = (task_Holds m k1 next held o).pgd;
        data_sel = refl;
        log =
            ap (λ xs. xs ++ (if next == 1 then printing_counter else increasing_counter) ∷ eoi ∷ [])
              h.log;
      }

  -- Where the globals and the interrupted context lie apart at their addresses, and memory,
  -- registers and output match a kernel between two clock interrupts, the handler on memory leaves
  -- what matches the kernel that the handler on records leaves of the context at `ctx`; the way back
  -- is the same one, to the same words at `ctx` or to the same new frame.
  pub clock_handler-refines :
      (s : Machine) (k : Kernel)
      → IsValid k
      → Matches g s k
      → Agrees g (clock_handler g ctx s) (clock_interrupt_handler (words s.mem ctx 15) k)
  unfolding clock_handler clock_interrupt_handler left left_kernel before_end before_end_kernel
  clock_handler-refines s k v h =
      let next = add32 k.current_task_idx 1 % 2 in
      let o : (next ≡ 0) ⊎ (next ≡ 1) = omega arith in
      let body = λ (i : ℕ). left ((before_end s i).mem (saved_addr g i) == 1) (before_end s i) i in
      let matched = before_end-Matches s k next o v h in
      let k2 = before_end_kernel (words s.mem ctx 15) k next in
      let t = task_at k2 next in
      let same : clock_handler g ctx s ≡ left (t.context_saved == 1) (before_end s next) next =
        ap (λ (i : ℕ). body (add32 i 1 % 2)) h.globals.current
        ∙ ap (λ (f : ℕ). left (f == 1) (before_end s next) next)
            (task_Holds (before_end s next).mem k2 next matched.globals o).context_saved in
      subst⁻¹ (λ x. Agrees g x (clock_interrupt_handler (words s.mem ctx 15) k)) same
        (left-Agrees (t.context_saved == 1) (before_end s next) k2 next o matched)
