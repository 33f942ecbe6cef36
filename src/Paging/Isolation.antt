-- ===== src/Paging/Isolation.antt =====
-- What the two tasks' directories share, and what they keep apart.
use mathlib.Core.Option.{some}
use secos_ng.Base.{ℕ, ◌+◌, ◌^◌, ◌≤◌, ◌<◌, ◌≡◌, sym, ◌∙◌, arith, true}
use secos_ng.Paging.{pgd_task_1, pgd_task_2, Machine}
use secos_ng.Paging.Walk.{Mapping, translate}
use secos_ng.Paging.Read.{tables}
use secos_ng.Paging.Maps.{task_1_map, task_2_map, translate-pgd_task_1, translate-pgd_task_2, to}

maps_apart :
    (va vb : ℕ) {a b : Mapping}
    → task_1_map va ≡ some a
    → task_2_map vb ≡ some b
    → a.user ≡ true
    → b.user ≡ true
    → a.phys ≡ b.phys
    → (0xe00000 ≤ a.phys) × (a.phys < 0xe01000)
unfolding task_1_map task_2_map
maps_apart va vb ha hb ua ub e = ground arith

-- Whatever ring 3 reaches at one address under the first task's directory and at another under the
-- second one's lies apart, but for the shared page at 0xe00000.
pub tasks_isolated :
    (s : Machine) (va vb : ℕ)
    → va < 2 ^ 32
    → vb < 2 ^ 32
    → (a b : Mapping) → translate (tables s) pgd_task_1 va ≡ some a
    → translate (tables s) pgd_task_2 vb ≡ some b
    → a.user ≡ true
    → b.user ≡ true
    → a.phys ≡ b.phys
    → (0xe00000 ≤ a.phys) × (a.phys < 0xe01000)
tasks_isolated s va vb ha hb a b ta tb ua ub e =
    maps_apart va vb (sym (translate-pgd_task_1 s va ha) ∙ ta)
      (sym (translate-pgd_task_2 s vb hb) ∙ tb) ua ub e

-- Byte `k` of the shared page is at 0x800000 + k for the first task, where it writes the counter,
-- and at 0x400000 + k for the second one, where it reads it: both reach the same byte from ring 3.
pub counter_shared :
    (s : Machine) (k : ℕ)
    → k < 4096
    → (translate (tables s) pgd_task_1 (0x800000 + k) ≡ to (0xe00000 + k) true)
      × (translate (tables s) pgd_task_2 (0x400000 + k) ≡ to (0xe00000 + k) true)
unfolding task_1_map task_2_map
counter_shared s k h = (
  translate-pgd_task_1 s (0x800000 + k) (omega arith) ∙ ground arith,
  translate-pgd_task_2 s (0x400000 + k) (omega arith) ∙ ground arith,
)
