-- ===== src/Sched/Counter/Access.antt =====
-- Where the two pointers to the counter lead, in every memory that has the tables of `config_pgds`.
use secos_ng.Base.{ℕ, ◌+◌, ◌≤◌, ◌<◌, ◌≡◌, refl, ◌∙◌, arith, true, false, some}
use secos_ng.Memory.{Memory, load32, store32}
use secos_ng.Memory.Words.{load32-same, store32-below}
use secos_ng.Paging.{Machine, pgd_task_1, pgd_task_2}
use secos_ng.Paging.Walk.{pde_of, pte_of, translate, writable}
use secos_ng.Bitfield.{get}
use secos_ng.Paging.Regs.{pde_rw, pte_rw}
use secos_ng.Paging.Read.{tables}
use secos_ng.Paging.Maps.{
  to, walk, read_pgd_task_1, read_pgd_task_2, read_task_1_ptb_2, read_task_2_ptb_2,
}
use secos_ng.Sched.Counter.{reach, load_at, store_at, counter_1, counter_2}

-- The page that both tasks map, behind all tables.
abbrev pub shared : ℕ
shared = 0xe00000

-- A memory with the tables of `config_pgds`.
abbrev pub HasTables : Machine → Memory → Type 0
HasTables b m = (x : ℕ) → x < shared → m x ≡ tables b x

load32_same :
    (b : Machine) (m : Memory) (a : ℕ)
    → HasTables b m
    → a + 4 ≤ shared
    → load32 m a ≡ load32 (tables b) a
load32_same b m a h le = load32-same m (tables b) a (omega arith) (λ x lt. h x (omega arith))

-- The entries of a page that may be written.
writable_entries :
    (m : Memory) (dir va e f : ℕ)
    → pde_of m dir va ≡ e
    → pte_of m e va ≡ f
    → get pde_rw e ≡ 1
    → get pte_rw f ≡ 1
    → writable m dir va ≡ true
unfolding writable
writable_entries m dir va e f h k p q = ground (arith, h, k, p, q)

module _ (b : Machine) (m : Memory) (h : HasTables b m) where
  lead_1 : translate m pgd_task_1 counter_1 ≡ to shared true
  lead_1 =
      walk m pgd_task_1 counter_1 0x355007 0xe00007
        (load32_same b m _ h (omega arith) ∙ read_pgd_task_1 b 2 (omega arith))
        (load32_same b m _ h (omega arith) ∙ read_task_1_ptb_2 b 0 (omega arith))

  writable_1 : writable m pgd_task_1 counter_1 ≡ true
  unfolding writable pde_of pte_of
  writable_1 =
      let pde = load32_same b m _ h (omega arith) ∙ read_pgd_task_1 b 2 (omega arith) in
      let pte = load32_same b m _ h (omega arith) ∙ read_task_1_ptb_2 b 0 (omega arith) in
      writable_entries m pgd_task_1 counter_1 0x355007 0xe00007 pde pte refl refl

  lead_2 : translate m pgd_task_2 counter_2 ≡ to shared true
  lead_2 =
      walk m pgd_task_2 counter_2 0x359007 0xe00007
        (load32_same b m _ h (omega arith) ∙ read_pgd_task_2 b 1 (omega arith))
        (load32_same b m _ h (omega arith) ∙ read_task_2_ptb_2 b 0 (omega arith))

  -- The first task loads and stores the word of the shared page, and the system call loads it.
  pub load_at_1 : load_at false m pgd_task_1 counter_1 ≡ some (load32 m shared)
  unfolding load_at reach
  load_at_1 = ground (arith, lead_1)

  pub store_at_1 : (v : ℕ) → store_at false m pgd_task_1 counter_1 v ≡ some (store32 m shared v)
  unfolding store_at reach
  store_at_1 v = ground (arith, lead_1, writable_1)

  pub load_at_2 : load_at true m pgd_task_2 counter_2 ≡ some (load32 m shared)
  unfolding load_at reach
  load_at_2 = ground (arith, lead_2)

-- A store there keeps the tables.
pub store32-HasTables :
    (b : Machine) (m : Memory) (v : ℕ) → HasTables b m → HasTables b (store32 m shared v)
store32-HasTables b m v h x lt = store32-below m shared v x (omega arith) lt ∙ h x lt
