-- ===== src/Paging/Read.antt =====
-- The words that `config_pgds` leaves in its tables.
use secos_ng.Base.{
  ℕ, zero, suc, ◌+◌, ◌*◌, ◌%◌, ◌^◌, ◌≤◌, ◌<◌, ◌≡◌, refl, ap, ◌∙◌, arith, ltb, leb, ◌==◌, ◌&&◌, true,
  if◌then◌else◌,
}
use secos_ng.Memory.{Memory, load32}
use secos_ng.Memory.Words.{
  IsWord, set_all, latest, AreWords, load32-set_all, clear_all, ArePages, in_pages,
  load32-clear_all,
}
use secos_ng.Paging.{
  pg_entry, pgd_ptb, pgd_task_1_ptb_0, pgd_task_1_ptb_1, pgd_task_2_ptb_0, pgd_task_2_ptb_1,
  entry_at, pages, round, fill, links, Machine, config_pgds,
}

pub pg_entry_krn : (pfn : ℕ) → pg_entry 2 pfn ≡ pfn % 2 ^ 20 * 4096 + 3
unfolding pg_entry
pg_entry_krn pfn = omega arith

pub pg_entry_usr : (pfn : ℕ) → pg_entry 6 pfn ≡ pfn % 2 ^ 20 * 4096 + 7
unfolding pg_entry
pg_entry_usr pfn = omega arith

round-AreWords : (i : ℕ) → i < 1024 → AreWords (round i)
unfolding pg_entry
round-AreWords i h = omega arith

-- An entry that the round of its index `j` sets, and no other round touches.
fill_entry :
    (b e j : ℕ)
    → IsWord b
    → ((i d : ℕ) → i < 1024 → latest (round i) b d ≡ (if i == j then e else d))
    → (n i : ℕ) (m : Memory) → i + n ≤ 1024
    → load32 (fill n i m) b ≡ (if leb i j && ltb j (i + n) then e else load32 m b)
unfolding fill
fill_entry b e j hb own zero i m h = ground arith
fill_entry b e j hb own (suc n) i m h = ground (
  arith,
  fill_entry b e j hb own n (i + 1) (set_all (round i) m),
  load32-set_all (round i) m b (round-AreWords i (omega arith)) hb,
  own i (load32 m b),
)

-- A word that no round touches.
fill_keeps :
    (b : ℕ)
    → IsWord b
    → ((i d : ℕ) → i < 1024 → latest (round i) b d ≡ d)
    → (n i : ℕ) (m : Memory) → i + n ≤ 1024
    → load32 (fill n i m) b ≡ load32 m b
unfolding fill
fill_keeps b hb none zero i m h = refl
fill_keeps b hb none (suc n) i m h =
    fill_keeps b hb none n (i + 1) (set_all (round i) m) (omega arith)
    ∙ load32-set_all (round i) m b (round-AreWords i (omega arith)) hb
    ∙ none i (load32 m b) (omega arith)

links-AreWords : AreWords links
unfolding pg_entry
links-AreWords = omega arith

pages-ArePages : ArePages pages
pages-ArePages = omega arith

-- The memory behind `config_pgds`.
abbrev pub tables : Machine → Memory
tables s = (config_pgds s).mem

read_tables :
    (s : Machine) (b : ℕ)
    → IsWord b
    → load32 (tables s) b ≡ latest links b (load32 (fill 1024 0 (clear_all pages s.mem)) b)
unfolding config_pgds
read_tables s b hb = load32-set_all links (fill 1024 0 (clear_all pages s.mem)) b links-AreWords hb

module _ (s : Machine) where
  -- A word of a cleared page that the loop does not touch.
  pub read_linked :
      (b : ℕ)
      → IsWord b
      → in_pages pages b ≡ true
      → ((i d : ℕ) → i < 1024 → latest (round i) b d ≡ d)
      → load32 (tables s) b ≡ latest links b 0
  read_linked b hb inside untouched =
      read_tables s b hb
      ∙ ap (latest links b) (
          fill_keeps b hb untouched 1024 0 (clear_all pages s.mem) (omega arith)
          ∙ load32-clear_all pages s.mem b pages-ArePages hb
          ∙ rw inside)

  -- A word that the loop sets and nothing after it.
  read_filled :
      (b e j : ℕ)
      → IsWord b
      → j < 1024
      → ((i d : ℕ) → i < 1024 → latest (round i) b d ≡ (if i == j then e else d))
      → ((d : ℕ) → latest links b d ≡ d)
      → load32 (tables s) b ≡ e
  read_filled b e j hb h own last =
      read_tables s b hb
      ∙ last (load32 (fill 1024 0 (clear_all pages s.mem)) b)
      ∙ fill_entry b e j hb own 1024 0 (clear_all pages s.mem) (omega arith)
      ∙ ground arith

  pub read_pgd_ptb : (j : ℕ) → j < 1024 → load32 (tables s) (entry_at pgd_ptb j) ≡ pg_entry 2 j
  read_pgd_ptb j h =
      read_filled (entry_at pgd_ptb j) (pg_entry 2 j) j (omega arith) h (λ i d hi. ground arith)
        (λ d. ground arith)

  pub read_task_1_ptb_0 :
      (j : ℕ) → j < 1024 → load32 (tables s) (entry_at pgd_task_1_ptb_0 j) ≡ pg_entry 2 j
  read_task_1_ptb_0 j h =
      read_filled (entry_at pgd_task_1_ptb_0 j) (pg_entry 2 j) j (omega arith) h
        (λ i d hi. ground arith) (λ d. ground arith)

  pub read_task_2_ptb_0 :
      (j : ℕ) → j < 1024 → load32 (tables s) (entry_at pgd_task_2_ptb_0 j) ≡ pg_entry 2 j
  read_task_2_ptb_0 j h =
      read_filled (entry_at pgd_task_2_ptb_0 j) (pg_entry 2 j) j (omega arith) h
        (λ i d hi. ground arith) (λ d. ground arith)

  pub read_task_1_ptb_1 :
      (j : ℕ) → j < 1024 → load32 (tables s) (entry_at pgd_task_1_ptb_1 j) ≡ pg_entry 6 (1024 + j)
  read_task_1_ptb_1 j h =
      read_filled (entry_at pgd_task_1_ptb_1 j) (pg_entry 6 (1024 + j)) j (omega arith) h
        (λ i d hi. ground arith) (λ d. ground arith)

  pub read_task_2_ptb_1 :
      (j : ℕ) → j < 1024 → load32 (tables s) (entry_at pgd_task_2_ptb_1 j) ≡ pg_entry 6 (2048 + j)
  read_task_2_ptb_1 j h =
      read_filled (entry_at pgd_task_2_ptb_1 j) (pg_entry 6 (2048 + j)) j (omega arith) h
        (λ i d hi. ground arith) (λ d. ground arith)
