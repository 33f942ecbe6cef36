-- ===== src/Paging/SelfMap/Space.antt =====
-- The words of the tables before the last store of tp4.
use secos_ng.Base.{
  ℕ, ◌+◌, ◌-◌, ◌/◌, ◌<◌, ◌≡◌, ap, ◌∙◌, arith, ◌==◌, if◌then◌else◌, List, [], ◌∷◌, ◌++◌, ltb, leb,
  ◌&&◌,
}
use secos_ng.Memory.{Memory, load32}
use secos_ng.Memory.Words.{
  IsWord, set_all, latest, AreWords, in_pages, load32-set_all, load32-clear_all,
}
use secos_ng.Paging.{entry_at, pg_entry, page_get_nr}
use secos_ng.Paging.SelfMap.{pgd, ptb, ptb2, ptb3, entries, krn_entry, zeros, unpaged, paged}
use secos_ng.Paging.SelfMap.Linear.{MapsTables, AreFree}
use secos_ng.Paging.SelfMap.Tables.{
  latest-append, AreWords-append, AreFree-append, AreFree-AreWords, entries-AreWords,
  latest-entries, zeros-AreFree, latest-zeros,
}

-- What is stored with paging off behind the clearing of the directory.
abbrev after_clear : List (ℕ × ℕ)
after_clear =
    (entry_at pgd 0, krn_entry (page_get_nr ptb)) ∷ entries 1024 0 ptb2 1024
    ++ (entry_at pgd 1, krn_entry (page_get_nr ptb2)) ∷ []

after_clear-AreWords : AreWords after_clear
unfolding pg_entry
after_clear-AreWords = (
  omega arith,
  omega arith,
  AreWords-append (entries 1024 0 ptb2 1024) _
      (entries-AreWords 1024 0 ptb2 1024 (omega arith) (omega arith) (omega arith)) (omega arith),
)

module _ (m : Memory) where
  pub read_unpaged :
      (b : ℕ)
      → IsWord b
      → load32 (unpaged m) b
        ≡ latest after_clear b
            (if in_pages (pgd ∷ []) b then 0 else load32 (set_all (entries 1024 0 ptb 0) m) b)
  unfolding unpaged
  read_unpaged b hb =
      load32-set_all after_clear _ b after_clear-AreWords hb
      ∙ ap (latest after_clear b) (load32-clear_all (pgd ∷ []) _ b (omega arith) hb)

  pub read_unpaged_pgd :
      (k : ℕ)
      → k < 1024
      → load32 (unpaged m) (entry_at pgd k)
        ≡ (if k == 0 then 0x601003 else if k == 1 then 0x602003 else 0)
  unfolding pg_entry
  read_unpaged_pgd k h =
      read_unpaged (entry_at pgd k) (omega arith)
      ∙ latest-append (entries 1024 0 ptb2 1024) _ (entry_at pgd k) _
      ∙ ground (
        arith,
        latest-entries 1024 0 ptb2 1024 (entry_at pgd k)
            (if entry_at pgd 0 == entry_at pgd k then 0x601003 else 0) (omega arith) (omega arith),
      )

  read_unpaged-ptb2 :
      (j : ℕ) → j < 1024 → load32 (unpaged m) (entry_at ptb2 j) ≡ krn_entry (1024 + j)
  unfolding pg_entry
  read_unpaged-ptb2 j h =
      let b = entry_at ptb2 j in
      let index : (b - ptb2) / 4 ≡ j = omega arith in
      read_unpaged b (omega arith)
      ∙ latest-append (entries 1024 0 ptb2 1024) _ b _
      ∙ ap (latest ((entry_at pgd 1, 0x602003) ∷ []) b)
          (latest-entries 1024 0 ptb2 1024 b _ (omega arith) (omega arith))
      ∙ ground (arith, index)

  pub unpaged-MapsTables : MapsTables (unpaged m)
  unfolding pg_entry
  unpaged-MapsTables = record {
    entry = read_unpaged_pgd 1 (omega arith);
    page_0 = read_unpaged-ptb2 0x200 (omega arith);
    page_1 = read_unpaged-ptb2 0x201 (omega arith);
    page_2 = read_unpaged-ptb2 0x202 (omega arith);
    page_3 = read_unpaged-ptb2 0x203 (omega arith);
  }

  -- The memory before `*target = 0`.
  abbrev pub before : Memory
  before = set_all paged (unpaged m)

  pub paged-AreFree : AreFree paged
  unfolding paged pg_entry
  paged-AreFree =
      AreFree-append (zeros 1024 ptb3) _
        (zeros-AreFree 1024 ptb3 (omega arith) (omega arith) (omega arith)) (omega arith)

  -- The stores after the clearing of the third table.
  abbrev links : List (ℕ × ℕ)
  links =
      (entry_at ptb3 0, 0x600003)
      ∷ (entry_at pgd 768, 0x603003)
      ∷ (entry_at ptb2 0x300, 0x2003)
      ∷ (entry_at ptb2 0x3ff, 0x2003)
      ∷ []

  read_before :
      (b : ℕ)
      → IsWord b
      → load32 before b
        ≡ latest links b (if leb ptb3 b && ltb b (ptb3 + 4096) then 0 else load32 (unpaged m) b)
  unfolding paged pg_entry
  read_before b hb =
      load32-set_all paged (unpaged m) b (AreFree-AreWords paged paged-AreFree) hb
      ∙ latest-append (zeros 1024 ptb3) _ b (load32 (unpaged m) b)
      ∙ ap (latest links b) (latest-zeros 1024 ptb3 b (load32 (unpaged m) b) hb.0 (omega arith))

  pub read_before_pgd :
      (k : ℕ)
      → k < 1024
      → load32 before (entry_at pgd k) ≡ (
          if k == 0
          then 0x601003
          else if k == 1
          then 0x602003
          else if k == 768
          then 0x603003
          else 0)
  read_before_pgd k h =
      read_before (entry_at pgd k) (omega arith) ∙ ground (arith, read_unpaged_pgd k h)

  pub read_before_ptb2 :
      (j : ℕ)
      → j < 1024
      → load32 before (entry_at ptb2 j)
        ≡ (if j == 0x300 then 0x2003 else if j == 0x3ff then 0x2003 else krn_entry (1024 + j))
  read_before_ptb2 j h =
      read_before (entry_at ptb2 j) (omega arith) ∙ ground (arith, read_unpaged-ptb2 j h)

  pub read_before_ptb3 :
      (j : ℕ) → j < 1024 → load32 before (entry_at ptb3 j) ≡ (if j == 0 then 0x600003 else 0)
  read_before_ptb3 j h = read_before (entry_at ptb3 j) (omega arith) ∙ ground arith
