-- ===== src/Paging.antt =====
-- kernel/include/pagemem.h, and `config_pgds` of tp_exam/tp.c, which builds the page tables of
-- the kernel and of the two tasks.
pub mod Regs
pub mod Masks
pub mod Walk
pub mod Read
pub mod Maps
pub mod Isolation
pub mod SelfMap
pub mod Large
pub mod Frame
pub mod Whole
pub mod Parts
use secos_ng.Base.{
  ℕ, zero, suc, ◌+◌, ◌-◌, ◌*◌, ◌/◌, ◌%◌, ◌^◌, bit_and, bit_or, List, [], ◌∷◌, ◌>>>◌, u32,
}
use secos_ng.Bitfield.{put}
use secos_ng.Memory.{Memory, memset}
use secos_ng.Memory.Words.{set_all, clear_all}
use secos_ng.Paging.Regs.{pte_addr}

abbrev pg_p : ℕ
pg_p = 1

abbrev pg_rw : ℕ
pg_rw = 2

abbrev pg_usr : ℕ
pg_usr = 4

abbrev pg_krn : ℕ
pg_krn = 0

-- `page_get_nr` of a 32-bit address.
abbrev page_get_nr : ℕ → ℕ
page_get_nr addr = addr >>> 12

-- The word that `pg_set_entry` leaves: directory and table entries have `addr` at one place.
pub pg_entry : ℕ → ℕ → ℕ
pg_entry attr pfn = put pte_addr pfn (u32 (bit_or attr pg_p))

abbrev pub pgd : ℕ
pgd = 0x350000

abbrev pub pgd_ptb : ℕ
pgd_ptb = 0x351000

abbrev pub pgd_task_1 : ℕ
pgd_task_1 = 0x352000

abbrev pub pgd_task_1_ptb_0 : ℕ
pgd_task_1_ptb_0 = 0x353000

abbrev pub pgd_task_1_ptb_1 : ℕ
pgd_task_1_ptb_1 = 0x354000

abbrev pub pgd_task_1_ptb_2 : ℕ
pgd_task_1_ptb_2 = 0x355000

abbrev pub pgd_task_2 : ℕ
pgd_task_2 = 0x356000

abbrev pub pgd_task_2_ptb_0 : ℕ
pgd_task_2_ptb_0 = 0x357000

abbrev pub pgd_task_2_ptb_1 : ℕ
pgd_task_2_ptb_1 = 0x358000

abbrev pub pgd_task_2_ptb_2 : ℕ
pgd_task_2_ptb_2 = 0x359000

-- `&table[i]`, an entry of four bytes.
abbrev pub entry_at : ℕ → ℕ → ℕ
entry_at table i = table + 4 * i

abbrev pub pages : List ℕ
pages =
    pgd ∷ pgd_ptb ∷ pgd_task_1 ∷ pgd_task_1_ptb_0 ∷ pgd_task_1_ptb_1 ∷ pgd_task_1_ptb_2 ∷ pgd_task_2
    ∷ pgd_task_2_ptb_0 ∷ pgd_task_2_ptb_1 ∷ pgd_task_2_ptb_2 ∷ []

-- What one round of the loop sets.
abbrev pub round : ℕ → List (ℕ × ℕ)
round i =
    (entry_at pgd_ptb i, pg_entry (bit_or pg_krn pg_rw) i)
    ∷ (entry_at pgd_task_1_ptb_0 i, pg_entry (bit_or pg_krn pg_rw) i)
    ∷ (entry_at pgd_task_2_ptb_0 i, pg_entry (bit_or pg_krn pg_rw) i)
    ∷ (entry_at pgd_task_1_ptb_1 i, pg_entry (bit_or pg_usr pg_rw) (1024 + i))
    ∷ (entry_at pgd_task_2_ptb_1 i, pg_entry (bit_or pg_usr pg_rw) (2 * 1024 + i))
    ∷ []

-- `for(int i=0;i<1024;i++)` from `i` on, with the rounds left.
pub fill : ℕ → ℕ → Memory → Memory
fill zero i m = m
fill (suc left) i m = fill left (i + 1) (set_all (round i) m)

-- What is set after the loop: the shared page and the directories.
abbrev pub links : List (ℕ × ℕ)
links =
    (entry_at pgd_task_1_ptb_2 0, pg_entry (bit_or pg_usr pg_rw) (0xe00000 >>> 12))
    ∷ (entry_at pgd_task_2_ptb_2 0, pg_entry (bit_or pg_usr pg_rw) (0xe00000 >>> 12))
    ∷ (entry_at pgd 0, pg_entry (bit_or pg_krn pg_rw) (page_get_nr pgd_ptb))
    ∷ (entry_at pgd_task_1 0, pg_entry (bit_or pg_krn pg_rw) (page_get_nr pgd_task_1_ptb_0))
    ∷ (entry_at pgd_task_2 0, pg_entry (bit_or pg_krn pg_rw) (page_get_nr pgd_task_2_ptb_0))
    ∷ (entry_at pgd_task_1 1, pg_entry (bit_or pg_usr pg_rw) (page_get_nr pgd_task_1_ptb_1))
    ∷ (entry_at pgd_task_2 2, pg_entry (bit_or pg_usr pg_rw) (page_get_nr pgd_task_2_ptb_1))
    ∷ (entry_at pgd_task_2 1, pg_entry (bit_or pg_usr pg_rw) (page_get_nr pgd_task_2_ptb_2))
    ∷ (entry_at pgd_task_1 2, pg_entry (bit_or pg_usr pg_rw) (page_get_nr pgd_task_1_ptb_2))
    ∷ []

abbrev cr0_pg : ℕ
cr0_pg = 2 ^ 31

-- The memory, and the control registers of paging.
pub record Machine : Type 0 where
  pub mem : Memory
  pub cr0 : ℕ
  pub cr3 : ℕ

pub config_pgds : Machine → Machine
config_pgds s = record {
  mem = set_all links (fill 1024 0 (clear_all pages s.mem));
  cr0 = bit_or s.cr0 cr0_pg;
  cr3 = pgd;
}
