-- ===== src/Segment/Exercise.antt =====
-- `tp` of tp1/tp.c: it prints the table of the boot loader, builds its own one on the stack, copies
-- through a segment of 32 bytes, and prepares a return to ring 3.
pub mod Entries
pub mod Slots
pub mod Window
pub mod Stages
pub mod Placed
pub mod Runs
use secos_ng.Base.{
  ℕ, zero, suc, ◌+◌, ◌-◌, ◌*◌, ◌/◌, ◌%◌, ◌^◌, ◌==◌, leb, Bool, true, false, if◌then◌else◌, List, [],
  ◌∷◌, ◌++◌, Option, none, some, add32, codes,
}
use secos_ng.Bitfield.{Field, put}
use secos_ng.Bitfield.Assign.{assign}
use secos_ng.Memory.{Memory, store8, store32, load32, memset}
use secos_ng.Print.Calls.{Call}
use secos_ng.Segment.{gdt_krn_seg_sel, gdt_usr_seg_sel}
use secos_ng.Segment.Regs.{
  seg_desc_limit_1, seg_desc_limit_2, seg_desc_type, seg_desc_dpl, seg_desc_g, seg_desc_s,
  seg_desc_p, seg_desc_avl, seg_desc_l, seg_desc_d, seg_desc_base_1, seg_desc_base_2,
  seg_desc_base_3, seg_sel_index, seg_sel_ti, seg_sel_rpl,
}
use secos_ng.Segment.Table.{Loaded, Segment, select}
use secos_ng.Segment.Dump.{raw_at, debug, print_gdt_content}
use secos_ng.Trap.Userland.{tss_dsc}

-- The assignments to one entry of `my_gdt`, where the entries differ.
unfoldable pub descriptor : (limit_1 base_2 type dpl limit_2 g : ℕ) → List (Field × ℕ)
descriptor limit_1 base_2 type dpl limit_2 g =
    (seg_desc_limit_1, limit_1)
    ∷ (seg_desc_base_1, 0)
    ∷ (seg_desc_base_2, base_2)
    ∷ (seg_desc_type, type)
    ∷ (seg_desc_s, 1)
    ∷ (seg_desc_dpl, dpl)
    ∷ (seg_desc_p, 1)
    ∷ (seg_desc_limit_2, limit_2)
    ∷ (seg_desc_avl, 1)
    ∷ (seg_desc_l, 0)
    ∷ (seg_desc_d, 1)
    ∷ (seg_desc_g, g)
    ∷ (seg_desc_base_3, 0)
    ∷ []

-- The code and data segments over all 4 GB, and the one of 32 bytes at `0x600000`.
abbrev pub my_code : ℕ → List (Field × ℕ)
my_code dpl = descriptor 0xffff 0 11 dpl 0xf 1

abbrev pub my_data : ℕ → List (Field × ℕ)
my_data dpl = descriptor 0xffff 0 3 dpl 0xf 1

abbrev pub my_window : List (Field × ℕ)
my_window = descriptor 0x1f 0x60 3 0 0 0

unfoldable pub store64 : Memory → ℕ → ℕ → Memory
store64 m a v = store32 (store32 m a (v % 2 ^ 32)) (a + 4) (v / 2 ^ 32)

-- `my_gdt[i]`: assignments to members keep what the stack has in the others.
unfoldable pub set_entry : Memory → (my_gdt i : ℕ) → List (Field × ℕ) → Memory
set_entry m my_gdt i es = store64 m (my_gdt + 8 * i) (assign es (raw_at m (my_gdt + 8 * i)))

-- `rep movsb` with a segment for its destination: a byte beyond the limit is a fault.
unfoldable pub memcpy8_es : Segment → (count dst src : ℕ) → Memory → Option Memory
memcpy8_es es zero dst src m = some m
memcpy8_es es (suc n) dst src m = elim (leb dst es.last) [
  | true ↦ memcpy8_es es n (add32 dst 1) (add32 src 1) (store8 m (add32 es.base dst) (m src))
  | false ↦ none
]

-- Where the compiler has put the locals, and what it leaves in them.
pub record Locals : Type 0 where
  pub my_gdt : ℕ
  pub src : ℕ
  pub tss : ℕ
  pub my_es : ℕ

-- The memory, the segment that `es` names for the copy, the table with the selectors and TSS members
-- at the end, and what has been printed.
pub record Session : Type 0 where
  pub mem : Memory
  pub window : Segment
  pub segments : Loaded
  pub printed : List Call

abbrev pub header : (addr limit : ℕ) → List Call
header addr limit = debug (codes "GDT addr:  0x%x ") addr ∷ debug (codes "limit: %d\n") limit ∷ []

-- The limit of `my_gdt`, with seven entries.
abbrev pub my_limit : ℕ
my_limit = 7 * 8 - 1

-- The table as the processor reads it.
unfoldable pub table : Memory → ℕ → ℕ → List ℕ
table m a zero = []
table m a (suc n) = raw_at m a ∷ table m (a + 8) n

-- Before `ltr`: the processor's view of `my_gdt`.
abbrev pub loaded : Memory → (my_gdt : ℕ) → Loaded
loaded m my_gdt = record {
  gdt = table m my_gdt 7;
  limit = my_limit;
  cs = gdt_krn_seg_sel 1;
  data_sel = gdt_krn_seg_sel 2;
  tss_esp0 = 0;
  tss_ss0 = 0;
  tr = 0;
}

abbrev pub es_assignments : List (Field × ℕ)
es_assignments = (seg_sel_index, 3) ∷ (seg_sel_ti, 0) ∷ (seg_sel_rpl, 0) ∷ []

-- `my_gdt` as of Q5, Q9 and Q13.
unfoldable pub kernel_table : Memory → ℕ → Memory
kernel_table m gdt = set_entry (set_entry (store64 m gdt 0) gdt 1 (my_code 0)) gdt 2 (my_data 0)

unfoldable pub window_table : Memory → (gdt src : ℕ) → Memory
window_table m gdt src = set_entry (memset src 0xff 64 m).1 gdt 3 my_window

unfoldable pub user_table : Memory → (gdt tss : ℕ) → Memory
user_table m gdt tss =
    store64 (set_entry (set_entry m gdt 4 (my_code 3)) gdt 5 (my_data 3)) (gdt + 48) (tss_dsc tss)

infixl 5 ◌>>=◌
abbrev pub ◌>>=◌ : {A B : Type 0} → Option A → (A → Option B) → Option B
o >>= f = elim o [ none ↦ none | some x ↦ f x ]

-- `addr` and `limit` are what `sgdt` stores first; `none` is a fault, or a dump that does not end.
unfoldable pub tp : (addr limit ebp : ℕ) → Locals → Memory → Option Session
tp addr limit ebp l m = do
  first ← print_gdt_content m addr limit
  let m1 = kernel_table m l.my_gdt
  second ← print_gdt_content m1 l.my_gdt my_limit
  let m2 = window_table m1 l.my_gdt l.src
  third ← print_gdt_content m2 l.my_gdt my_limit
  window ← select (loaded m2 l.my_gdt) (assign es_assignments l.my_es)
  m3 ← memcpy8_es window 32 0 l.src m2
  let m4 = user_table m3 l.my_gdt l.tss
  some (record {
    mem = m4;
    window = window;
    segments = record (loaded m4 l.my_gdt) {
      data_sel = gdt_usr_seg_sel 5;
      tss_esp0 = ebp;
      tss_ss0 = gdt_krn_seg_sel 2;
      tr = gdt_krn_seg_sel 6;
    };
    printed = header addr limit ++ first ++ header l.my_gdt my_limit ++ second ++ third;
  })
