-- ===== src/Segment/Exercise/Placed.antt =====
-- What `tp` of tp1/tp.c leaves, and where its locals stand.
use mathlib.Core.Option.{map}
use secos_ng.Base.{
  ℕ, ◌+◌, ◌*◌, ◌^◌, ◌≤◌, ◌<◌, ◌≡◌, ◌⊎◌, ap, ◌∙◌, arith, List, Option, some, none, get_elem?,
}
use secos_ng.Bitfield.{Field, get}
use secos_ng.Bitfield.Assign.{assign}
use secos_ng.Memory.{Memory, memset}
use secos_ng.Segment.{gdt_usr_seg_sel}
use secos_ng.Segment.Regs.{seg_sel_index, seg_sel_ti}
use secos_ng.Segment.Table.{Loaded, Segment, segment, select, flat}
use secos_ng.Segment.Dump.{raw_at}
use secos_ng.Segment.Exercise.{
  ◌>>=◌, my_code, my_data, my_window, set_entry, memcpy8_es, Locals, Session, es_assignments,
  window_table, user_table,
}
use secos_ng.Segment.Exercise.Slots.{store64-outside}
use secos_ng.Trap.Userland.{tss_dsc}

-- The locals lie below 4 GB, apart from one another and from the 32 bytes of the window.
pub record Placed (l : Locals) : Type 0 where
  pub gdt : l.my_gdt + 56 < 2 ^ 32
  pub src : l.src + 64 ≤ 2 ^ 32
  pub gdt_src : (l.my_gdt + 56 ≤ l.src) ⊎ (l.src + 64 ≤ l.my_gdt)
  pub gdt_window : (l.my_gdt + 56 ≤ 0x600000) ⊎ (0x600020 ≤ l.my_gdt)
  pub src_window : (l.src + 64 ≤ 0x600000) ⊎ (0x600020 ≤ l.src)
  pub tss : l.tss < 2 ^ 32
  pub my_es : l.my_es < 2 ^ 16

pub set_entry-outside :
    (m : Memory) (gdt i : ℕ) (es : List (Field × ℕ)) (x : ℕ)
    → gdt + 56 < 2 ^ 32
    → i < 7
    → (x < gdt) ⊎ (gdt + 56 ≤ x)
    → set_entry m gdt i es x ≡ m x
unfolding set_entry
set_entry-outside m gdt i es x r l o =
    store64-outside m (gdt + 8 * i) (assign es (raw_at m (gdt + 8 * i))) x (omega arith)
      (omega arith)

pub window_table-outside :
    (m : Memory) (gdt src x : ℕ)
    → gdt + 56 < 2 ^ 32
    → (x < gdt) ⊎ (gdt + 56 ≤ x)
    → window_table m gdt src x ≡ (memset src 0xff 64 m).1 x
unfolding window_table
window_table-outside m gdt src x r o =
    set_entry-outside (memset src 0xff 64 m).1 gdt 3 my_window x r (omega arith) o

pub user_table-outside :
    (m : Memory) (gdt tss x : ℕ)
    → gdt + 56 < 2 ^ 32
    → (x < gdt) ⊎ (gdt + 56 ≤ x)
    → user_table m gdt tss x ≡ m x
unfolding user_table
user_table-outside m gdt tss x r o =
    let m4 = set_entry m gdt 4 (my_code 3) in
    store64-outside (set_entry m4 gdt 5 (my_data 3)) (gdt + 48) (tss_dsc tss) x (omega arith)
      (omega arith)
    ∙ set_entry-outside m4 gdt 5 (my_data 3) x r (omega arith) o
    ∙ set_entry-outside m gdt 4 (my_code 3) x r (omega arith) o

-- The segment of 32 bytes.
abbrev pub window_segment : Segment
window_segment = record { base = 0x600000; last = 0x1f; kind = 3; system = 1; dpl = 0; present = 1 }

-- The window's bytes are those of `src`, its limit holds, and every selector names its segment.
pub record Segmented (l : Locals) (s : Session) : Type 0 where
  pub window : s.window ≡ window_segment
  pub copied : (j : ℕ) → j < 32 → s.mem (0x600000 + j) ≡ 0xff
  pub bounded : (m : Memory) → memcpy8_es s.window 64 0 l.src m ≡ none
  pub code : select s.segments s.segments.cs ≡ some (flat 11 0)
  pub stack : select s.segments s.segments.tss_ss0 ≡ some (flat 3 0)
  pub user_code : select s.segments (gdt_usr_seg_sel 4) ≡ some (flat 11 3)
  pub user_data : select s.segments s.segments.data_sel ≡ some (flat 3 3)
  pub task : map (λ (d : Segment). d.base) (select s.segments s.segments.tr) ≡ some l.tss

pub select_entry :
    (a : Loaded) (sel d : ℕ) (ds : List ℕ)
    → a.gdt ≡ ds
    → get seg_sel_ti sel ≡ 0
    → get_elem? ds (get seg_sel_index sel) ≡ some d
    → select a sel ≡ some (segment d)
unfolding select
select_entry a sel d ds e t g = ground (arith, e, t, g)

pub assigned_es : (x : ℕ) → x < 2 ^ 16 → assign es_assignments x ≡ 24
unfolding assign
assigned_es x h = ground arith

pub tss_base : (tss : ℕ) → tss < 2 ^ 32 → (segment (tss_dsc tss)).base ≡ tss
unfolding tss_dsc segment
tss_base tss h = ground arith

pub bind_some :
    {A B : Type 0} (o : Option A) (x : A) (f : A → Option B) → o ≡ some x → (o >>= f) ≡ f x
bind_some o x f e = ap (λ p. p >>= f) e
