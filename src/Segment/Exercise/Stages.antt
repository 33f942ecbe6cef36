-- ===== src/Segment/Exercise/Stages.antt =====
-- The table of `tp` of tp1/tp.c after each of its stages.
use secos_ng.Base.{
  ℕ, zero, suc, ◌+◌, ◌*◌, ◌^◌, ◌≤◌, ◌<◌, ◌≡◌, ◌⊎◌, refl, ap, sym, ◌∙◌, subst, arith, List, [], ◌∷◌,
  length, some,
}
use secos_ng.Bitfield.{get}
use secos_ng.Bitfield.Assign.{assign, AreWithin, assign_bound}
use secos_ng.Memory.{Memory, IsBytes, memset}
use secos_ng.Memory.Fill.{memset_lem}
use secos_ng.Segment.{sizeof_tss, tss_avl_32}
use secos_ng.Segment.Regs.{
  seg_desc_base_1, seg_desc_base_2, seg_desc_base_3, seg_desc_type, seg_desc_p,
}
use secos_ng.Types.{wlow, whigh, blow, bhigh}
use secos_ng.Segment.Dump.{raw_at, print_gdt_content}
use secos_ng.Segment.Dump.Rows.{Holds, rows, print_gdt_content-held}
use secos_ng.Segment.Exercise.{
  descriptor, my_code, my_data, my_window, store64, set_entry, my_limit, table, kernel_table,
  window_table, user_table,
}
use secos_ng.Segment.Exercise.Slots.{
  raw_at_bound, store64-IsBytes, Holds-same, set_at, Holds-store64, table-Holds,
}
use secos_ng.Trap.Userland.{tss_dsc}

-- A table of seven entries.
pub record Holds7 (m : Memory) (gdt : ℕ) (ds : List ℕ) : Type 0 where
  pub bytes : IsBytes m
  pub count : length ds ≡ 7
  pub entries : Holds m gdt ds

descriptor-AreWithin :
    (limit_1 base_2 type dpl limit_2 g : ℕ)
    → AreWithin 64 (descriptor limit_1 base_2 type dpl limit_2 g)
unfolding descriptor
descriptor-AreWithin limit_1 base_2 type dpl limit_2 g = omega arith

length-set_at : (i v : ℕ) (ds : List ℕ) → length (set_at i v ds) ≡ length ds
length-set_at i v [] = refl
length-set_at zero v (d ∷ ds) = refl
length-set_at (suc i) v (d ∷ ds) = ap suc (length-set_at i v ds)

module _ (gdt : ℕ) (room : gdt + 56 < 2 ^ 32) (m : Memory) (ds : List ℕ) where
  store64-Holds7 :
      (i v : ℕ)
      → i < 7
      → v < 2 ^ 64
      → Holds7 m gdt ds
      → Holds7 (store64 m (gdt + 8 * i) v) gdt (set_at i v ds)
  store64-Holds7 i v l w h = record {
    bytes = store64-IsBytes m (gdt + 8 * i) v h.bytes;
    count = length-set_at i v ds ∙ h.count;
    entries =
        Holds-store64 ds m gdt (gdt + 8 * i) i v refl (omega (arith, h.count)) w
          (omega (arith, h.count)) h.entries;
  }

  set_entry-Holds7 :
      (i limit_1 base_2 type dpl limit_2 g : ℕ)
      → i < 7
      → Holds7 m gdt ds
      → let es = descriptor limit_1 base_2 type dpl limit_2 g in
        Holds7 (set_entry m gdt i es) gdt (set_at i (assign es (raw_at m (gdt + 8 * i))) ds)
  unfolding set_entry
  set_entry-Holds7 i limit_1 base_2 type dpl limit_2 g l h =
      let es = descriptor limit_1 base_2 type dpl limit_2 g in
      store64-Holds7 i (assign es (raw_at m (gdt + 8 * i))) l
        (assign_bound es (raw_at m (gdt + 8 * i)) 64
          (descriptor-AreWithin limit_1 base_2 type dpl limit_2 g)
          (raw_at_bound m (gdt + 8 * i) h.bytes))
        h

  pub same-Holds7 :
      (m' : Memory)
      → IsBytes m'
      → ((x : ℕ) → gdt ≤ x → x < gdt + 56 → m' x ≡ m x)
      → Holds7 m gdt ds
      → Holds7 m' gdt ds
  same-Holds7 m' b s h = record {
    bytes = b;
    count = h.count;
    entries =
        Holds-same ds m m' gdt (omega (arith, h.count)) (λ x p q. s x p (omega (arith, h.count)))
          h.entries;
  }

  pub printed_rows : Holds7 m gdt ds → print_gdt_content m gdt my_limit ≡ some (rows 0 ds)
  printed_rows h =
      print_gdt_content-held m gdt my_limit ds h.entries (omega arith) (omega (arith, h.count))
        (omega arith)

  pub table_eq : Holds7 m gdt ds → table m gdt 7 ≡ ds
  table_eq h = ap (table m gdt) (sym h.count) ∙ table-Holds ds m gdt h.entries

pub table_Holds : (n : ℕ) (m : Memory) (a : ℕ) → Holds m a (table m a n)
unfolding table
table_Holds zero m a = omega arith
table_Holds (suc n) m a = (refl, table_Holds n m (a + 8))

tss_dsc_bound : (tss : ℕ) → tss_dsc tss < 2 ^ 64
unfolding tss_dsc assign
tss_dsc_bound tss =
    assign_bound
      ((seg_desc_base_1, get wlow tss)
        ∷ (seg_desc_base_2, get blow (get whigh tss))
        ∷ (seg_desc_base_3, get bhigh (get whigh tss))
        ∷ (seg_desc_type, tss_avl_32)
        ∷ (seg_desc_p, 1)
        ∷ [])
      sizeof_tss 64 (omega arith) (omega arith)

-- The stages, whatever the entries were before.
module _ (gdt : ℕ) (room : gdt + 56 < 2 ^ 32) (m : Memory) (d0 d1 d2 d3 d4 d5 d6 : ℕ) where
  pub kernel_table-Holds7 :
      Holds7 m gdt (d0 ∷ d1 ∷ d2 ∷ d3 ∷ d4 ∷ d5 ∷ d6 ∷ [])
      → (x y : ℕ) × Holds7
          (kernel_table m gdt)
          gdt
          (0 ∷ assign (my_code 0) x ∷ assign (my_data 0) y ∷ d3 ∷ d4 ∷ d5 ∷ d6 ∷ [])
  unfolding kernel_table
  kernel_table-Holds7 h =
      let m0 = store64 m gdt 0 in
      let here : gdt + 8 * 0 ≡ gdt = omega arith in
      let h0 =
        subst (λ a. Holds7 (store64 m a 0) gdt (0 ∷ d1 ∷ d2 ∷ d3 ∷ d4 ∷ d5 ∷ d6 ∷ [])) here
          (store64-Holds7 gdt room m (d0 ∷ d1 ∷ d2 ∷ d3 ∷ d4 ∷ d5 ∷ d6 ∷ []) 0 0 (omega arith)
            (omega arith) h) in
      let h1 =
        set_entry-Holds7 gdt room m0 (0 ∷ d1 ∷ d2 ∷ d3 ∷ d4 ∷ d5 ∷ d6 ∷ []) 1 0xffff 0 11 0 0xf 1
          (omega arith) h0 in
      let m1 = set_entry m0 gdt 1 (my_code 0) in
      let h2 =
        set_entry-Holds7 gdt room m1
          (0 ∷ assign (my_code 0) (raw_at m0 (gdt + 8)) ∷ d2 ∷ d3 ∷ d4 ∷ d5 ∷ d6 ∷ []) 2 0xffff 0 3
          0 0xf 1 (omega arith) h1 in
      (raw_at m0 (gdt + 8), raw_at m1 (gdt + 16), h2)

  pub window_table-Holds7 :
      (src : ℕ)
      → src + 64 ≤ 2 ^ 32
      → (gdt + 56 ≤ src) ⊎ (src + 64 ≤ gdt)
      → Holds7 m gdt (d0 ∷ d1 ∷ d2 ∷ d3 ∷ d4 ∷ d5 ∷ d6 ∷ [])
      → (x : ℕ) × Holds7
          (window_table m gdt src)
          gdt
          (d0 ∷ d1 ∷ d2 ∷ assign my_window x ∷ d4 ∷ d5 ∷ d6 ∷ [])
  unfolding window_table
  window_table-Holds7 src r o h =
      let m0 = (memset src 0xff 64 m).1 in
      let bytes = (memset_lem src 0xff 64 m (omega arith) r).1 in
      let h0 =
        same-Holds7 gdt room m (d0 ∷ d1 ∷ d2 ∷ d3 ∷ d4 ∷ d5 ∷ d6 ∷ []) m0
          (λ x. let at = bytes x in let own = h.bytes x in ground (arith, at, own))
          (λ x p q. let at = bytes x in ground (arith, at)) h in
      (
        raw_at m0 (gdt + 24),
        set_entry-Holds7 gdt room m0 (d0 ∷ d1 ∷ d2 ∷ d3 ∷ d4 ∷ d5 ∷ d6 ∷ []) 3 0x1f 0x60 3 0 0 0
            (omega arith) h0,
      )

  pub user_table-Holds7 :
      (tss : ℕ)
      → tss < 2 ^ 32
      → Holds7 m gdt (d0 ∷ d1 ∷ d2 ∷ d3 ∷ d4 ∷ d5 ∷ d6 ∷ [])
      → (x y : ℕ) × Holds7
          (user_table m gdt tss)
          gdt
          (d0 ∷ d1 ∷ d2 ∷ d3 ∷ assign (my_code 3) x ∷ assign (my_data 3) y ∷ tss_dsc tss ∷ [])
  unfolding user_table
  user_table-Holds7 tss r h =
      let h0 =
        set_entry-Holds7 gdt room m (d0 ∷ d1 ∷ d2 ∷ d3 ∷ d4 ∷ d5 ∷ d6 ∷ []) 4 0xffff 0 11 3 0xf 1
          (omega arith) h in
      let m0 = set_entry m gdt 4 (my_code 3) in
      let ds = d0 ∷ d1 ∷ d2 ∷ d3 ∷ assign (my_code 3) (raw_at m (gdt + 32)) ∷ d5 ∷ d6 ∷ [] in
      let h1 = set_entry-Holds7 gdt room m0 ds 5 0xffff 0 3 3 0xf 1 (omega arith) h0 in
      let m1 = set_entry m0 gdt 5 (my_data 3) in
      let ds' =
        d0
        ∷ d1
        ∷ d2
        ∷ d3
        ∷ assign (my_code 3) (raw_at m (gdt + 32))
        ∷ assign (my_data 3) (raw_at m0 (gdt + 40))
        ∷ d6
        ∷ [] in
      let h2 =
        store64-Holds7 gdt room m1 ds' 6 (tss_dsc tss) (omega arith) (tss_dsc_bound tss) h1 in
      (raw_at m (gdt + 32), raw_at m0 (gdt + 40), h2)
