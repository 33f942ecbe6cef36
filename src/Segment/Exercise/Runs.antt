-- ===== src/Segment/Exercise/Runs.antt =====
-- What `tp` of tp1/tp.c comes to.
use mathlib.Core.Option.{map}
use secos_ng.Base.{
  ℕ, ◌+◌, ◌-◌, ◌*◌, ◌^◌, ◌<◌, ◌≡◌, refl, ap, sym, ◌∙◌, arith, if◌then◌else◌, List, [], ◌∷◌, ◌++◌,
  length, some,
}
use secos_ng.Bitfield.Assign.{assign}
use secos_ng.Memory.{Memory, IsBytes, movsb, within}
use secos_ng.Memory.Fill.{memset_lem}
use secos_ng.Memory.Copy.{movsb_lem}
use secos_ng.Segment.{gdt_krn_seg_sel, gdt_usr_seg_sel}
use secos_ng.Segment.Table.{Segment, select}
use secos_ng.Segment.Dump.{print_gdt_content}
use secos_ng.Segment.Dump.Rows.{Holds, rows, print_gdt_content-held}
use secos_ng.Segment.Exercise.{
  my_code, my_data, my_window, Locals, Session, header, my_limit, table, loaded, es_assignments,
  kernel_table, window_table, user_table, tp,
}
use secos_ng.Segment.Exercise.Entries.{segment-descriptor}
use secos_ng.Segment.Exercise.Window.{memcpy8_es-movsb, memcpy8_es_fault}
use secos_ng.Trap.Userland.{tss_dsc}
use secos_ng.Segment.Exercise.Stages.{
  Holds7, printed_rows, table_eq, same-Holds7, table_Holds, kernel_table-Holds7,
  window_table-Holds7, user_table-Holds7,
}
use secos_ng.Segment.Exercise.Placed.{
  Placed, window_table-outside, user_table-outside, window_segment, Segmented, select_entry,
  assigned_es, tss_base, bind_some,
}

module _ (l : Locals) (p : Placed l) (m : Memory) (b : IsBytes m) where
  abbrev m1 : Memory
  m1 = kernel_table m l.my_gdt

  abbrev m2 : Memory
  m2 = window_table m1 l.my_gdt l.src

  abbrev m3 : Memory
  m3 = movsb 32 0x600000 l.src m2

  abbrev m4 : Memory
  m4 = user_table m3 l.my_gdt l.tss

  before-Holds7 : Holds7 m l.my_gdt (table m l.my_gdt 7)
  unfolding table
  before-Holds7 = record { bytes = b; count = refl; entries = table_Holds 7 m l.my_gdt }

  first_two :
      (x y d3 d4 d5 d6 : ℕ) × Holds7 m1 l.my_gdt
        (0 ∷ assign (my_code 0) x ∷ assign (my_data 0) y ∷ d3 ∷ d4 ∷ d5 ∷ d6 ∷ [])
  unfolding table
  first_two =
      let (x, y, h) = kernel_table-Holds7 l.my_gdt p.gdt m _ _ _ _ _ _ _ before-Holds7 in
      (x, y, _, _, _, _, h)

  first_three :
      (x y z d4 d5 d6 : ℕ) × Holds7 m2 l.my_gdt
        (0 ∷ assign (my_code 0) x ∷ assign (my_data 0) y ∷ assign my_window z ∷ d4 ∷ d5 ∷ d6 ∷ [])
  first_three =
      let (x, y, d3, d4, d5, d6, h) = first_two in
      let (z, h') = window_table-Holds7 l.my_gdt p.gdt m1 _ _ _ _ _ _ _ l.src p.src p.gdt_src h in
      (x, y, z, d4, d5, d6, h')

  source-IsBytes : IsBytes m2
  source-IsBytes = let (x, y, z, d4, d5, d6, h) = first_three in h.bytes

  moved : (x : ℕ) → m3 x ≡ (if within 0x600000 32 x then m2 (l.src + (x - 0x600000)) else m2 x)
  moved x = movsb_lem 32 0x600000 l.src m2 x source-IsBytes (record {
    apart = omega (arith, p.src_window);
    room_a = omega arith;
    room_b = omega (arith, p.src);
  })

  moved_source : (j : ℕ) → j < 32 → m4 (0x600000 + j) ≡ 0xff
  moved_source j lt =
      user_table-outside m3 l.my_gdt l.tss (0x600000 + j) p.gdt (omega (arith, p.gdt_window))
      ∙ (let at = moved (0x600000 + j) in
          let away =
            window_table-outside m1 l.my_gdt l.src (l.src + j) p.gdt (omega (arith, p.gdt_src)) in
          let set = (memset_lem l.src 0xff 64 m1 (omega arith) p.src).1 (l.src + j) in
          ground (arith, at, away, set))

  all_entries :
      (x y z u v : ℕ) × Holds7 m4 l.my_gdt (
        0
        ∷ assign (my_code 0) x
        ∷ assign (my_data 0) y
        ∷ assign my_window z
        ∷ assign (my_code 3) u
        ∷ assign (my_data 3) v
        ∷ tss_dsc l.tss
        ∷ [])
  all_entries =
      let (x, y, z, d4, d5, d6, h) = first_three in
      let kept =
        same-Holds7 l.my_gdt p.gdt m2 _ m3
          (λ a.
            let at = moved a in
            let own = source-IsBytes a in
            let from = source-IsBytes (l.src + (a - 0x600000)) in ground (arith, at, own, from))
          (λ a q r. let at = moved a in ground (arith, at, p.gdt_window)) h in
      let (u, v, h') = user_table-Holds7 l.my_gdt p.gdt m3 _ _ _ _ _ _ _ l.tss p.tss kept in
      (x, y, z, u, v, h')

  window_selected :
      select (loaded m2 l.my_gdt) (assign es_assignments l.my_es) ≡ some window_segment
  window_selected =
      let (x, y, z, d4, d5, d6, h) = first_three in
      let ds =
        0 ∷ assign (my_code 0) x ∷ assign (my_data 0) y ∷ assign my_window z ∷ d4 ∷ d5 ∷ d6 ∷ [] in
      ap (select (loaded m2 l.my_gdt)) (assigned_es l.my_es p.my_es)
      ∙ select_entry (loaded m2 l.my_gdt) 24 (assign my_window z) ds
          (table_eq l.my_gdt p.gdt m2 ds h) refl refl
      ∙ ap some (segment-descriptor 0x1f 0x60 3 0 0 0 z)

  abbrev session : (addr limit ebp : ℕ) → List ℕ → Session
  session addr limit ebp ds = record {
    mem = m4;
    window = window_segment;
    segments = record (loaded m4 l.my_gdt) {
      data_sel = gdt_usr_seg_sel 5;
      tss_esp0 = ebp;
      tss_ss0 = gdt_krn_seg_sel 2;
      tr = gdt_krn_seg_sel 6;
    };
    printed =
        header addr limit
        ++ rows 0 ds
        ++ header l.my_gdt my_limit
        ++ rows 0 (table m1 l.my_gdt 7)
        ++ rows 0 (table m2 l.my_gdt 7);
  }

  session-Segmented : (addr limit ebp : ℕ) (ds : List ℕ) → Segmented l (session addr limit ebp ds)
  session-Segmented addr limit ebp ds =
      let (x, y, z, u, v, h) = all_entries in
      let es =
        0
        ∷ assign (my_code 0) x
        ∷ assign (my_data 0) y
        ∷ assign my_window z
        ∷ assign (my_code 3) u
        ∷ assign (my_data 3) v
        ∷ tss_dsc l.tss
        ∷ [] in
      let a = (session addr limit ebp ds).segments in
      let e = table_eq l.my_gdt p.gdt m4 es h in
      record {
        window = refl;
        copied = moved_source;
        bounded = λ m'.
            memcpy8_es_fault 64 0 l.src window_segment m' (omega arith) (omega arith) (omega arith);
        code =
            select_entry a 8 (assign (my_code 0) x) es e refl refl
            ∙ ap some (segment-descriptor 0xffff 0 11 0 0xf 1 x);
        stack =
            select_entry a 16 (assign (my_data 0) y) es e refl refl
            ∙ ap some (segment-descriptor 0xffff 0 3 0 0xf 1 y);
        user_code =
            select_entry a 35 (assign (my_code 3) u) es e refl refl
            ∙ ap some (segment-descriptor 0xffff 0 11 3 0xf 1 u);
        user_data =
            select_entry a 43 (assign (my_data 3) v) es e refl refl
            ∙ ap some (segment-descriptor 0xffff 0 3 3 0xf 1 v);
        task =
            ap (map (λ (d : Segment). d.base)) (select_entry a 48 (tss_dsc l.tss) es e refl refl)
            ∙ ap some (tss_base l.tss p.tss);
      }

  dumped :
      (gdt_mem : Memory) (ds : List ℕ)
      → Holds7 gdt_mem l.my_gdt ds
      → print_gdt_content gdt_mem l.my_gdt my_limit ≡ some (rows 0 (table gdt_mem l.my_gdt 7))
  dumped gdt_mem ds h =
      printed_rows l.my_gdt p.gdt gdt_mem ds h
      ∙ ap (λ xs. some (rows 0 xs)) (sym (table_eq l.my_gdt p.gdt gdt_mem ds h))

  -- In a memory of bytes with the locals below 4 GB and apart, and a table of at least one descriptor
  -- that `addr` and `limit` name, `tp` comes to its end whatever the stack has in its locals. It
  -- prints that table, and its own one before and after the third entry is set. The segment for the
  -- copy is the 32 bytes at 0x600000, which become 0xff; a copy of 64 bytes through it is a fault.
  -- At the end the selectors name flat code and data segments of ring 0 and ring 3, and the TSS.
  pub tp-Segmented :
      (addr limit ebp : ℕ) (ds : List ℕ)
      → Holds m addr ds
      → limit < 2 ^ 16
      → limit + 1 ≡ 8 * length ds
      → addr + limit + 1 < 2 ^ 32
      → (s : Session) × (tp addr limit ebp l m ≡ some s)
        × Segmented l s
        × (s.printed
            ≡ header addr limit
              ++ rows 0 ds
              ++ header l.my_gdt my_limit
              ++ rows 0 (table (kernel_table m l.my_gdt) l.my_gdt 7)
              ++ rows 0 (table (window_table (kernel_table m l.my_gdt) l.my_gdt l.src) l.my_gdt 7))
  unfolding tp
  tp-Segmented addr limit ebp ds h small size room =
      let (x, y, d3, d4, d5, d6, h1) = first_two in
      let (x', y', z, e4, e5, e6, h2) = first_three in
      (
        session addr limit ebp ds,
        bind_some _ _ _ (print_gdt_content-held m addr limit ds h small size room)
            ∙ bind_some _ _ _ (dumped m1 _ h1)
            ∙ bind_some _ _ _ (dumped m2 _ h2)
            ∙ bind_some _ _ _ window_selected
            ∙ bind_some _ _ _
                (memcpy8_es-movsb 32 0 l.src window_segment m2 (omega arith) (omega arith)),
        session-Segmented addr limit ebp ds,
        refl,
      )
