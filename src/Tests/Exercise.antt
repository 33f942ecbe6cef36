-- ===== src/Tests/Exercise.antt =====
-- `tp` of tp1/tp.c with a table of the null descriptor alone, and locals that hold zeros.
use secos_ng.Base.{◌≡◌, arith, [], ◌∷◌, ◌++◌, some}
use secos_ng.Memory.{Memory, load32}
use secos_ng.Segment.Dump.Rows.{rows}
use secos_ng.Segment.Exercise.{
  Locals, Session, header, my_limit, table, kernel_table, window_table, tp,
}
use secos_ng.Segment.Exercise.Placed.{Placed, Segmented}
use secos_ng.Segment.Exercise.Runs.{tp-Segmented}

abbrev clear : Memory
clear x = 0

abbrev locals : Locals
locals = record { my_gdt = 0x309000; src = 0x308000; tss = 0x307000; my_es = 0xffff }

locals-Placed : Placed locals
locals-Placed = record {
  gdt = omega arith;
  src = omega arith;
  gdt_src = omega arith;
  gdt_window = omega arith;
  src_window = omega arith;
  tss = omega arith;
  my_es = omega arith;
}

tp-Segmented_example :
    (s : Session) × (tp 0x8f8c 7 0x30a000 locals clear ≡ some s)
    × Segmented locals s
    × (s.printed
        ≡ header 0x8f8c 7
          ++ rows 0 (0 ∷ [])
          ++ header 0x309000 my_limit
          ++ rows 0 (table (kernel_table clear 0x309000) 0x309000 7)
          ++ rows 0
              (table (window_table (kernel_table clear 0x309000) 0x309000 0x308000) 0x309000 7))
unfolding load32
tp-Segmented_example =
    tp-Segmented locals locals-Placed clear (λ x. omega arith) 0x8f8c 7 0x30a000 (0 ∷ [])
      (omega arith) (omega arith) (omega arith) (omega arith)
