-- ===== src/Segment/Dump/Rows.antt =====
-- What `print_gdt_content` prints of a table.
use secos_ng.Base.{
  ℕ, zero, suc, ◌+◌, ◌*◌, ◌/◌, ◌%◌, codes, ◌^◌, ◌<◌, ◌≤◌, ◌∙◌, ◌≡◌, refl, ap, add32, arith, List,
  [], ◌∷◌, ◌++◌, length, some,
}
use secos_ng.Base.Bits.{bit_or_sum}
use secos_ng.Bitfield.{get}
use secos_ng.Memory.{Memory, load32}
use secos_ng.Print.Calls.{Call}
use secos_ng.Segment.Regs.{
  seg_desc_limit_1, seg_desc_limit_2, seg_desc_base_1, seg_desc_base_2, seg_desc_base_3,
}
use secos_ng.Segment.Table.{segment}
use secos_ng.Segment.Dump.{start_of, end_of, row, raw_at, dump_loop, dump_fuel, print_gdt_content}

start_of-base : (dsc : ℕ) → start_of dsc ≡ (segment dsc).base
unfolding start_of segment
start_of-base dsc =
    let b1 = get seg_desc_base_1 dsc in
    let b2 = get seg_desc_base_2 dsc in
    let b3 = get seg_desc_base_3 dsc in
    ground (arith, bit_or_sum 24 b3 (b2 * 2 ^ 16), bit_or_sum 16 (b3 * 2 ^ 8 + b2) b1)

-- The last address of a segment, from its base.
last_of : ℕ → ℕ
last_of dsc = ((segment dsc).base + (segment dsc).last) % 2 ^ 32

end_of-last : (dsc : ℕ) → end_of dsc ≡ last_of dsc
unfolding end_of last_of segment
end_of-last dsc =
    let l1 = get seg_desc_limit_1 dsc in
    let l2 = get seg_desc_limit_2 dsc in ground (arith, start_of-base dsc, bit_or_sum 16 l2 l1)

-- The texts and values of a row: the descriptor's number, the first and the last address of its segment,
-- and its members, each at its place in the two words.
abbrev line : (i first last type system dpl present avl long wide gran : ℕ) → List Call
line i first last type system dpl present avl long wide gran =
    record { format = codes "%d "; args = i ∷ [] }
    ∷ record { format = codes "[0x%x "; args = first ∷ [] }
    ∷ record { format = codes "- 0x%x] "; args = last ∷ [] }
    ∷ record { format = codes "seg_t: 0x%x "; args = type ∷ [] }
    ∷ record { format = codes "desc_t: %d "; args = system ∷ [] }
    ∷ record { format = codes "priv: %d "; args = dpl ∷ [] }
    ∷ record { format = codes "present: %d "; args = present ∷ [] }
    ∷ record { format = codes "avl: %d "; args = avl ∷ [] }
    ∷ record { format = codes "longmode: %d "; args = long ∷ [] }
    ∷ record { format = codes "default: %d "; args = wide ∷ [] }
    ∷ record { format = codes "gran: %d "; args = gran ∷ [] }
    ∷ record { format = codes "\n"; args = [] }
    ∷ []

unfoldable line_of : (i dsc : ℕ) → List Call
line_of i d =
    line i (segment d).base (last_of d) (d / 2 ^ 40 % 16) (d / 2 ^ 44 % 2) (d / 2 ^ 45 % 4)
      (d / 2 ^ 47 % 2) (d / 2 ^ 52 % 2) (d / 2 ^ 53 % 2) (d / 2 ^ 54 % 2) (d / 2 ^ 55 % 2)

row-line_of : (i d : ℕ) → row i (segment d).base (last_of d) d ≡ line_of i d
unfolding row line_of
row-line_of i d = refl

-- One row for each descriptor, numbered from `i` on.
pub rows : ℕ → List ℕ → List Call
rows i [] = []
rows i (d ∷ ds) = line_of i d ++ rows (i + 1) ds

-- The descriptors that memory holds from an address on, the low word of each first.
abbrev pub HoldsTable : Memory → ℕ → List ℕ → Type 0
HoldsTable m a [] = Unit
HoldsTable m a (d ∷ ds) = (load32 m a + 2 ^ 32 * load32 m (a + 4) ≡ d) × HoldsTable m (a + 8) ds

-- The same, by the code's reads.
abbrev pub Holds : Memory → ℕ → List ℕ → Type 0
Holds m a [] = Unit
Holds m a (d ∷ ds) = (raw_at m a ≡ d) × Holds m (a + 8) ds

raw_at-word :
    (m : Memory) (a : ℕ) → a + 4 < 2 ^ 32 → raw_at m a ≡ load32 m a + 2 ^ 32 * load32 m (a + 4)
raw_at-word m a r =
    let next : add32 a 4 ≡ a + 4 = omega arith in
    ap (λ (x : ℕ). load32 m a + 2 ^ 32 * load32 m x) next

HoldsTable-Holds :
    (ds : List ℕ) (m : Memory) (a : ℕ)
    → HoldsTable m a ds
    → a + 8 * length ds ≤ 2 ^ 32
    → Holds m a ds
HoldsTable-Holds [] m a h r = tt
HoldsTable-Holds (d ∷ ds) m a h r =
    (raw_at-word m a (omega arith) ∙ h.0, HoldsTable-Holds ds m (a + 8) h.1 (omega arith))

dump_loop-rows :
    (ds : List ℕ) (m : Memory) (f stop a i : ℕ)
    → Holds m a ds
    → length ds < f
    → a + 8 * length ds ≡ stop + 1
    → stop + 1 < 2 ^ 32
    → dump_loop f m stop a i ≡ some (rows i ds)
unfolding dump_loop rows
dump_loop-rows [] m zero stop a i h lt e r = absurd (omega arith)
dump_loop-rows [] m (suc f) stop a i h lt e r = ground (arith, e)
dump_loop-rows (d ∷ ds) m zero stop a i h lt e r = absurd (omega arith)
dump_loop-rows (d ∷ ds) m (suc f) stop a i (at, rest) lt e r = ground (
  arith,
  at,
  start_of-base d,
  end_of-last d,
  row-line_of i d,
  dump_loop-rows ds m f stop (a + 8) (i + 1) rest (omega arith) (omega arith) r,
)

pub print_gdt_content-held :
    (m : Memory) (addr limit : ℕ) (ds : List ℕ)
    → Holds m addr ds
    → limit < 2 ^ 16
    → limit + 1 ≡ 8 * length ds
    → addr + limit + 1 < 2 ^ 32
    → print_gdt_content m addr limit ≡ some (rows 0 ds)
unfolding print_gdt_content
print_gdt_content-held m addr limit ds h small size room = ground (
  arith,
  dump_loop-rows ds m dump_fuel (addr + limit) addr 0 h (omega arith) (omega arith) (omega arith),
)

-- Of a table of at least one descriptor that memory holds below the top of the address space, whose
-- limit is its size less one as the processor keeps it, `print_gdt_content` ends, and prints for
-- each descriptor in order a row with its number, the first and the last address the processor
-- gives its segment, and its members, each at its bits of the two words.
pub print_gdt_content-rows :
    (m : Memory) (addr limit : ℕ) (ds : List ℕ)
    → HoldsTable m addr ds
    → limit < 2 ^ 16
    → limit + 1 ≡ 8 * length ds
    → addr + limit + 1 < 2 ^ 32
    → print_gdt_content m addr limit ≡ some (rows 0 ds)
print_gdt_content-rows m addr limit ds h small size room =
    print_gdt_content-held m addr limit ds (HoldsTable-Holds ds m addr h (omega arith)) small size
      room
