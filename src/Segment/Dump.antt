-- ===== src/Segment/Dump.antt =====
-- `print_gdt_content` of tp1/tp.c: the descriptors in memory, one row for each.
pub mod Rows
use mathlib.Core.Option
use secos_ng.Base.{
  ℕ, zero, suc, ◌+◌, ◌-◌, ◌*◌, ◌/◌, ◌%◌, ◌^◌, bit_or, Bool, true, false, ◌==◌, ltb, if◌then◌else◌,
  List, [], ◌∷◌, ◌++◌, Option, none, some, add32, codes, ◌<<<◌,
}
use secos_ng.Bitfield.{get}
use secos_ng.Memory.{Memory, load32}
use secos_ng.Print.Calls.{Call}
use secos_ng.Segment.Regs.{
  seg_desc_limit_1, seg_desc_limit_2, seg_desc_type, seg_desc_dpl, seg_desc_g, seg_desc_s,
  seg_desc_p, seg_desc_avl, seg_desc_l, seg_desc_d, seg_desc_base_1, seg_desc_base_2,
  seg_desc_base_3,
}

abbrev pub debug : List ℕ → ℕ → Call
debug format arg = record { format = format; args = arg ∷ [] }

-- `start` and `end`.
pub start_of : ℕ → ℕ
start_of dsc =
    bit_or (bit_or (get seg_desc_base_3 dsc <<< 24) (get seg_desc_base_2 dsc <<< 16))
      (get seg_desc_base_1 dsc)

pub end_of : ℕ → ℕ
end_of dsc =
    let limit = bit_or (get seg_desc_limit_2 dsc <<< 16) (get seg_desc_limit_1 dsc) in
    if get seg_desc_g dsc == 1
    then add32 (add32 (start_of dsc) (limit <<< 12)) 4095
    else add32 (start_of dsc) limit

-- The calls of one round, for the index, the bounds and the descriptor.
unfoldable pub row : (i start end dsc : ℕ) → List Call
row i start end dsc =
    debug (codes "%d ") i
    ∷ debug (codes "[0x%x ") start
    ∷ debug (codes "- 0x%x] ") end
    ∷ debug (codes "seg_t: 0x%x ") (get seg_desc_type dsc)
    ∷ debug (codes "desc_t: %d ") (get seg_desc_s dsc)
    ∷ debug (codes "priv: %d ") (get seg_desc_dpl dsc)
    ∷ debug (codes "present: %d ") (get seg_desc_p dsc)
    ∷ debug (codes "avl: %d ") (get seg_desc_avl dsc)
    ∷ debug (codes "longmode: %d ") (get seg_desc_l dsc)
    ∷ debug (codes "default: %d ") (get seg_desc_d dsc)
    ∷ debug (codes "gran: %d ") (get seg_desc_g dsc)
    ∷ record { format = codes "\n"; args = [] }
    ∷ []

-- The descriptor at an address.
abbrev pub raw_at : Memory → ℕ → ℕ
raw_at m a = load32 m a + 2 ^ 32 * load32 m (add32 a 4)

-- `while(gdt_ptr < stop) { ...; gdt_ptr++; i++; }`; `none` is a loop that has not ended within its
-- rounds.
pub dump_loop : ℕ → Memory → (stop gdt_ptr i : ℕ) → Option (List Call)
dump_loop zero m stop gdt_ptr i = none
dump_loop (suc f) m stop gdt_ptr i = elim (ltb gdt_ptr stop) [
  | true ↦
      let dsc = raw_at m gdt_ptr in
      Option.map (λ rows. row i (start_of dsc) (end_of dsc) dsc ++ rows)
        (dump_loop f m stop (add32 gdt_ptr 8) (i + 1))
  | false ↦ some []
]

-- A table has 8192 descriptors at most; one round is for the test that ends the loop.
abbrev pub dump_fuel : ℕ
dump_fuel = 8193

pub print_gdt_content : Memory → (addr limit : ℕ) → Option (List Call)
print_gdt_content m addr limit = dump_loop dump_fuel m (add32 addr limit) addr 0
