-- ===== src/Segment/Exercise/Entries.antt =====
-- What the entries of `my_gdt` say, and where they stand.
use secos_ng.Base.{ℕ, ◌+◌, ◌*◌, ◌%◌, ◌^◌, ◌≡◌, ◌∙◌, arith, ◌==◌, if◌then◌else◌}
use secos_ng.Bitfield.{get}
use secos_ng.Bitfield.Assign.{assign, get-assign}
use secos_ng.Segment.Regs.{
  seg_desc_limit_1, seg_desc_limit_2, seg_desc_type, seg_desc_dpl, seg_desc_g, seg_desc_s,
  seg_desc_p, seg_desc_base_1, seg_desc_base_2, seg_desc_base_3,
}
use secos_ng.Segment.Table.{segment}
use secos_ng.Segment.Exercise.{descriptor}

segment-members :
    (y l1 l2 b1 b2 b3 g typ s dpl p : ℕ)
    → get seg_desc_limit_1 y ≡ l1
    → get seg_desc_limit_2 y ≡ l2
    → get seg_desc_base_1 y ≡ b1
    → get seg_desc_base_2 y ≡ b2
    → get seg_desc_base_3 y ≡ b3
    → get seg_desc_g y ≡ g
    → get seg_desc_type y ≡ typ
    → get seg_desc_s y ≡ s
    → get seg_desc_dpl y ≡ dpl
    → get seg_desc_p y ≡ p
    → segment y ≡ record {
      base = b1 + b2 * 2 ^ 16 + b3 * 2 ^ 24;
      last = if g == 1 then (l1 + l2 * 2 ^ 16) * 4096 + 4095 else l1 + l2 * 2 ^ 16;
      kind = typ;
      system = s;
      dpl = dpl;
      present = p;
    }
unfolding segment
segment-members y l1 l2 b1 b2 b3 g typ s dpl p e1 e2 e3 e4 e5 e6 e7 e8 e9 e10 = cc

-- The segment of an entry, whatever the stack had there.
pub segment-descriptor :
    (limit_1 base_2 type dpl limit_2 g x : ℕ)
    → segment (assign (descriptor limit_1 base_2 type dpl limit_2 g) x) ≡ record {
      base = base_2 % 2 ^ 8 * 2 ^ 16;
      last =
          if g % 2 == 1
          then (limit_1 % 2 ^ 16 + limit_2 % 2 ^ 4 * 2 ^ 16) * 4096 + 4095
          else limit_1 % 2 ^ 16 + limit_2 % 2 ^ 4 * 2 ^ 16;
      kind = type % 2 ^ 4;
      system = 1;
      dpl = dpl % 2 ^ 2;
      present = 1;
    }
unfolding segment descriptor
segment-descriptor limit_1 base_2 type dpl limit_2 g x =
    let es = descriptor limit_1 base_2 type dpl limit_2 g in
    let y = assign es x in
    segment-members y (limit_1 % 2 ^ 16) (limit_2 % 2 ^ 4) 0 (base_2 % 2 ^ 8) 0 (g % 2)
      (type % 2 ^ 4) 1 (dpl % 2 ^ 2) 1 (get-assign es seg_desc_limit_1 x (omega arith))
      (get-assign es seg_desc_limit_2 x (omega arith))
      (get-assign es seg_desc_base_1 x (omega arith))
      (get-assign es seg_desc_base_2 x (omega arith))
      (get-assign es seg_desc_base_3 x (omega arith)) (get-assign es seg_desc_g x (omega arith))
      (get-assign es seg_desc_type x (omega arith)) (get-assign es seg_desc_s x (omega arith))
      (get-assign es seg_desc_dpl x (omega arith)) (get-assign es seg_desc_p x (omega arith))
    ∙ ground arith
