-- ===== src/Trap/Table.antt =====
-- What the processor finds at each vector of the interrupt table.
use secos_ng.Base.{
  ℕ, zero, suc, ◌+◌, ◌*◌, ◌%◌, ◌^◌, ◌<◌, ◌≡◌, ap, ◌∙◌, arith, ◌==◌, if◌then◌else◌, Option, some,
  List, [], ◌∷◌, get_elem?, add32, ◌||◌,
}
use mathlib.Core.Option.{map}
use secos_ng.Bitfield.{get}
use secos_ng.Segment.{gdt_krn_seg_sel}
use secos_ng.Trap.{build_int_desc, fill_idt, intr_init, redirect, update_at, config_interrupt, Idtr}
use secos_ng.Trap.Gate.{
  int_desc_offset_1, int_desc_selector, int_desc_type, int_desc_dpl, int_desc_p, int_desc_offset_2,
}

-- A descriptor as the processor reads it.
pub record Gate : Type 0 where
  pub handler : ℕ
  pub cs : ℕ
  pub kind : ℕ
  pub dpl : ℕ
  pub present : ℕ

unfoldable pub gate : ℕ → Gate
gate dsc = record {
  handler = get int_desc_offset_1 dsc + get int_desc_offset_2 dsc * 2 ^ 16;
  cs = get int_desc_selector dsc;
  kind = get int_desc_type dsc;
  dpl = get int_desc_dpl dsc;
  present = get int_desc_p dsc;
}

-- A present 32-bit interrupt gate into the kernel's code segment.
abbrev pub kernel_gate : ℕ → ℕ → Gate
kernel_gate isr level = record { handler = isr; cs = 8; kind = 14; dpl = level; present = 1 }

pub gate-build_int_desc :
    (isr : ℕ) → isr < 2 ^ 32 → gate (build_int_desc (gdt_krn_seg_sel 1) isr) ≡ kernel_gate isr 0
unfolding gate build_int_desc
gate-build_int_desc isr h = ground arith

gate-redirect :
    (isr dsc : ℕ)
    → isr < 2 ^ 32
    → gate (redirect isr dsc) ≡ record (gate dsc) { handler = isr; dpl = 3 }
unfolding gate redirect
gate-redirect isr dsc h = ground arith

pub get_elem?-fill_idt :
    (n isr i : ℕ)
    → i < n
    → isr < 2 ^ 32
    → get_elem? (fill_idt n isr) i
      ≡ some (build_int_desc (gdt_krn_seg_sel 1) ((isr + 16 * i) % 2 ^ 32))
unfolding fill_idt
get_elem?-fill_idt zero isr i hi h = absurd (omega arith)
get_elem?-fill_idt (suc n) isr zero hi h =
    ap (λ (a : ℕ). some (build_int_desc (gdt_krn_seg_sel 1) a)) (omega arith)
get_elem?-fill_idt (suc n) isr (suc i) hi h =
    get_elem?-fill_idt n (add32 isr 16) i (omega arith) (omega arith)
    ∙ ap (λ (a : ℕ). some (build_int_desc (gdt_krn_seg_sel 1) a)) (omega arith)

get_elem?-update_at :
    (i j : ℕ) (f : ℕ → ℕ) (xs : List ℕ)
    → get_elem? (update_at i f xs) j ≡ (if i == j then map f (get_elem? xs j) else get_elem? xs j)
unfolding update_at
get_elem?-update_at i j f [] = ground arith
get_elem?-update_at zero zero f (x ∷ xs) = ground arith
get_elem?-update_at zero (suc j) f (x ∷ xs) = ground arith
get_elem?-update_at (suc i) zero f (x ∷ xs) = ground arith
get_elem?-update_at (suc i) (suc j) f (x ∷ xs) = ground (arith, get_elem?-update_at i j f xs)

-- An entry after its own one, or another one, is changed.
pub get_elem?-update :
    (i v : ℕ) (f : ℕ → ℕ) (d : ℕ) (xs : List ℕ)
    → get_elem? xs v ≡ some d
    → get_elem? (update_at i f xs) v ≡ some (if i == v then f d else d)
get_elem?-update i v f d xs h = ground (arith, get_elem?-update_at i v f xs)

-- A gate after its own vector, or another one, is redirected.
pub get_elem?-redirect :
    (i v isr d : ℕ) (xs : List ℕ)
    → get_elem? xs v ≡ some d
    → get_elem? (update_at i (redirect isr) xs) v ≡ some (if i == v then redirect isr d else d)
get_elem?-redirect i v isr d xs h = get_elem?-update i v (redirect isr) d xs h

pub gate_either :
    (i v isr : ℕ) (d : ℕ)
    → isr < 2 ^ 32
    → gate (if i == v then redirect isr d else d)
      ≡ (if i == v then record (gate d) { handler = isr; dpl = 3 } else gate d)
gate_either i v isr d h = ground (arith, gate-redirect isr d h)

-- The table at a vector, as gates.
abbrev pub gate_at : ℕ → Idtr → Option Gate
gate_at v idtr = map gate (get_elem? idtr.desc v)

-- What a vector's handler is after `config_interrupt`, and from which level `int` may name it.
abbrev pub handler_of : (clock syscall stub v : ℕ) → ℕ
handler_of clock syscall stub v =
    if v == 32 then clock else if v == 128 then syscall else (stub + 16 * v) % 2 ^ 32

abbrev pub level_of : ℕ → ℕ
level_of v = if (v == 32) || (v == 128) then 3 else 0

-- Each of the 256 vectors of the table that `intr_init` builds on the stubs at a 32-bit address
-- `stub` holds a present 32-bit interrupt gate of level 0 into the kernel's code segment, whose
-- handler is the vector's stub, 16 bytes after the one before.
gate_at-intr_init :
    (stub v : ℕ)
    → stub < 2 ^ 32
    → v < 256
    → gate_at v (intr_init stub) ≡ some (kernel_gate ((stub + 16 * v) % 2 ^ 32) 0)
unfolding intr_init
gate_at-intr_init stub v hs hv =
    ap (map gate) (get_elem?-fill_idt 256 stub v hv hs)
    ∙ ap some (gate-build_int_desc ((stub + 16 * v) % 2 ^ 32) (omega arith))

-- After `intr_init` and `config_interrupt`, with 32-bit addresses, vector 32 leads to the clock
-- handler and vector 128 to the system call handler, both open to ring 3; every other vector keeps
-- its stub and level 0, and all gates stay present 32-bit interrupt gates into the kernel's code
-- segment.
pub gate_at-config_interrupt :
    (stub clock syscall v : ℕ)
    → stub < 2 ^ 32
    → clock < 2 ^ 32
    → syscall < 2 ^ 32
    → v < 256
    → gate_at v (config_interrupt clock syscall (intr_init stub))
      ≡ some (kernel_gate (handler_of clock syscall stub v) (level_of v))
unfolding config_interrupt intr_init
gate_at-config_interrupt stub clock syscall v hs hc hy hv =
    let a = (stub + 16 * v) % 2 ^ 32 in
    let d0 = build_int_desc (gdt_krn_seg_sel 1) a in
    let e0 = get_elem?-fill_idt 256 stub v hv hs in
    let d1 = if 32 == v then redirect clock d0 else d0 in
    let e1 = get_elem?-redirect 32 v clock d0 (intr_init stub).desc e0 in
    let e2 = get_elem?-redirect 128 v syscall d1 _ e1 in
    ap (map gate) e2
    ∙ ap some (gate_either 128 v syscall d1 hy)
    ∙ ground (arith, gate_either 32 v clock d0 hc, gate-build_int_desc a (omega arith))
