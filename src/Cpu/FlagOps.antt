-- ===== src/Cpu/FlagOps.antt =====
-- The operations on the flags register of kernel/include/gpr.h and kernel/include/asm.h, as code of
-- ring 0 runs them; the word is what the register has.
use native.Mathlib.Nat.{div-add-mod'}
use secos_ng.Base.{
  ℕ, ◌+◌, ◌*◌, ◌/◌, ◌%◌, ◌^◌, ◌≡◌, ◌≢◌, inr, refl, ap, ◌∙◌, sym, arith, List, [], ◌∷◌, bit_and,
  ◌<<<◌,
}
use secos_ng.Bitfield.{Field, get, put}
use secos_ng.Bitfield.Assign.{assign}
use secos_ng.Base.Bits.{bit_and_bit}
use secos_ng.Bitfield.Laws.{get-put_self, get-put_ne}
use secos_ng.Cpu.Flags.{
  eflags_r1, eflags_r2, eflags_r3, eflags_it, eflags_r4, eflags_rf, eflags_vm, eflags_vit,
  eflags_vip, eflags_r5,
}

-- What `popf` of ring 0 does not take from the stack: the bits that have no flag, and the last four
-- of these, of which `vm` stays.
abbrev pub fixed : (vm : ℕ) → List (Field × ℕ)
fixed vm =
    (eflags_r1, 1)
    ∷ (eflags_r2, 0)
    ∷ (eflags_r3, 0)
    ∷ (eflags_r4, 0)
    ∷ (eflags_r5, 0)
    ∷ (eflags_rf, 0)
    ∷ (eflags_vm, vm)
    ∷ (eflags_vit, 0)
    ∷ (eflags_vip, 0)
    ∷ []

-- `pushf` stores `rf` and `vm` as 0.
unfoldable pub save_flags : ℕ → ℕ
save_flags now = put eflags_vm 0 (put eflags_rf 0 now)

unfoldable pub load_flags : (flags now : ℕ) → ℕ
load_flags flags now = assign (fixed (get eflags_vm now)) flags

unfoldable pub clear_flags : ℕ → ℕ
clear_flags now = load_flags 0 now

unfoldable pub force_interrupts_off : ℕ → ℕ
force_interrupts_off now = put eflags_it 0 now

unfoldable pub force_interrupts_on : ℕ → ℕ
force_interrupts_on now = put eflags_it 1 now

unfoldable pub is_interrupts_enabled : ℕ → ℕ
is_interrupts_enabled now = bit_and (save_flags now) (1 <<< 9)

-- The word saved, and what the register then has.
unfoldable pub disable_interrupts : ℕ → ℕ × ℕ
disable_interrupts now = (save_flags now, force_interrupts_off now)

unfoldable pub enable_interrupts : ℕ → ℕ × ℕ
enable_interrupts now = (save_flags now, force_interrupts_on now)

unfoldable pub restore_interrupts : (flags now : ℕ) → ℕ
restore_interrupts flags now = load_flags flags now

-- The members have these values.
abbrev pub Holds : List (Field × ℕ) → ℕ → Type 0
Holds [] x = Unit
Holds ((f, v) ∷ es) x = (get f x ≡ v % 2 ^ f.width) × Holds es x

-- Flags as the kernel has them: no virtual machine and no flag but those a `popf` sets.
abbrev pub AreKernelFlags : ℕ → Type 0
AreKernelFlags now = Holds (fixed 0) now

put_same : (f : Field) (v x : ℕ) → get f x ≡ v % 2 ^ f.width → put f v x ≡ x
put_same f v x h =
    ap (λ (t : ℕ). (x / 2 ^ f.lo / 2 ^ f.width * 2 ^ f.width + t) * 2 ^ f.lo + x % 2 ^ f.lo) (sym h)
    ∙ ap (λ (t : ℕ). t * 2 ^ f.lo + x % 2 ^ f.lo) (div-add-mod' (x / 2 ^ f.lo) (2 ^ f.width))
    ∙ div-add-mod' x (2 ^ f.lo)

assign_same : (es : List (Field × ℕ)) (x : ℕ) → Holds es x → assign es x ≡ x
unfolding assign
assign_same [] x h = refl
assign_same ((f, v) ∷ es) x h = ap (assign es) (put_same f v x h.0) ∙ assign_same es x h.1

pub not_virtual : (now : ℕ) → AreKernelFlags now → get eflags_vm now ≡ 0
not_virtual now h = h.1.1.1.1.1.1.0

pub load_flags-save_flags :
    (now later : ℕ)
    → AreKernelFlags now
    → get eflags_vm later ≡ 0
    → load_flags (save_flags now) later ≡ now
unfolding load_flags save_flags
load_flags-save_flags now later h vm =
    let saved : put eflags_vm 0 (put eflags_rf 0 now) ≡ now =
      ap (put eflags_vm 0) (put_same eflags_rf 0 now h.1.1.1.1.1.0)
      ∙ put_same eflags_vm 0 now (not_virtual now h) in
    ap (λ (v : ℕ). assign (fixed v) (save_flags now)) vm
    ∙ ap (assign (fixed 0)) saved
    ∙ assign_same (fixed 0) now h

is_interrupts_enabled_lem : (now : ℕ) → is_interrupts_enabled now ≡ get eflags_it now * 2 ^ 9
unfolding is_interrupts_enabled save_flags
is_interrupts_enabled_lem now =
    bit_and_bit 9 (save_flags now)
    ∙ ap (λ (t : ℕ). t * 2 ^ 9)
        (get-put_ne eflags_vm eflags_it 0 (put eflags_rf 0 now) (inr (omega arith))
          ∙ get-put_ne eflags_rf eflags_it 0 now (inr (omega arith)))

pub force_interrupts_on-is_interrupts_enabled :
    (now : ℕ) → is_interrupts_enabled (force_interrupts_on now) ≢ 0
unfolding force_interrupts_on
force_interrupts_on-is_interrupts_enabled now e =
    let on = is_interrupts_enabled_lem (put eflags_it 1 now) in
    absurd (omega (arith, on, e, get-put_self eflags_it 1 now))

-- In the kernel, behind `disable_interrupts` no interrupt comes, behind `enable_interrupts` they come,
-- and `restore_interrupts` with the word of either gives all flags back as they were, whatever the
-- kernel has made of them in between.
pub restore_interrupts-flags :
    (now later : ℕ)
    → AreKernelFlags now
    → AreKernelFlags later
    → (is_interrupts_enabled (disable_interrupts now).1 ≡ 0)
      × (is_interrupts_enabled (enable_interrupts now).1 ≢ 0)
      × (restore_interrupts (disable_interrupts now).0 later ≡ now)
      × (restore_interrupts (enable_interrupts now).0 later ≡ now)
unfolding disable_interrupts enable_interrupts restore_interrupts force_interrupts_off
    force_interrupts_on
restore_interrupts-flags now later h k =
    let back = load_flags-save_flags now later h (not_virtual later k) in
    let off = is_interrupts_enabled_lem (put eflags_it 0 now) in
    let on = is_interrupts_enabled_lem (put eflags_it 1 now) in
    (
      omega (arith, off, get-put_self eflags_it 0 now),
      λ e. absurd (omega (arith, on, e, get-put_self eflags_it 1 now)),
      back,
      back,
    )
