-- ===== src/Cpu/Interrupt.antt =====
-- How the processor enters and leaves an interrupt, with the `pusha` and `popa` of the stubs.
use mathlib.Core.List.{reverse_aux}
use secos_ng.Base.{
  ℕ, suc, ◌+◌, ◌-◌, ◌*◌, ◌%◌, ◌^◌, ◌≤◌, ◌<◌, ◌⊎◌, ◌≡◌, refl, ap, ◌∙◌, sym, arith, List, [], ◌∷◌,
  ◌++◌, true, false, length, length-append, add32, sub32, drop, ◌==◌, if◌then◌else◌, Option, none,
  some,
}
use secos_ng.Memory.{Memory, IsBytes}
use secos_ng.Cpu.Push.{
  push_all, words, AreWords32, words-push_all, push_all-outside, push_all-IsBytes,
}

-- The registers of the interrupted code.
pub record Registers : Type 0 where
  pub edi : ℕ
  pub esi : ℕ
  pub ebp : ℕ
  pub ebx : ℕ
  pub edx : ℕ
  pub ecx : ℕ
  pub eax : ℕ
  pub eip : ℕ
  pub cs : ℕ
  pub eflags : ℕ
  pub esp : ℕ
  pub ss : ℕ

pub record AreWordsOf (r : Registers) : Type 0 where
  pub pointers : AreWords32 (r.edi ∷ r.esi ∷ r.ebp ∷ r.esp ∷ [])
  pub others : AreWords32 (r.ebx ∷ r.edx ∷ r.ecx ∷ r.eax ∷ [])
  pub code : AreWords32 (r.eip ∷ r.cs ∷ r.eflags ∷ r.ss ∷ [])

-- What the processor pushes; the stack is that of ring 0 when the interrupted code is in another
-- ring, and stays the same when it is in ring 0.
abbrev pub frame : Registers → List ℕ
frame r =
    if r.cs % 4 == 0
    then r.eflags ∷ r.cs ∷ r.eip ∷ []
    else r.ss ∷ r.esp ∷ r.eflags ∷ r.cs ∷ r.eip ∷ []

abbrev pub frame_top : (esp0 : ℕ) → Registers → ℕ
frame_top esp0 r = if r.cs % 4 == 0 then r.esp else esp0

-- `pusha` with the stack pointer at `e`.
abbrev pub pusha : Registers → ℕ → List ℕ
pusha r e = r.eax ∷ r.ecx ∷ r.edx ∷ r.ebx ∷ e ∷ r.ebp ∷ r.esi ∷ r.edi ∷ []

-- `iret` with the stack pointer at `e`, from the words there; a return within ring 0 pops neither
-- stack pointer nor stack segment.
unfoldable pub iret : (e ss : ℕ) → Registers → List ℕ → Option Registers
iret e ss r (eip ∷ cs ∷ eflags ∷ esp ∷ ss' ∷ rest) = some (record r {
  eip = eip;
  cs = cs;
  eflags = eflags;
  esp = if cs % 4 == 0 then add32 e 12 else esp;
  ss = if cs % 4 == 0 then ss else ss';
})
iret e ss r ws = none

-- `popa`, which drops the stack pointer that `pusha` saved, then `skipped` words, then `iret`.
unfoldable pub popa_iret : (skipped e ss : ℕ) → Registers → List ℕ → Option Registers
popa_iret skipped e ss r (edi ∷ esi ∷ ebp ∷ gpr_esp ∷ ebx ∷ edx ∷ ecx ∷ eax ∷ ws) =
    iret (add32 e (32 + 4 * skipped)) ss
      (record r { edi = edi; esi = esi; ebp = ebp; ebx = ebx; edx = edx; ecx = ecx; eax = eax })
      (drop skipped ws)
popa_iret skipped e ss r ws = none

-- The stack pointer after the frame and the words that a stub pushes behind it.
abbrev pub after_frame : (esp0 : ℕ) → Registers → List ℕ → ℕ
after_frame esp0 r stub = sub32 (frame_top esp0 r) (4 * length (frame r ++ stub))

-- The interrupt up to the call of the handler in C: the memory, and the stack pointer.
unfoldable pub enter : Memory → (esp0 : ℕ) → Registers → (stub : List ℕ) → Memory × ℕ
enter m esp0 r stub =
    let e = after_frame esp0 r stub in
    (push_all (push_all m (frame_top esp0 r) (frame r ++ stub)) e (pusha r e), sub32 e 32)

-- Where the stack has room: aligned, for the frame, the stub's words and those of `pusha` below, and
-- for two words above.
pub record HasRoom (esp0 : ℕ) (r : Registers) (stub : List ℕ) : Type 0 where
  pub aligned : frame_top esp0 r % 4 ≡ 0
  pub below : 52 + 4 * length stub ≤ frame_top esp0 r
  pub above : frame_top esp0 r + 8 < 2 ^ 32

AreWords32-append : (xs ys : List ℕ) → AreWords32 xs → AreWords32 ys → AreWords32 (xs ++ ys)
AreWords32-append [] ys h k = k
AreWords32-append (x ∷ xs) ys h k = (h.0, AreWords32-append xs ys h.1 k)

pub frame-AreWords32 : (r : Registers) → AreWordsOf r → AreWords32 (frame r)
frame-AreWords32 r w =
    elim (r.cs % 4 == 0)
      as (λ b.
        AreWords32 (
          if b
          then r.eflags ∷ r.cs ∷ r.eip ∷ []
          else r.ss ∷ r.esp ∷ r.eflags ∷ r.cs ∷ r.eip ∷ [])) [
            | true ↦ omega arith
            | false ↦ omega arith
          ]

pub length-frame : (r : Registers) → (3 ≤ length (frame r)) × (length (frame r) ≤ 5)
length-frame r = ground arith

reverse_aux-append :
    (xs ys zs : List ℕ) → reverse_aux (xs ++ ys) zs ≡ reverse_aux ys (reverse_aux xs zs)
reverse_aux-append [] ys zs = refl
reverse_aux-append (x ∷ xs) ys zs = reverse_aux-append xs ys (x ∷ zs)

drop-reverse_aux : (ys zs : List ℕ) (n : ℕ) → drop (length ys + n) (reverse_aux ys zs) ≡ drop n zs
drop-reverse_aux [] zs n = ap (λ (k : ℕ). drop k zs) (omega arith)
drop-reverse_aux (y ∷ ys) zs n =
    ap (λ (k : ℕ). drop k (reverse_aux ys (y ∷ zs))) (omega arith)
    ∙ drop-reverse_aux ys (y ∷ zs) (suc n)

iret-frame :
    (r g : Registers) (e : ℕ) (a b : ℕ)
    → (r.cs % 4 ≡ 0 → r.esp ≡ add32 e 12)
    → iret e r.ss
        (record g {
          edi = r.edi;
          esi = r.esi;
          ebp = r.ebp;
          ebx = r.ebx;
          edx = r.edx;
          ecx = r.ecx;
          eax = r.eax;
        })
        (reverse_aux (frame r) (a ∷ b ∷ []))
      ≡ some r
unfolding iret
iret-frame r g e a b h = ground (arith, h)

module _ (m : Memory) (esp0 : ℕ) (r : Registers) (stub : List ℕ) where
  -- What stands from the handler's argument up, with the two words above the frame.
  pub words-enter :
      AreWordsOf r
      → AreWords32 stub
      → HasRoom esp0 r stub
      → words (enter m esp0 r stub).0 (enter m esp0 r stub).1 (8 + (length (frame r ++ stub) + 2))
        ≡ reverse_aux
            (pusha r (after_frame esp0 r stub))
            (reverse_aux (frame r ++ stub) (words m (frame_top esp0 r) 2))
  unfolding enter
  words-enter w v h =
      let hw = frame r ++ stub in
      let top = frame_top esp0 r in
      let e = after_frame esp0 r stub in
      let m1 = push_all m top hw in
      let few = length-frame r in
      let long = length-append (frame r) stub in
      let here : e ≡ top - 4 * length hw = omega (arith, h.below, h.above) in
      let low : sub32 e 32 ≡ e - 4 * 8 = omega (arith, h.below, h.above) in
      ap (λ (a : ℕ). words (push_all m1 e (pusha r e)) a (8 + (length hw + 2))) low
      ∙ words-push_all (pusha r e) m1 e (length hw + 2) (omega (arith, h.aligned, h.below, h.above))
          (omega (arith, w.pointers, w.others)) (omega (arith, h.below)) (omega (arith, h.above))
      ∙ ap (reverse_aux (pusha r e)) (
          ap (λ (a : ℕ). words m1 a (length hw + 2)) here
          ∙ words-push_all hw m top 2 (omega (arith, h.aligned, h.above))
              (AreWords32-append (frame r) stub (frame-AreWords32 r w) v) (omega (arith, h.below))
              (omega (arith, h.above)))

  -- `popa`, the drop of the stub's words and `iret` give back the registers of the interrupted code,
  -- from every memory that has the words of `enter` at a stack pointer `e`: there itself, or, for
  -- code of another ring, anywhere.
  pub popa_iret-enter :
      (g : Registers) (e : ℕ) (ws : List ℕ)
      → AreWordsOf r
      → AreWords32 stub
      → HasRoom esp0 r stub
      → words (enter m esp0 r stub).0 (enter m esp0 r stub).1 (8 + (length (frame r ++ stub) + 2))
        ≡ ws
      → (r.cs % 4 ≡ 0 → e ≡ (enter m esp0 r stub).1)
      → popa_iret (length stub) e r.ss g ws ≡ some r
  unfolding popa_iret words enter
  popa_iret-enter g e ws w v h at same =
      let above = words m (frame_top esp0 r) 2 in
      ap (popa_iret (length stub) e r.ss g) (sym at ∙ words-enter w v h)
      ∙ ap (iret (add32 e (32 + 4 * length stub)) r.ss _) (
          ap (drop (length stub)) (reverse_aux-append (frame r) stub above)
          ∙ ap (λ (k : ℕ). drop k (reverse_aux stub (reverse_aux (frame r) above))) (omega arith)
          ∙ drop-reverse_aux stub (reverse_aux (frame r) above) 0)
      ∙ iret-frame r g (add32 e (32 + 4 * length stub)) _ _
          (λ z. ground (arith, same z, z, length-append (frame r) stub, h.below, h.above))

  -- The entry writes only below the stack's top.
  pub enter-outside :
      HasRoom esp0 r stub
      → (x : ℕ) → (x < frame_top esp0 r - (52 + 4 * length stub)) ⊎ (frame_top esp0 r ≤ x)
      → (enter m esp0 r stub).0 x ≡ m x
  unfolding enter
  enter-outside h x o =
      let hw = frame r ++ stub in
      let top = frame_top esp0 r in
      let e = after_frame esp0 r stub in
      let few = length-frame r in
      let long = length-append (frame r) stub in
      push_all-outside (pusha r e) (push_all m top hw) e x (omega (arith, h.below, h.above))
        (omega (arith, h.below, h.above)) (omega (arith, h.below, h.above, o))
      ∙ push_all-outside hw m top x (omega (arith, h.below)) (omega (arith, h.above))
          (omega (arith, o))

  pub enter-IsBytes : IsBytes m → IsBytes (enter m esp0 r stub).0
  unfolding enter
  enter-IsBytes b =
      push_all-IsBytes (pusha r (after_frame esp0 r stub)) _ (after_frame esp0 r stub)
        (push_all-IsBytes (frame r ++ stub) m (frame_top esp0 r) b)
