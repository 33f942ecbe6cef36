-- ===== src/Stack/Frames.antt =====
-- A stack whose frames lie one above the other, as the compiler builds it, and what the walk prints
-- of it.
use mathlib.Core.Option
use mathlib.Core.Option.{Option, none, some}
use secos_ng.Base.{
  ℕ, zero, suc, ◌+◌, ◌-◌, ◌*◌, ◌≤◌, ◌<◌, ◌≡◌, ◌⊎◌, inl, inr, refl, ap, ◌∙◌, arith, List, [], ◌∷◌,
  ◌++◌, map, length, codes, u32, add32,
}
use secos_ng.Memory.{Memory, load32}
use secos_ng.Print.Format.{Outcome, done, ◌>>=◌, arg32}
use secos_ng.Print.Format.Spec.{plain, parse, render, read, show, directive}
use secos_ng.Print.Digits.Numeral.{numeral}
use secos_ng.Print.Calls.{output}
use secos_ng.Stack.{trace_loop, trace_fuel, heading_call, frame_call, stack_trace}

-- The frames from `ebp` on, with their return addresses: the saved frame pointer of each one is
-- that of its caller, whose frame lies above its eight bytes, until a null pointer or one that is
-- no stack address ends the chain.
pub data Frames (m : Memory) (kernel_start : ℕ) : ℕ → List ℕ → Type 0 where
  bottom : (ebp : ℕ) → (ebp ≡ 0) ⊎ (kernel_start ≤ ebp) → Frames m kernel_start ebp []
  frame :
      (ebp up eip : ℕ) {eips : List ℕ}
      → 0 < ebp
      → ebp < kernel_start
      → load32 m ebp ≡ up
      → load32 m (add32 ebp 4) ≡ eip
      → (up ≡ 0) ⊎ (ebp + 8 ≤ up)
      → Frames m kernel_start up eips
      → Frames m kernel_start ebp (eip ∷ eips)

-- As many frames as there are, and one round for the test that ends the loop.
trace_loop-Frames :
    (m : Memory) (kernel_start : ℕ) {ebp : ℕ} {eips : List ℕ}
    → Frames m kernel_start ebp eips
    → (f : ℕ) → length eips < f
    → trace_loop f m kernel_start ebp ≡ some eips
unfolding trace_loop
trace_loop-Frames m ks (bottom ebp e) zero h = absurd (omega arith)
trace_loop-Frames m ks (bottom ebp e) (suc f) h = ground arith
trace_loop-Frames m ks (frame ebp up eip lo hi e e' above fs) zero h = absurd (omega arith)
trace_loop-Frames m ks (frame ebp up eip lo hi e e' above fs) (suc f) h =
    ground (arith, trace_loop-Frames m ks fs f (omega arith))

-- The chain ends at a null pointer.
Frames-null :
    (m : Memory) (kernel_start : ℕ) {ebp : ℕ} {eips : List ℕ}
    → Frames m kernel_start ebp eips
    → ebp ≡ 0
    → length eips ≡ 0
Frames-null m ks (bottom ebp e) z = refl
Frames-null m ks (frame ebp up eip lo hi e e' above fs) z = absurd (omega arith)

-- The frames fit below `kernel_start`.
Frames-length :
    (m : Memory) (kernel_start : ℕ) {ebp : ℕ} {eips : List ℕ}
    → Frames m kernel_start ebp eips
    → length eips * 8 ≤ kernel_start - ebp + 7
Frames-length m ks (bottom ebp e) = omega arith
Frames-length m ks (frame ebp up eip lo hi e e' (inl z) fs) = omega (arith, Frames-null m ks fs z)
Frames-length m ks (frame ebp up eip lo hi e e' (inr above) fs) =
    omega (arith, Frames-length m ks fs)

-- A return address and the end of its line.
unfoldable pub line : ℕ → List ℕ
line eip = (b'0' ∷ b'x' ∷ numeral 16 16 (u32 eip)) ++ b'\n' ∷ []

unfoldable pub lines : List ℕ → List ℕ
lines [] = []
lines (eip ∷ eips) = line eip ++ lines eips

frame_call-render :
    (text : ℕ → List ℕ) (eip : ℕ)
    → render text (parse plain (codes "%p\n")) (eip ∷ []) ≡ done ([], line eip)
unfolding render parse read show directive arg32 line
frame_call-render text eip = refl

output-frames :
    (text : ℕ → List ℕ) (eips : List ℕ) → output text (map frame_call eips) ≡ done (lines eips)
unfolding output lines
output-frames text [] = refl
output-frames text (eip ∷ eips) =
    ground (arith, frame_call-render text eip, output-frames text eips)

abbrev pub heading : List ℕ
heading = codes "\n-= Stack Trace =-\n"

output-heading :
    (text : ℕ → List ℕ) (eips : List ℕ)
    → output text (heading_call ∷ map frame_call eips) ≡ done (heading ++ lines eips)
unfolding output render parse read show
output-heading text eips =
    ap (λ (o : Outcome (List ℕ)). o >>= (λ t. done (heading ++ t))) (output-frames text eips)

-- The calls on such a chain.
pub stack_trace-calls :
    (m : Memory) (kernel_start from : ℕ) (eips : List ℕ)
    → Frames m kernel_start from eips
    → stack_trace m kernel_start from ≡ some (heading_call ∷ map frame_call eips)
unfolding stack_trace
stack_trace-calls m kernel_start from eips fs =
    ap (Option.map (λ es. heading_call ∷ map frame_call es)) (
      trace_loop-Frames m kernel_start fs (trace_fuel kernel_start)
        (omega (arith, Frames-length m kernel_start fs)))

-- On a chain of frames that lie one above the other, `stack_trace` ends, and what it has printed is
-- the heading and then the return address of every frame, from the innermost one up.
pub stack_trace-Frames :
    (text : ℕ → List ℕ) (m : Memory) (kernel_start from : ℕ) (eips : List ℕ)
    → Frames m kernel_start from eips
    → Option.map (output text) (stack_trace m kernel_start from)
      ≡ some (done (heading ++ lines eips))
stack_trace-Frames text m kernel_start from eips fs =
    ap (Option.map (output text)) (stack_trace-calls m kernel_start from eips fs)
    ∙ ap some (output-heading text eips)
