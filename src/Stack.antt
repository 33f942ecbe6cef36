-- ===== src/Stack.antt =====
-- kernel/core/stack.c: the walk over the saved frame pointers. `kernel_start` is the address of the
-- symbol of that name, which the linker places.
pub mod Frames
use mathlib.Core.Option
use secos_ng.Base.{
  ℕ, zero, suc, ◌+◌, ◌*◌, ◌/◌, ◌%◌, ◌^◌, Bool, true, false, not, ◌&&◌, ◌==◌, ltb, List, [], ◌∷◌,
  map, Option, none, some, add32, codes,
}
use secos_ng.Memory.{Memory, load32}
use secos_ng.Print.Calls.{Call}

-- The test of the loop.
abbrev in_stack : ℕ → ℕ → Bool
in_stack kernel_start ebp = not (ebp == 0) && ltb ebp kernel_start

-- The loop: the return addresses that it prints. `none` is a walk that has not ended within its
-- rounds.
pub trace_loop : ℕ → Memory → (kernel_start ebp : ℕ) → Option (List ℕ)
trace_loop zero m kernel_start ebp = none
trace_loop (suc f) m kernel_start ebp = elim (in_stack kernel_start ebp) [
  | true ↦
      Option.map (λ eips. load32 m (add32 ebp 4) ∷ eips)
        (trace_loop f m kernel_start (load32 m ebp))
  | false ↦ some []
]

-- A frame takes eight bytes, so a stack below `kernel_start` has no more of them.
abbrev pub trace_fuel : ℕ → ℕ
trace_fuel kernel_start = kernel_start / 8 + 2

abbrev pub frame_call : ℕ → Call
frame_call eip = record { format = codes "%p\n"; args = eip ∷ [] }

abbrev pub heading_call : Call
heading_call = record { format = codes "\n-= Stack Trace =-\n"; args = [] }

pub stack_trace : Memory → (kernel_start from : ℕ) → Option (List Call)
stack_trace m kernel_start from =
    Option.map (λ eips. heading_call ∷ map frame_call eips)
      (trace_loop (trace_fuel kernel_start) m kernel_start from)
