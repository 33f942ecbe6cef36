-- ===== src/Trap/Ring3.antt =====
-- `tp` of tp3/tp.c: flat segments and a TSS, an `iret` to `userland` in ring 3, and what becomes of
-- the `mov` to `cr0` there. The table is the one that tp5/tp.c builds, by the same macros.
pub mod Stop
use secos_ng.Base.{
  ℕ, ◌+◌, ◌-◌, ◌*◌, ◌%◌, ◌^◌, ◌==◌, ◌&&◌, Bool, true, false, ◌/◌, if◌then◌else◌, List, [], ◌∷◌,
  Option, none, some, sub32,
}
use secos_ng.Memory.{Memory}
use secos_ng.Cpu.Push.{push_all, words}
use secos_ng.Cpu.Interrupt.{Registers, iret}
use secos_ng.Segment.{gdt_flat_dsc, code_xr, data_rw, c0_sel, d0_sel, c3_sel, d3_sel, ts_sel}
use secos_ng.Segment.Table.{Loaded, select}
use secos_ng.Trap.{update_at}
use secos_ng.Trap.Userland.{Frame, init_gdt, tss_dsc}
use secos_ng.Trap.Stubs.Ending.{Ending, interrupt}

-- What `init_gdt` and Q1 leave.
unfoldable pub segments : (tss ebp : ℕ) → Loaded
segments tss ebp = record {
  gdt = update_at 5 (λ dsc. tss_dsc tss) init_gdt;
  limit = 6 * 8 - 1;
  cs = c0_sel;
  data_sel = d3_sel;
  tss_esp0 = ebp;
  tss_ss0 = d0_sel;
  tr = ts_sel;
}

-- The words of the five `push`, in order.
abbrev pub frame_words : Frame → List ℕ
frame_words f = f.ss ∷ f.esp ∷ f.eflags ∷ f.cs ∷ f.eip ∷ []

-- The five `push` from the stack pointer `esp` down, and `iret`; `g` has the other registers.
unfoldable pub enter_ring3 : Memory → (esp : ℕ) → Registers → Frame → Option Registers
enter_ring3 m esp g f =
    let top = sub32 esp 20 in iret top g.ss g (words (push_all m esp (frame_words f)) top 5)

-- A privileged instruction. The `mov` is all of `userland` that counts here: a compiled prologue would
-- only push below `esp`.
pub data Attempt : Type 0 where
  executed : Attempt
  faulted : (vector err : ℕ) → Attempt

unfoldable pub mov_cr0 : Registers → Attempt
mov_cr0 r = if r.cs % 4 == 0 then executed else faulted 13 0

-- Whether `iret` takes the frame's selectors: present code and writable data, each of the level that
-- both selectors request.
unfoldable pub admits : Loaded → Frame → Bool
admits s f = elim (select s f.cs) [
  | none ↦ false
  | some c ↦ elim (select s f.ss) [
    | none ↦ false
    | some d ↦
        (c.present == 1)
        && (c.system == 1)
        && (c.kind / 8 == 1)
        && (c.dpl == f.cs % 4)
        && (d.present == 1)
        && (d.system == 1)
        && (d.kind / 8 == 0)
        && (d.kind / 2 % 2 == 1)
        && (d.dpl == f.cs % 4)
        && (f.ss % 4 == f.cs % 4)
  ]
]

-- The stack that the processor takes on an interrupt of ring 3: the task register names the TSS at
-- the address `tss`, and that has it, with a selector of present writable data of ring 0.
unfoldable pub ring0_stack : (tss : ℕ) → Loaded → Option ℕ
ring0_stack tss s = elim (select s s.tr) [
  | none ↦ none
  | some t ↦ elim (select s s.tss_ss0) [
    | none ↦ none
    | some d ↦
        if (t.present == 1)
          && (t.system == 0)
          && (t.kind == 9)
          && (t.base == tss)
          && (d.present == 1)
          && (d.system == 1)
          && (d.kind / 8 == 0)
          && (d.kind / 2 % 2 == 1)
          && (d.dpl == 0)
          && (s.tss_ss0 % 4 == 0)
        then some s.tss_esp0
        else none
  ]
]

-- What becomes of `userland`, with the memory and the registers at the first `push`.
unfoldable pub runs :
    (tss : ℕ) → Loaded → Frame → (esp cr2 : ℕ) → Memory → (g h : Registers) → Option Ending
runs tss s f esp cr2 m g h = elim (admits s f) [
  | false ↦ none
  | true ↦ elim (enter_ring3 m esp g f) [
    | none ↦ none
    | some r ↦ elim (mov_cr0 r) [
      | executed ↦ none
      | faulted v err ↦ elim (ring0_stack tss s) [
        | none ↦ none
        | some esp0 ↦ some (interrupt (push_all m esp (frame_words f)) esp0 r h v err cr2)
      ]
    ]
  ]
]

-- `tp` up to the end of `userland`; `tss` is the address of the TSS, `m` and `g` are the memory and
-- registers at the first `push`, `h` has the registers as a handler leaves them.
unfoldable pub tp : (tss userland esp eflags cr2 : ℕ) → Memory → (g h : Registers) → Option Ending
tp tss userland esp eflags cr2 m g h =
    runs tss (segments tss g.ebp)
      (record { ss = d3_sel; esp = g.ebp; eflags = eflags; cs = c3_sel; eip = userland }) esp cr2 m
      g h
