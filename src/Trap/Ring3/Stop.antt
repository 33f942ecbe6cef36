-- ===== src/Trap/Ring3/Stop.antt =====
-- `tp` of tp3/tp.c comes to ring 3, and stops the kernel there.
use secos_ng.Base.{
  ℕ, ◌+◌, ◌-◌, ◌%◌, ◌^◌, ◌≤◌, ◌<◌, ◌≡◌, true, inl, refl, ap, ◌∙◌, arith, some, sub32,
}
use secos_ng.Memory.{Memory}
use secos_ng.Cpu.Push.{push_all, words, words-push_all, AreWords32}
use secos_ng.Cpu.Interrupt.{Registers, AreWordsOf, HasRoom, iret}
use secos_ng.Segment.{code_xr, data_rw, d0_sel, c3_sel, d3_sel, ts_sel, sizeof_tss}
use secos_ng.Segment.Table.{Loaded, select, flat, config_segmentation, config_segmentation-select}
use secos_ng.Trap.Userland.{Frame, gdt-config_segmentation, select-gdt}
use secos_ng.Trap.Dispatch.{fatal, general_protection, protection, returns, intr_hdlr_gp}
use secos_ng.Trap.Stubs.Ending.{stopped, interrupt, entered}
use secos_ng.Trap.Causes.{cause, details-cause}
use secos_ng.Trap.Stubs.Context.{stub_words}
use secos_ng.Trap.Ring3.{segments, frame_words, enter_ring3, mov_cr0, admits, ring0_stack, runs, tp}

-- The registers behind the `iret`.
abbrev pub entered_registers : Registers → Frame → Registers
entered_registers g f = record g {
  eip = f.eip;
  cs = f.cs;
  eflags = f.eflags;
  esp = f.esp;
  ss = f.ss;
}

pub enter_ring3_lem :
    (m : Memory) (esp : ℕ) (g : Registers) (f : Frame)
    → f.cs % 4 ≡ 3
    → AreWords32 (frame_words f)
    → esp % 4 ≡ 0
    → 20 ≤ esp
    → esp < 2 ^ 32
    → enter_ring3 m esp g f ≡ some (entered_registers g f)
unfolding enter_ring3 iret words
enter_ring3_lem m esp g f ring w a low high =
    let top : sub32 esp 20 ≡ esp - 20 = omega arith in
    ap (λ (x : ℕ). iret x g.ss g (words (push_all m esp (frame_words f)) x 5)) top
    ∙ ap (iret (esp - 20) g.ss g)
        (words-push_all (frame_words f) m esp 0 (omega arith) w (omega arith) (omega arith))
    ∙ ground (arith, ring)

admits-flat :
    (s : Loaded) (f : Frame)
    → f.cs % 4 ≡ 3
    → f.ss % 4 ≡ 3
    → select s f.cs ≡ some (flat code_xr 3)
    → select s f.ss ≡ some (flat data_rw 3)
    → admits s f ≡ true
unfolding admits
admits-flat s f a b c d = ground (arith, a, b, c, d)

ring0_stack-flat :
    (tss last : ℕ) (s : Loaded)
    → s.tss_ss0 % 4 ≡ 0
    → select s s.tr
      ≡ some (record { base = tss; last = last; kind = 9; system = 0; dpl = 0; present = 1 })
    → select s s.tss_ss0 ≡ some (flat data_rw 0)
    → ring0_stack tss s ≡ some s.tss_esp0
unfolding ring0_stack
ring0_stack-flat tss last s a t d = ground (arith, a, t, d)

runs-interrupt :
    (tss : ℕ) (s : Loaded) (f : Frame) (esp cr2 : ℕ) (m : Memory) (g h r : Registers)
    → f.cs % 4 ≡ 3
    → admits s f ≡ true
    → enter_ring3 m esp g f ≡ some r
    → r.cs ≡ f.cs
    → ring0_stack tss s ≡ some s.tss_esp0
    → runs tss s f esp cr2 m g h
      ≡ some (interrupt (push_all m esp (frame_words f)) s.tss_esp0 r h 13 0 cr2)
unfolding runs mov_cr0
runs-interrupt tss s f esp cr2 m g h r ring a e c k = ground (arith, ring, a, e, c, k)

-- With 32-bit addresses and registers, and aligned stacks with room at the stack and frame pointers,
-- the frame that `tp` leaves is one that `iret` takes: its selectors name the flat segments of ring
-- 3. `userland` then stops the kernel with the general protection fault of the `mov` to `cr0`, an
-- error code of 0, on the flat stack of ring 0 that the TSS in the task register has. It never
-- comes back to `tp`.
pub tp-stops :
    (tss userland esp eflags cr2 : ℕ) (m : Memory) (g h : Registers)
    → tss < 2 ^ 32
    → userland < 2 ^ 32
    → eflags < 2 ^ 32
    → AreWordsOf g
    → esp % 4 ≡ 0
    → 20 ≤ esp
    → esp < 2 ^ 32
    → g.ebp % 4 ≡ 0
    → 60 ≤ g.ebp
    → g.ebp + 8 < 2 ^ 32
    → (select (segments tss g.ebp) c3_sel ≡ some (flat code_xr 3))
      × (select (segments tss g.ebp) d3_sel ≡ some (flat data_rw 3))
      × (select (segments tss g.ebp) (segments tss g.ebp).tss_ss0 ≡ some (flat data_rw 0))
      × (ring0_stack tss (segments tss g.ebp) ≡ some g.ebp)
      × (tp tss userland esp eflags cr2 m g h
          ≡ some (stopped (fatal general_protection (protection 0 0 0 0))))
unfolding tp segments returns cause
tp-stops tss userland esp eflags cr2 m g h ht hu he w a low high b below above =
    let f : Frame = record {
      ss = d3_sel;
      esp = g.ebp;
      eflags = eflags;
      cs = c3_sel;
      eip = userland;
    } in
    let l = segments tss g.ebp in
    let r = entered_registers g f in
    let there = enter_ring3_lem m esp g f refl (omega (arith, w.pointers)) a low high in
    let m' = push_all m esp (frame_words f) in
    let words_of : AreWordsOf r = record {
      pointers = omega (arith, w.pointers);
      others = omega (arith, w.others);
      code = omega arith;
    } in
    let room : HasRoom g.ebp r (stub_words 13 0) = record {
      aligned = b;
      below = below;
      above = above;
    } in
    let at = λ (sel : ℕ).
      select-gdt l (config_segmentation tss g.ebp) sel (gdt-config_segmentation tss g.ebp ht) in
    let s = config_segmentation-select tss g.ebp ht in
    let code = at c3_sel ∙ s.2 in
    let stack = at d3_sel ∙ s.3 in
    let stack0 = at d0_sel ∙ s.1 in
    let tss_stack = ring0_stack-flat tss sizeof_tss l refl (at ts_sel ∙ s.4) stack0 in
    let gp = intr_hdlr_gp 0 cr2 in
    let stops =
      (entered m' g.ebp r h 13 0 cr2 (inl (omega arith)) (omega arith) (omega arith) words_of
          room).1
        (ap returns gp) in
    (
      code,
      stack,
      stack0,
      tss_stack,
      runs-interrupt tss l f esp cr2 m g h r refl (admits-flat l f refl refl code stack) there refl
            tss_stack
          ∙ ap some
              (stops ∙ ap stopped (gp ∙ ap (fatal general_protection) (details-cause 13 0 cr2))),
    )
