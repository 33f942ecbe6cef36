-- ===== src/Trap/Stubs/Context.antt =====
-- What `intr_hdlr` finds behind its argument, and what its return leads back to.
use mathlib.Core.List.{reverse_aux}
use secos_ng.Base.{
  ℕ, ◌+◌, ◌-◌, ◌%◌, ◌^◌, ◌≤◌, ◌<◌, ◌≡◌, ◌⊎◌, refl, ap, ap₂, ◌∙◌, sym, arith, Bool, true, false,
  ◌&&◌, ◌||◌, ◌==◌, ltb, leb, if◌then◌else◌, List, [], ◌∷◌, ◌++◌, Option, none, some, length, take,
  add32,
}
use secos_ng.Io.{Out}
use secos_ng.Memory.{Memory, load32}
use secos_ng.Cpu.Push.{words, take-words}
use secos_ng.Cpu.Interrupt.{
  iret, Registers, AreWordsOf, HasRoom, frame, frame_top, pusha, after_frame, enter, words-enter,
  popa_iret,
}
use secos_ng.Trap.Report
use secos_ng.Trap.Stubs.{no_error, has_error, stub, HandlerCall, idt_entry, resume_from_intr}

-- The members of `int_ctx_t`, from the words at its address.
unfoldable pub context_of : List ℕ → Option Report.Context
context_of
      (edi ∷ esi ∷ ebp ∷ gpr_esp ∷ ebx ∷ edx ∷ ecx ∷ eax ∷ nr ∷ err ∷ eip ∷ cs ∷ eflags ∷ esp ∷ ss
        ∷ rest) =
    some (record {
      edi = edi;
      esi = esi;
      ebp = ebp;
      gpr_esp = gpr_esp;
      ebx = ebx;
      edx = edx;
      ecx = ecx;
      eax = eax;
      nr = nr;
      err = err;
      eip = eip;
      cs = cs;
      eflags = eflags;
      esp = esp;
      ss = ss;
    })
context_of ws = none

-- The words that stand above the registers of `pusha`.
abbrev pub stub_words : (v err : ℕ) → List ℕ
stub_words v err = (if has_error v then err else no_error) ∷ v ∷ []

-- What ends the requests before the handler runs: 0x20 to the first controller, and for a request of
-- the second one to that one before it.
abbrev pub acknowledged : ℕ → List Out
acknowledged v =
    if leb 32 v && ltb v 40
    then record { value = 0x20; port = 0x20 } ∷ []
    else if leb 40 v && ltb v 48
    then record { value = 0x20; port = 0xa0 } ∷ record { value = 0x20; port = 0x20 } ∷ []
    else []

abbrev called : Memory → ℕ → Registers → ℕ → ℕ → HandlerCall
called m esp0 r v err = record {
  mem = (enter m esp0 r (stub_words v err)).0;
  ctx = (enter m esp0 r (stub_words v err)).1;
  sent = acknowledged v;
}

idt_entry-called :
    (m : Memory) (esp0 : ℕ) (r : Registers) (v err : ℕ)
    → (v < 20) ⊎ (32 ≤ v)
    → idt_entry m esp0 r v err ≡ some (called m esp0 r v err)
unfolding idt_entry stub
idt_entry-called m esp0 r v err h = ground arith

-- The vectors at which the processor pushes an error code, by its manual.
abbrev pub pushes_error : ℕ → Bool
pushes_error v = (v == 8) || ((leb 10 v && leb v 14) || (v == 17))

-- The context of the interrupted code. Within ring 0 the processor pushes no stack, and the members
-- `esp` and `ss` are the words that were above.
abbrev pub context : Memory → (esp0 : ℕ) → Registers → (v err : ℕ) → Report.Context
context m esp0 r v err = record {
  edi = r.edi;
  esi = r.esi;
  ebp = r.ebp;
  gpr_esp = after_frame esp0 r (stub_words v err);
  ebx = r.ebx;
  edx = r.edx;
  ecx = r.ecx;
  eax = r.eax;
  nr = v;
  err = if pushes_error v then err else 2 ^ 32 - 1;
  eip = r.eip;
  cs = r.cs;
  eflags = r.eflags;
  esp = if r.cs % 4 == 0 then load32 m r.esp else r.esp;
  ss = if r.cs % 4 == 0 then load32 m (add32 r.esp 4) else r.ss;
}

context_of-frame :
    (b : Bool) (r : Registers) (x v e c d : ℕ)
    → context_of (
        take 15 (
          reverse_aux (pusha r e) (
            reverse_aux
              ((if b
                  then r.eflags ∷ r.cs ∷ r.eip ∷ []
                  else r.ss ∷ r.esp ∷ r.eflags ∷ r.cs ∷ r.eip ∷ [])
                ++ x ∷ v ∷ [])
              (c ∷ d ∷ []))))
      ≡ some (record {
        edi = r.edi;
        esi = r.esi;
        ebp = r.ebp;
        gpr_esp = e;
        ebx = r.ebx;
        edx = r.edx;
        ecx = r.ecx;
        eax = r.eax;
        nr = v;
        err = x;
        eip = r.eip;
        cs = r.cs;
        eflags = r.eflags;
        esp = if b then c else r.esp;
        ss = if b then d else r.ss;
      })
unfolding context_of
context_of-frame true r x v e c d = refl
context_of-frame false r x v e c d = refl

popa_iret-frame :
    (b : Bool) (r g : Registers) (x v a e c d : ℕ)
    → (r.cs % 4 == 0) ≡ b
    → (b ≡ true → r.esp ≡ add32 (add32 a 40) 12)
    → resume_from_intr a r.ss g (
        take 15 (
          reverse_aux (pusha r e) (
            reverse_aux
              ((if b
                  then r.eflags ∷ r.cs ∷ r.eip ∷ []
                  else r.ss ∷ r.esp ∷ r.eflags ∷ r.cs ∷ r.eip ∷ [])
                ++ x ∷ v ∷ [])
              (c ∷ d ∷ []))))
      ≡ some r
unfolding popa_iret iret
popa_iret-frame true r g x v a e c d h k = ground (arith, h, k refl)
popa_iret-frame false r g x v a e c d h k = ground (arith, h)

if-same :
    {A : Type 0} (b : Bool) (f : ℕ → A) (x y : ℕ) (z : A)
    → (if b then f (if b then x else y) else z) ≡ (if b then f x else z)
if-same true f x y z = refl
if-same false f x y z = refl

module _ (m : Memory) (esp0 : ℕ) (r : Registers) (v err : ℕ) where
  abbrev mem : Memory
  mem = (called m esp0 r v err).mem

  abbrev ctx : ℕ
  ctx = (called m esp0 r v err).ctx

  words-called :
      v < 256
      → err < 2 ^ 32
      → AreWordsOf r
      → HasRoom esp0 r (stub_words v err)
      → words mem ctx 15
        ≡ take 15 (
            reverse_aux (pusha r (after_frame esp0 r (stub_words v err))) (
              reverse_aux
                (frame r ++ stub_words v err)
                (load32 m (frame_top esp0 r) ∷ load32 m (add32 (frame_top esp0 r) 4) ∷ [])))
  unfolding words
  words-called lv le w h =
      let n = 8 + (length (frame r ++ stub_words v err) + 2) in
      let count : n ≡ 15 + (n - 15) = ground arith in
      sym (take-words 15 (n - 15) mem ctx)
      ∙ ap (λ (j : ℕ). take 15 (words mem ctx j)) (sym count)
      ∙ ap (take 15) (words-enter m esp0 r (stub_words v err) w (ground arith) h)

  at-ring0 :
      v < 256 → HasRoom esp0 r (stub_words v err) → r.cs % 4 ≡ 0 → r.esp ≡ add32 (add32 ctx 40) 12
  unfolding enter
  at-ring0 lv h z = ground (arith, h.below, h.above, z)

  resume-called :
      (g : Registers)
      → v < 256
      → err < 2 ^ 32
      → AreWordsOf r
      → HasRoom esp0 r (stub_words v err)
      → resume_from_intr ctx r.ss g (words mem ctx 15) ≡ some r
  resume-called g lv le w h =
      ap (resume_from_intr ctx r.ss g) (words-called lv le w h)
      ∙ popa_iret-frame (r.cs % 4 == 0) r g (if has_error v then err else no_error) v ctx
          (after_frame esp0 r (stub_words v err)) (load32 m (frame_top esp0 r))
          (load32 m (add32 (frame_top esp0 r) 4)) refl (λ b. at-ring0 lv h (ground (arith, b)))

  -- With 32-bit registers and error code and an aligned stack with room, at every vector but 20 to
  -- 31 the stub calls `intr_hdlr` with a context that has, member by member, the registers of the
  -- interrupted code, the vector's number and the processor's error code, or -1 at a vector without
  -- one. The requests of the controllers, and no other vectors, have been acknowledged by then, at
  -- both controllers for the second one's. If the handler leaves the context as it is, its return
  -- leads back to the interrupted code with all registers as they were.
  pub idt_entry-context :
      (g : Registers)
      → (v < 20) ⊎ (32 ≤ v)
      → v < 256
      → err < 2 ^ 32
      → AreWordsOf r
      → HasRoom esp0 r (stub_words v err)
      → (c : HandlerCall) × (idt_entry m esp0 r v err ≡ some c)
        × (c.sent ≡ acknowledged v)
        × (context_of (words c.mem c.ctx 15) ≡ some (context m esp0 r v err))
        × (resume_from_intr c.ctx r.ss g (words c.mem c.ctx 15) ≡ some r)
  unfolding words
  idt_entry-context g s lv le w h = (
    called m esp0 r v err,
    idt_entry-called m esp0 r v err s,
    refl,
    ap context_of (words-called lv le w h)
        ∙ context_of-frame (r.cs % 4 == 0) r (if has_error v then err else no_error) v
            (after_frame esp0 r (stub_words v err)) (load32 m (frame_top esp0 r))
            (load32 m (add32 (frame_top esp0 r) 4))
        ∙ ap₂ (λ a b. some (record (context m esp0 r v err) { esp = a; ss = b }))
            (if-same (r.cs % 4 == 0) (load32 m) r.esp esp0 r.esp)
            (if-same (r.cs % 4 == 0) (λ a. load32 m (add32 a 4)) r.esp esp0 r.ss),
    resume-called g lv le w h,
  )
