-- ===== src/Tests/Rings.antt =====
-- Exercises that change the ring, at concrete inputs.
use secos_ng.Base.{ℕ, ◌≡◌, refl, arith, [], ◌∷◌, some, codes}
use secos_ng.Memory.{Memory}
use secos_ng.Cpu.Interrupt.{Registers, AreWordsOf}
use secos_ng.Segment.{code_xr, data_rw, c3_sel, d3_sel}
use secos_ng.Segment.Table.{select, flat}
use secos_ng.Trap.{intr_init}
use secos_ng.Trap.Breakpoint.Gate
use secos_ng.Trap.Breakpoint.Gate.{tp-resumes}
use secos_ng.Trap.Dispatch.{fatal, general_protection, protection}
use secos_ng.Trap.Ring3
use secos_ng.Trap.Ring3.{segments, ring0_stack}
use secos_ng.Trap.Ring3.Stop.{tp-stops}
use secos_ng.Trap.Stubs.Ending.{stopped}
use secos_ng.Trap.Userland
use secos_ng.Trap.Syscall
use secos_ng.Trap.Syscall.{secret}
use secos_ng.Trap.Syscall.Returns.{calling, userland-prints}

-- Registers of the kernel behind the breakpoint.
abbrev kernel_code : Registers
kernel_code = record {
  edi = 1;
  esi = 2;
  ebp = 0x307ff0;
  ebx = 4;
  edx = 5;
  ecx = 6;
  eax = 7;
  eip = 0x303001;
  cs = 8;
  eflags = 2;
  esp = 0x307fe0;
  ss = 0x10;
}

abbrev zeroes : Memory
zeroes x = 0

abbrev stubs : ℕ
stubs = 0x302000

kernel_code-AreWordsOf : AreWordsOf kernel_code
kernel_code-AreWordsOf = record { pointers = omega arith; others = omega arith; code = omega arith }

tp-resumes_example :
    Gate.tp 0x310000 0x303100 (intr_init stubs) zeroes kernel_code kernel_code 24
    ≡ some (
      record { format = codes "IDT @ 0x%x\n"; args = 0x310000 ∷ [] }
          ∷ record { format = codes "EIP = %x\n"; args = 0x303001 ∷ [] }
          ∷ record { format = codes "after bp triggered\n"; args = [] }
          ∷ [],
      kernel_code,
    )
tp-resumes_example =
    tp-resumes 0x310000 0x303100 stubs zeroes kernel_code kernel_code 24 (omega arith) (omega arith)
      refl kernel_code-AreWordsOf refl refl refl (omega arith) (omega arith)

tp-stops_example :
    (select (segments 0x305000 0x307ff0) c3_sel ≡ some (flat code_xr 3))
    × (select (segments 0x305000 0x307ff0) d3_sel ≡ some (flat data_rw 3))
    × (select (segments 0x305000 0x307ff0) (segments 0x305000 0x307ff0).tss_ss0
        ≡ some (flat data_rw 0))
    × (ring0_stack 0x305000 (segments 0x305000 0x307ff0) ≡ some 0x307ff0)
    × (Ring3.tp 0x305000 0x303200 0x307fe0 2 0 zeroes kernel_code kernel_code
        ≡ some (stopped (fatal general_protection (protection 0 0 0 0))))
tp-stops_example =
    tp-stops 0x305000 0x303200 0x307fe0 2 0 zeroes kernel_code kernel_code (omega arith)
      (omega arith) (omega arith) kernel_code-AreWordsOf refl (omega arith) (omega arith) refl
      (omega arith) (omega arith)

userland-prints_example :
    Syscall.userland 0x307fe0 0x303400 0x303210
      (Userland.tp 0x303400 0x305000 0x303200 0x307ff0 2 (intr_init stubs))
      zeroes
      kernel_code
      kernel_code
    ≡ some (
      record { format = codes "SYSCALL eax = %p\n"; args = 7 ∷ [] }
          ∷ record { format = codes "print syscall: %s"; args = secret ∷ [] }
          ∷ [],
      some (calling kernel_code 0x303200 0x307ff0 2 0x303210),
    )
userland-prints_example =
    userland-prints 0x303400 0x305000 0x303200 0x307ff0 2 stubs 0x307fe0 0x303210 zeroes kernel_code
      kernel_code (omega arith) (omega arith) (omega arith) (omega arith) (omega arith)
      (omega arith) kernel_code-AreWordsOf refl (omega arith) (omega arith) refl (omega arith)
      (omega arith)
