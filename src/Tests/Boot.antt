-- ===== src/Tests/Boot.antt =====
-- The start of the kernel and its exercises 0 and 5 at concrete inputs.
use secos_ng.Base.{
  ℕ, ◌+◌, ◌*◌, ◌%◌, ◌^◌, ◌==◌, ◌≡◌, ◌≢◌, ◌≤◌, refl, arith, Bool, false, ltb, List, [], ◌∷◌, ◌++◌,
  some, codes, replicate, if◌then◌else◌,
}
use secos_ng.Pic.Remap.{Controller, Pair, command_all, vector}
use secos_ng.Pic.{pic_init}
use secos_ng.Uart.Init.{uart_init}
use secos_ng.Cpu.FlagOps.{is_interrupts_enabled}
use secos_ng.Uart.{com1, can_send, can_recv, flush_recv}
use secos_ng.Uart.Transfer.{ready, sends}
use mathlib.Core.Option
use secos_ng.Bitfield.{get}
use secos_ng.Segment.{code_xr, data_rw}
use secos_ng.Segment.Regs.{seg_sel_rpl}
use secos_ng.Trap.{intr_init}
use secos_ng.Trap.Userland.{tp, tp-userland}
use secos_ng.Segment.Table.{select, flat}
use secos_ng.Paging.{Machine}
use secos_ng.Trap.Table.{gate_at, kernel_gate}
use secos_ng.Sched.Counter.Reach.{boot}
use secos_ng.Boot.{Addresses, Running, looping, banner, start}
use secos_ng.Memory.{Memory, load32}
use secos_ng.Boot.MemoryMap.Probes
use secos_ng.Boot.MemoryMap.Probed.{IsProbed, probed, tp-probed}
use secos_ng.Boot.MemoryMap.Listing.{Entry, bounds, listing}
use secos_ng.Boot.Request.{system, start-request}

abbrev places : Addresses
places = record {
  info = 0x301000;
  vprint_buffer = 0x309000;
  idt_trampoline = 0x303000;
  tss = 0x308000;
  clock_interrupt_isr = 0x304000;
  syscall_isr = 0x304100;
  task1_function = 0x400000;
  task1_stack_base = 0x450000;
  task2_function = 0x800000;
  task2_stack_base = 0x850000;
}

abbrev nowhere : ℕ → List ℕ
nowhere p = []

abbrev release : List ℕ
release = codes "secos-0a1b2c3"

abbrev powered : Machine
powered = record { mem = λ x. 0xff; cr0 = 0x11; cr3 = 0 }

abbrev off : Controller
off = record { expects = 0; icw1 = 0; icw2 = 0; icw3 = 0; icw4 = 0; imr = 0xff }

abbrev controllers : Pair
controllers = record { master = off; slave = off }

-- The receiver holds one byte, and then none.
abbrev input : List (ℕ × ℕ)
input = (1, b'x') ∷ (0, 0) ∷ []

input-flush_recv : flush_recv input ≡ some (b'x' ∷ [])
unfolding flush_recv can_recv
input-flush_recv = refl

sixty-ready : 40 ≤ ready (replicate 60 32)
unfolding ready can_send
sixty-ready = omega arith

start-request_example :
    (r : Running) × (start places nowhere release 0x2fff00 2 0x5a
        (replicate 60 32)
        input
        (replicate 60 32)
        0x10000
        powered
      ≡ looping r)
    × (r.sent
        ≡ ((pic_init ++ uart_init 0x5a) ++ sends com1 (banner release))
          ++ sends com1 (codes "pagination enabled\n"))
    × (is_interrupts_enabled r.eflags ≢ 0)
    × (vector (command_all r.sent controllers) 0 ≡ some (32 + 0))
    × (gate_at (32 + 0) r.idtr
        ≡ some (
            if 0 == 0
            then kernel_gate 0x304000 3
            else kernel_gate ((0x303000 + 16 * (32 + 0)) % 2 ^ 32) 0))
    × (select r.segments 8 ≡ some (flat code_xr 0))
    × (b : Machine) × (system r ≡ boot b 0x400000 0x450000 0x800000 0x850000)
start-request_example =
    start-request places nowhere release 0x2fff00 2 0x5a (replicate 60 32) input (replicate 60 32)
      (b'x' ∷ []) 0x10000 powered controllers 0 (omega arith) (omega arith) (omega arith)
      input-flush_recv (omega (arith, sixty-ready)) (omega (arith, sixty-ready)) (omega arith)
      (omega arith) (omega arith) (omega arith) (omega arith)

tp-userland_example :
    let r = tp 0x304000 0x308000 0x305000 0x2fff00 2 (intr_init 0x303000) in
    (get seg_sel_rpl r.frame.cs ≡ 3)
    × (get seg_sel_rpl r.frame.ss ≡ 3)
    × (select r.segments r.frame.cs ≡ some (flat code_xr 3))
    × (select r.segments r.frame.ss ≡ some (flat data_rw 3))
    × (select r.segments r.segments.tss_ss0 ≡ some (flat data_rw 0))
    × (Option.map (λ s. s.base) (select r.segments r.segments.tr) ≡ some 0x308000)
    × (gate_at 48 r.idtr
        ≡ some (
            if 48 == 48
            then kernel_gate 0x304000 3
            else kernel_gate ((0x303000 + 16 * 48) % 2 ^ 32) 0))
tp-userland_example =
    tp-userland 0x304000 0x308000 0x305000 0x2fff00 2 0x303000 48 (omega arith) (omega arith)
      (omega arith) (omega arith)

-- The map of a machine with one area of memory at address 0, and one reserved.
abbrev memory_map : Memory
memory_map x =
    if x == 0x8011
    then 0xfc
    else if x == 0x8012
    then 9
    else if x == 0x8018
    then 1
    else if x == 0x8030
    then 2
    else if x == 0x8021
    then 0xfc
    else if x == 0x8022
    then 9
    else if x == 0x8029
    then 4
    else 0

abbrev areas : List Entry
areas =
    record { addr = 0; len = 0x9fc00; type = 1 }
    ∷ record { addr = 0x9fc00; len = 0x400; type = 2 }
    ∷ []

-- Memory below 0x9fc00.
abbrev low_memory : ℕ → Bool
low_memory x = ltb x 0x9fc00

low_memory-IsProbed : IsProbed low_memory false false
low_memory-IsProbed = record {
  available = (refl, refl, refl, refl);
  reserves = (refl, refl, refl, refl);
  behinds = refl;
}

tp-probed_example :
    Probes.tp low_memory 0x300000 0x309000 0x4f 0x8004 48 memory_map
    ≡ some ((bounds 0x300000 0x309000 0x4f ++ listing areas) ++ probed false false memory_map)
unfolding load32
tp-probed_example =
    tp-probed low_memory false false low_memory-IsProbed memory_map 0x300000 0x309000 0x4f 0x8004
      areas (refl, refl, refl, (refl, refl, refl, omega arith)) (omega arith)
