-- ===== src/Tests/Flags.antt =====
-- Flags, string instructions, large pages and requests of devices at concrete inputs.
use secos_ng.Base.{
  ℕ, ◌+◌, ◌-◌, ◌*◌, ◌/◌, ◌%◌, ◌^◌, ◌<◌, ◌≡◌, ◌≢◌, inl, refl, sym, arith, true, ap₂, add32,
  if◌then◌else◌, ◌==◌, leb, ltb, ◌&&◌, [], ◌∷◌, some,
}
use secos_ng.Cpu.FlagOps.{
  AreKernelFlags, disable_interrupts, enable_interrupts, is_interrupts_enabled, restore_interrupts,
  restore_interrupts-flags,
}
use secos_ng.Memory.{Memory, within, load32, store32, memset, memcpy, strchr, strlen}
use secos_ng.Memory.Direction.Functions.{
  memset_flags, memcpy_flags, strchr_flags, strlen_flags, functions-up,
}
use secos_ng.Paging.{pg_entry, entry_at}
use secos_ng.Paging.Read.{pg_entry_usr}
use secos_ng.Paging.Large.{pg_large_entry, translate_large, writable_large, translate_large-pages}
use secos_ng.Paging.Whole.{clear_page, copy_page, clear_page-copy_page}
use secos_ng.Pic.{pic_init}
use secos_ng.Pic.Remap.{Controller, command_all}
use secos_ng.Pic.Service.{idle, send_all}
use secos_ng.Trap.Stubs.Requests.{serve_all, serve_all-pic_init}

-- Interrupts on, and strings downwards.
abbrev downwards : ℕ
downwards = 0x602

downwards-AreKernelFlags : AreKernelFlags downwards
downwards-AreKernelFlags = omega arith

restore_interrupts-flags_example :
    (is_interrupts_enabled (disable_interrupts downwards).1 ≡ 0)
    × (is_interrupts_enabled (enable_interrupts downwards).1 ≢ 0)
    × (restore_interrupts (disable_interrupts downwards).0 2 ≡ downwards)
    × (restore_interrupts (enable_interrupts downwards).0 2 ≡ downwards)
restore_interrupts-flags_example =
    restore_interrupts-flags downwards 2 downwards-AreKernelFlags (omega arith)

abbrev squares : Memory
squares x = x * x % 256

abbrev unchanged : ℕ → ℕ
unchanged flags = flags

functions-up_example :
    (memset_flags 0x1000 65 7 downwards squares
      ≡ ((memset 0x1000 65 7 squares).0, ((memset 0x1000 65 7 squares).1, downwards)))
    × (memcpy_flags 0x1000 0x2000 7 downwards squares
        ≡ ((memcpy 0x1000 0x2000 7 squares).0, ((memcpy 0x1000 0x2000 7 squares).1, downwards)))
    × (strchr_flags unchanged 0x2000 7 65 downwards squares
        ≡ (strchr 0x2000 7 65 squares, downwards))
    × (strlen_flags unchanged 0x2000 downwards squares ≡ (strlen 0x2000 squares, downwards))
functions-up_example =
    functions-up unchanged downwards squares (λ flags. refl) downwards-AreKernelFlags 0x1000 0x2000
      65 7

clear_page-copy_page_example :
    ((x : ℕ)
      → (clear_page 0x400000 downwards squares).0 x
        ≡ (if within 0x400000 0x4000 x then 0 else squares x))
    × ((x : ℕ)
        → (copy_page 0x400000 0x500000 downwards squares).0 x
          ≡ (if within 0x400000 0x4000 x then squares (0x500000 + (x - 0x400000)) else squares x))
    × ((clear_page 0x400000 downwards squares).1 ≡ downwards)
    × ((copy_page 0x400000 0x500000 downwards squares).1 ≡ downwards)
clear_page-copy_page_example =
    clear_page-copy_page 0x400000 0x500000 downwards squares downwards-AreKernelFlags
      (λ x. omega arith)
      (record { apart = inl (omega arith); room_a = omega arith; room_b = omega arith })

-- A table at 0x400000 for the 4 MB from 0xc00000 on, in a directory at 0x500000.
abbrev word_at : ℕ → ℕ
word_at i = (3 * 1024 + i) * 4096 + 7

abbrev byte_of : (word k : ℕ) → ℕ
byte_of w k =
    if k == 0
    then w % 2 ^ 8
    else if k == 1
    then w / 2 ^ 8 % 2 ^ 8
    else if k == 2
    then w / 2 ^ 16 % 2 ^ 8
    else w / 2 ^ 24 % 2 ^ 8

mapped_memory : Memory
mapped_memory x =
    if leb 0x400000 x && ltb x 0x401000
    then byte_of (word_at ((x - 0x400000) / 4)) (x % 4)
    else if x == 0x50000c
    then 7
    else if x == 0x50000e
    then 0x40
    else 0

table_byte :
    (i k x : ℕ)
    → i < 1024
    → k < 4
    → x ≡ 0x400000 + 4 * i + k
    → mapped_memory x ≡ byte_of (word_at i) k
unfolding mapped_memory
table_byte i k x h l e =
    let index : (x - 0x400000) / 4 ≡ i = omega arith in
    let rest : x % 4 ≡ k = omega arith in
    ground (arith, ap₂ (λ (j r : ℕ). byte_of (word_at j) r) index rest)

filled :
    (i : ℕ)
    → i < 1024
    → load32 mapped_memory (entry_at (0x400 * 2 ^ 12) i) ≡ pg_entry 6 (3 * 1024 + i)
unfolding load32
filled i h =
    let a = entry_at (0x400 * 2 ^ 12) i in
    let r0 = table_byte i 0 a h (omega arith) (omega arith) in
    let r1 = table_byte i 1 (add32 a 1) h (omega arith) (omega arith) in
    let r2 = table_byte i 2 (add32 a 2) h (omega arith) (omega arith) in
    let r3 = table_byte i 3 (add32 a 3) h (omega arith) (omega arith) in
    let entry = pg_entry_usr (3 * 1024 + i) in omega (arith, r0, r1, r2, r3, entry)

translate_large-pages_example :
    let m = store32 mapped_memory 0x50000c (pg_large_entry 6 3) in
    (translate_large m 0x500000 0xc00123 ≡ translate_large mapped_memory 0x500000 0xc00123)
    × (translate_large mapped_memory 0x500000 0xc00123
        ≡ some (record { phys = 0xc00123; user = true }))
    × (writable_large m 0x500000 0xc00123 ≡ true)
    × (writable_large mapped_memory 0x500000 0xc00123 ≡ true)
unfolding mapped_memory load32
translate_large-pages_example =
    translate_large-pages mapped_memory 0x500000 0x400 6 3 0xc00123 (omega arith) (omega arith)
      (omega arith) (omega arith) (sym (pg_entry_usr 0x400)) filled

-- A controller that waits for a command word, with lines in service.
abbrev waiting : Controller
waiting = record { expects = 3; icw1 = 0x11; icw2 = 8; icw3 = 0; icw4 = 0; imr = 0xff }

serve_all-pic_init_example :
    serve_all
      (command_all pic_init (record { master = waiting; slave = waiting }))
      (0 ∷ 12 ∷ 0 ∷ [])
      (send_all pic_init (record { master = 2 ∷ 5 ∷ []; slave = 3 ∷ [] }))
    ≡ some (32 ∷ 44 ∷ 32 ∷ [], idle)
serve_all-pic_init_example =
    serve_all-pic_init (record { master = waiting; slave = waiting })
      (record { master = 2 ∷ 5 ∷ []; slave = 3 ∷ [] }) (0 ∷ 12 ∷ 0 ∷ []) (omega arith)
