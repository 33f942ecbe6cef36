-- ===== src/Boot/MemoryMap.antt =====
-- `tp` of tp0/tp.c up to the end of its loop: the memory map of the boot loader, one row for each
-- entry. The members of `multiboot_memory_map_t` stand at 4, 12 and 20 of 24 bytes. Probes has the
-- reads and writes behind the loop.
pub mod Listing
pub mod Probes
pub mod Probed
use secos_ng.Base.{
  ℕ, zero, suc, ◌+◌, ◌-◌, ◌*◌, ◌/◌, ◌%◌, ◌^◌, ◌==◌, ltb, Bool, true, false, if◌then◌else◌, List, [],
  ◌∷◌, ◌++◌, Option, none, some, add32, codes,
}
use mathlib.Core.Option
use secos_ng.Memory.{Memory, load32}
use secos_ng.Print.Calls.{Call}

-- `sizeof(multiboot_memory_map_t)`
abbrev pub entry_size : ℕ
entry_size = 24

abbrev pub load64 : Memory → ℕ → ℕ
load64 m a = load32 m a + 2 ^ 32 * load32 m (add32 a 4)

-- A 64-bit argument takes two words of the stack.
abbrev pub words64 : ℕ → List ℕ
words64 v = v % 2 ^ 32 ∷ v / 2 ^ 32 % 2 ^ 32 ∷ []

-- The tests on `entry->type`, in order.
unfoldable pub type_format : ℕ → List ℕ
type_format type =
    if type == 1
    then codes "MULTIBOOT_MEMORY_AVAILABLE\n"
    else if type == 2
    then codes "MULTIBOOT_MEMORY_RESERVED\n"
    else if type == 3
    then codes "MULTIBOOT_MEMORY_ACPI_RECLAIMABLE\n"
    else if type == 4
    then codes "MULTIBOOT_MEMORY_NVS\n"
    else codes "entry type not known\n"

-- The calls of one round; the sum of base and length wraps at 2^64.
unfoldable pub entry_calls : (addr len type : ℕ) → List Call
entry_calls addr len type =
    record {
      format = codes "[0x%llx - 0x%llx] ";
      args = words64 addr ++ words64 ((addr + len) % 2 ^ 64);
    }
    ∷ record { format = type_format type; args = [] }
    ∷ []

-- `while((uint32_t)entry < stop) { ...; entry++; }`; `none` is a loop that has not ended within its
-- rounds.
unfoldable pub map_loop : ℕ → Memory → (stop entry : ℕ) → Option (List Call)
map_loop zero m stop entry = none
map_loop (suc f) m stop entry = elim (ltb entry stop) [
  | true ↦
      let row =
        entry_calls (load64 m (add32 entry 4)) (load64 m (add32 entry 12))
          (load32 m (add32 entry 20)) in
      Option.map (λ rows. row ++ rows) (map_loop f m stop (add32 entry entry_size))
  | false ↦ some []
]

-- The kernel's bounds and the flags, above the rows.
unfoldable pub heading : (kernel_start kernel_end flags : ℕ) → List Call
heading kernel_start kernel_end flags =
    record { format = codes "kernel mem [0x%p - 0x%p]\n"; args = kernel_start ∷ kernel_end ∷ [] }
    ∷ record { format = codes "MBI flags 0x%x\n"; args = flags ∷ [] }
    ∷ []

-- One round for each entry that begins below the end, and one for the test that ends the loop.
abbrev pub map_fuel : ℕ → ℕ
map_fuel mmap_length = mmap_length / entry_size + 2

unfoldable pub tp :
    (kernel_start kernel_end flags mmap_addr mmap_length : ℕ) → Memory → Option (List Call)
tp kernel_start kernel_end flags mmap_addr mmap_length m =
    Option.map (λ rows. heading kernel_start kernel_end flags ++ rows)
      (map_loop (map_fuel mmap_length) m (add32 mmap_addr mmap_length) mmap_addr)
