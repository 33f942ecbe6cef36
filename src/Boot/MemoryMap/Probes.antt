-- ===== src/Boot/MemoryMap/Probes.antt =====
-- The end of `tp` of tp0/tp.c: a read, a write and a read at three addresses, of which some have no
-- memory. Which bytes keep what is written is a parameter, `ram`; the others stay as they are read.
use mathlib.Core.Option
use secos_ng.Base.{ℕ, Bool, if◌then◌else◌, List, [], ◌∷◌, ◌++◌, Option, codes}
use secos_ng.Memory.{Memory, load32, store32}
use secos_ng.Print.Calls.{Call}
use secos_ng.Boot.MemoryMap
use secos_ng.Boot.MemoryMap.{heading}

-- Addresses wrap at 4 GB.
unfoldable pub write : (ram : ℕ → Bool) → (address value : ℕ) → Memory → Memory
write ram address value m x = if ram x then store32 m address value x else m x

abbrev pub ptr_in_available_mem : ℕ
ptr_in_available_mem = 0

abbrev pub ptr_in_reserved_mem : ℕ
ptr_in_reserved_mem = 0x9fc00

abbrev pub ptr_after_physical_mem : ℕ
ptr_after_physical_mem = 0xffffffff

-- The two calls around a write; the values are what is read before and behind it.
abbrev pub probe_calls : (format : List ℕ) → (address before after : ℕ) → List Call
probe_calls format address before after =
    record { format = format; args = address ∷ before ∷ [] }
    ∷ record { format = codes "after: 0x%x\n"; args = after ∷ [] }
    ∷ []

abbrev pub available_format : List ℕ
available_format = codes "Available mem (%p): before: 0x%x "

abbrev pub reserved_format : List ℕ
reserved_format = codes "Reserved mem (at: %p):  before: 0x%x "

abbrev pub after_format : List ℕ
after_format = codes "Ptr after physcial mem (at: %p):  before: 0x%x "

unfoldable pub probe :
    (ram : ℕ → Bool) → (format : List ℕ) → (address : ℕ) → Memory → List Call × Memory
probe ram format address m =
    let m' = write ram address 0xaaaaaaaa m in
    (probe_calls format address (load32 m address) (load32 m' address), m')

unfoldable pub probes : (ram : ℕ → Bool) → Memory → List Call
probes ram m =
    let (available, m1) = probe ram available_format ptr_in_available_mem m in
    let (reserved, m2) = probe ram reserved_format ptr_in_reserved_mem m1 in
    let (behind, m3) = probe ram after_format ptr_after_physical_mem m2 in
    available ++ (reserved ++ behind)

unfoldable pub tp :
    (ram : ℕ → Bool)
    → (kernel_start kernel_end flags mmap_addr mmap_length : ℕ) → Memory
    → Option (List Call)
tp ram kernel_start kernel_end flags mmap_addr mmap_length m =
    Option.map (λ rows. rows ++ probes ram m)
      (MemoryMap.tp kernel_start kernel_end flags mmap_addr mmap_length m)
