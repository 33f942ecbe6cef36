-- ===== src/Boot/MemoryMap/Listing.antt =====
-- What `tp` of tp0/tp.c prints of a memory map.
use secos_ng.Base.{
  ℕ, zero, suc, ◌+◌, ◌*◌, ◌^◌, ◌<◌, ◌≡◌, refl, ap, ap₂, ◌∙◌, ◌/◌, ◌%◌, codes, get_or, arith, List,
  [], ◌∷◌, ◌++◌, some, length, add32,
}
use secos_ng.Memory.{Memory, load32}
use secos_ng.Print.Calls.{Call}
use secos_ng.Boot.MemoryMap.{load64, type_format, entry_calls, map_loop, heading, map_fuel, tp}

pub record Entry : Type 0 where
  pub addr : ℕ
  pub len : ℕ
  pub type : ℕ

-- The map that memory holds from an address on.
abbrev pub HoldsMap : Memory → ℕ → List Entry → Type 0
HoldsMap m a [] = Unit
HoldsMap m a (e ∷ es) =
    (load32 m (a + 4) + 2 ^ 32 * load32 m (a + 8) ≡ e.addr)
    × (load32 m (a + 12) + 2 ^ 32 * load32 m (a + 16) ≡ e.len)
    × (load32 m (a + 20) ≡ e.type)
    × HoldsMap m (a + 24) es

-- The texts for the types from 0 on.
abbrev type_names : List (List ℕ)
type_names =
    codes "entry type not known\n"
    ∷ codes "MULTIBOOT_MEMORY_AVAILABLE\n"
    ∷ codes "MULTIBOOT_MEMORY_RESERVED\n"
    ∷ codes "MULTIBOOT_MEMORY_ACPI_RECLAIMABLE\n"
    ∷ codes "MULTIBOOT_MEMORY_NVS\n"
    ∷ []

load64-at :
    (m : Memory) (a c b v : ℕ)
    → load32 m a + 2 ^ 32 * load32 m c ≡ v
    → b ≡ a
    → c ≡ a + 4
    → c < 2 ^ 32
    → load64 m b ≡ v
load64-at m a c b v h e f r =
    let next : add32 b 4 ≡ c = omega (arith, e, f) in
    ap₂ (λ (x y : ℕ). load32 m x + 2 ^ 32 * load32 m y) e next ∙ h

pub listing : List Entry → List Call
listing [] = []
listing (e ∷ es) =
    record {
      format = codes "[0x%llx - 0x%llx] ";
      args =
          e.addr % 2 ^ 32
          ∷ e.addr / 2 ^ 32 % 2 ^ 32
          ∷ (e.addr + e.len) % 2 ^ 32
          ∷ (e.addr + e.len) / 2 ^ 32 % 2 ^ 32
          ∷ [];
    }
    ∷ record { format = get_or type_names e.type (codes "entry type not known\n"); args = [] }
    ∷ listing es

-- What stands above the entries.
abbrev pub bounds : (kernel_start kernel_end flags : ℕ) → List Call
bounds kernel_start kernel_end flags =
    record { format = codes "kernel mem [0x%p - 0x%p]\n"; args = kernel_start ∷ kernel_end ∷ [] }
    ∷ record { format = codes "MBI flags 0x%x\n"; args = flags ∷ [] }
    ∷ []

type_format-type_names :
    (t : ℕ) → type_format t ≡ get_or type_names t (codes "entry type not known\n")
unfolding type_format
type_format-type_names zero = refl
type_format-type_names (suc zero) = refl
type_format-type_names (suc (suc zero)) = refl
type_format-type_names (suc (suc (suc zero))) = refl
type_format-type_names (suc (suc (suc (suc zero)))) = refl
type_format-type_names (suc (suc (suc (suc (suc n))))) = ground arith

abbrev area : (a b c d : ℕ) → List ℕ → List Call
area a b c d name =
    record { format = codes "[0x%llx - 0x%llx] "; args = a ∷ b ∷ c ∷ d ∷ [] }
    ∷ record { format = name; args = [] }
    ∷ []

entry_calls-listing : (e : Entry) → entry_calls e.addr e.len e.type ≡ listing (e ∷ [])
unfolding entry_calls listing
entry_calls-listing e =
    let sum = e.addr + e.len in
    let low : sum % 2 ^ 64 % 2 ^ 32 ≡ sum % 2 ^ 32 = omega arith in
    let high : sum % 2 ^ 64 / 2 ^ 32 % 2 ^ 32 ≡ sum / 2 ^ 32 % 2 ^ 32 = omega arith in
    let a = e.addr % 2 ^ 32 in
    let b = e.addr / 2 ^ 32 % 2 ^ 32 in
    ap₂ (λ c d. area a b c d (type_format e.type)) low high
    ∙ ap (area a b (sum % 2 ^ 32) (sum / 2 ^ 32 % 2 ^ 32)) (type_format-type_names e.type)

map_loop-listing :
    (es : List Entry) (m : Memory) (f stop a : ℕ)
    → HoldsMap m a es
    → length es < f
    → a + 24 * length es ≡ stop
    → stop < 2 ^ 32
    → map_loop f m stop a ≡ some (listing es)
unfolding map_loop listing
map_loop-listing es m zero stop a h lt e r = absurd (omega arith)
map_loop-listing [] m (suc f) stop a h lt e r = ground (arith, e)
map_loop-listing (d ∷ ds) m (suc f) stop a (base, len, type, rest) lt e r = ground (
  arith,
  entry_calls-listing d,
  load64-at m (a + 4) (a + 8) (add32 a 4) d.addr base (omega arith) (omega arith) (omega arith),
  load64-at m (a + 12) (a + 16) (add32 a 12) d.len len (omega arith) (omega arith) (omega arith),
  type,
  map_loop-listing ds m f stop (a + 24) rest (omega arith) (omega arith) r,
)

-- Of a memory map of entries of 24 bytes below the top of the address space, whose length is theirs,
-- `tp` comes to the end of its loop, and prints behind the kernel's bounds and
-- the flags each entry in order, with its
-- first address, the address behind its last one, each as two words, and the name of its type.
pub tp-listing :
    (kernel_start kernel_end flags mmap_addr : ℕ) (es : List Entry) (m : Memory)
    → HoldsMap m mmap_addr es
    → mmap_addr + 24 * length es < 2 ^ 32
    → tp kernel_start kernel_end flags mmap_addr (24 * length es) m
      ≡ some (bounds kernel_start kernel_end flags ++ listing es)
unfolding tp heading
tp-listing kernel_start kernel_end flags mmap_addr es m h r = ground (
  arith,
  map_loop-listing es m (map_fuel (24 * length es)) (mmap_addr + 24 * length es) mmap_addr h
      (omega arith) refl r,
)
