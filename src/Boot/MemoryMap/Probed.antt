-- ===== src/Boot/MemoryMap/Probed.antt =====
-- What the probes at the end of `tp` of tp0/tp.c print.
use mathlib.Core.Option
use secos_ng.Base.{
  ℕ, ◌+◌, ◌*◌, ◌^◌, ◌≤◌, ◌<◌, ◌≡◌, ◌⊎◌, inl, inr, ap, ap₂, ◌∙◌, arith, codes, [], ◌∷◌, Bool, true,
  false, if◌then◌else◌, List, ◌++◌, length, some, add32,
}
use secos_ng.Memory.{Memory, load32, store32}
use secos_ng.Memory.Words.{IsWord, load32-store32, store32-outside}
use secos_ng.Print.Calls.{Call}
use secos_ng.Boot.MemoryMap.Listing.{Entry, HoldsMap, bounds, listing, tp-listing}
use secos_ng.Boot.MemoryMap.Probes.{
  write, ptr_in_available_mem, ptr_in_reserved_mem, ptr_after_physical_mem, probe, probes, tp,
}

load32-bytes :
    (m m' : Memory) (a : ℕ)
    → m a ≡ m' a
    → m (add32 a 1) ≡ m' (add32 a 1)
    → m (add32 a 2) ≡ m' (add32 a 2)
    → m (add32 a 3) ≡ m' (add32 a 3)
    → load32 m a ≡ load32 m' a
unfolding load32
load32-bytes m m' a h0 h1 h2 h3 = omega (arith, h0, h1, h2, h3)

-- All bytes of a word are memory, or none is.
abbrev pub IsMemory : (ram : ℕ → Bool) (a : ℕ) (b : Bool) → Type 0
IsMemory ram a b =
    (ram a ≡ b) × (ram (add32 a 1) ≡ b) × (ram (add32 a 2) ≡ b) × (ram (add32 a 3) ≡ b)

module _ (ram : ℕ → Bool) (m : Memory) where
  write_kept : (a v x : ℕ) → ram x ≡ true → write ram a v m x ≡ store32 m a v x
  unfolding write
  write_kept a v x h = ground (arith, h)

  write_lost : (a v x : ℕ) → ram x ≡ false → write ram a v m x ≡ m x
  unfolding write
  write_lost a v x h = ground (arith, h)

  write_outside : (a v x : ℕ) → a + 4 ≤ 2 ^ 32 → (x < a) ⊎ (a + 4 ≤ x) → write ram a v m x ≡ m x
  unfolding write
  write_outside a v x r h = ground (arith, store32-outside m a v x r h)

  load32-write_ram :
      (a v : ℕ) → IsWord a → v < 2 ^ 32 → IsMemory ram a true → load32 (write ram a v m) a ≡ v
  load32-write_ram a v w h (h0, h1, h2, h3) =
      load32-bytes (write ram a v m) (store32 m a v) a (write_kept a v a h0)
        (write_kept a v (add32 a 1) h1) (write_kept a v (add32 a 2) h2)
        (write_kept a v (add32 a 3) h3)
      ∙ ground (arith, load32-store32 m a v a w w h)

  load32-write_rom : (a v : ℕ) → IsMemory ram a false → load32 (write ram a v m) a ≡ load32 m a
  load32-write_rom a v (h0, h1, h2, h3) =
      load32-bytes (write ram a v m) m a (write_lost a v a h0) (write_lost a v (add32 a 1) h1)
        (write_lost a v (add32 a 2) h2) (write_lost a v (add32 a 3) h3)

-- Of the three probes the first one is in memory; the second one may be, and so may the lowest byte of
-- the third one, whose other three are those at the start of memory, as addresses wrap.
pub record IsProbed (ram : ℕ → Bool) (reserved behind : Bool) : Type 0 where
  pub available : IsMemory ram ptr_in_available_mem true
  pub reserves : IsMemory ram ptr_in_reserved_mem reserved
  pub behinds : ram ptr_after_physical_mem ≡ behind

module _ (reserved behind : Bool) (m : Memory) where
  abbrev calls : (a b c d e : ℕ) → List Call
  calls a b c d e =
      record { format = codes "Available mem (%p): before: 0x%x "; args = 0 ∷ load32 m 0 ∷ [] }
      ∷ record { format = codes "after: 0x%x\n"; args = a ∷ [] }
      ∷ record { format = codes "Reserved mem (at: %p):  before: 0x%x "; args = 0x9fc00 ∷ b ∷ [] }
      ∷ record { format = codes "after: 0x%x\n"; args = c ∷ [] }
      ∷ record {
        format = codes "Ptr after physcial mem (at: %p):  before: 0x%x ";
        args = 0xffffffff ∷ d ∷ [];
      }
      ∷ record { format = codes "after: 0x%x\n"; args = e ∷ [] }
      ∷ []

  abbrev pub probed : List Call
  probed =
      let before = load32 m 0x9fc00 in
      let top = m 0xffffffff in
      calls 0xaaaaaaaa before (if reserved then 0xaaaaaaaa else before) (0xaaaaaa00 + top)
        (0xaaaaaa00 + (if behind then 0xaa else top))

module _ (ram : ℕ → Bool) (reserved behind : Bool) (p : IsProbed ram reserved behind)
    (m : Memory) where
  abbrev once : Memory
  once = write ram ptr_in_available_mem 0xaaaaaaaa m

  abbrev twice : Memory
  twice = write ram ptr_in_reserved_mem 0xaaaaaaaa once

  abbrev thrice : Memory
  thrice = write ram ptr_after_physical_mem 0xaaaaaaaa twice

  first_after : load32 once 0 ≡ 0xaaaaaaaa
  first_after = load32-write_ram ram m 0 0xaaaaaaaa (omega arith) (omega arith) p.available

  second_before : load32 once ptr_in_reserved_mem ≡ load32 m ptr_in_reserved_mem
  second_before =
      load32-bytes once m ptr_in_reserved_mem
        (write_outside ram m 0 _ _ (omega arith) (inr (omega arith)))
        (write_outside ram m 0 _ _ (omega arith) (inr (omega arith)))
        (write_outside ram m 0 _ _ (omega arith) (inr (omega arith)))
        (write_outside ram m 0 _ _ (omega arith) (inr (omega arith)))

  second_after :
      (b : Bool)
      → IsMemory ram ptr_in_reserved_mem b
      → load32 twice ptr_in_reserved_mem ≡ (if b then 0xaaaaaaaa else load32 m ptr_in_reserved_mem)
  second_after true h =
      load32-write_ram ram once ptr_in_reserved_mem 0xaaaaaaaa (omega arith) (omega arith) h
  second_after false h = load32-write_rom ram once ptr_in_reserved_mem 0xaaaaaaaa h ∙ second_before

  -- The bytes of the third word.
  low_byte : (x : ℕ) → x < 3 → ram x ≡ true → twice x ≡ 0xaa
  unfolding store32
  low_byte x h r =
      write_outside ram once ptr_in_reserved_mem 0xaaaaaaaa x (omega arith) (inl (omega arith))
      ∙ write_kept ram m 0 0xaaaaaaaa x r
      ∙ ground arith

  top_byte : twice ptr_after_physical_mem ≡ m ptr_after_physical_mem
  top_byte =
      write_outside ram once ptr_in_reserved_mem 0xaaaaaaaa ptr_after_physical_mem (omega arith)
        (inr (omega arith))
      ∙ write_outside ram m 0 0xaaaaaaaa ptr_after_physical_mem (omega arith) (inr (omega arith))

  third_before : load32 twice ptr_after_physical_mem ≡ 0xaaaaaa00 + m ptr_after_physical_mem
  unfolding load32
  third_before =
      let (a0, a1, a2, a3) = p.available in
      let b0 = low_byte 0 (omega arith) a0 in
      let b1 = low_byte 1 (omega arith) a1 in
      let b2 = low_byte 2 (omega arith) a2 in omega (arith, top_byte, b0, b1, b2)

  low_byte_after : (x : ℕ) → x < 3 → ram x ≡ true → thrice x ≡ 0xaa
  unfolding store32
  low_byte_after x h r = write_kept ram twice ptr_after_physical_mem 0xaaaaaaaa x r ∙ ground arith

  top_byte_after :
      (b : Bool)
      → ram ptr_after_physical_mem ≡ b
      → thrice ptr_after_physical_mem ≡ (if b then 0xaa else m ptr_after_physical_mem)
  unfolding store32
  top_byte_after true h =
      write_kept ram twice ptr_after_physical_mem 0xaaaaaaaa ptr_after_physical_mem h ∙ ground arith
  top_byte_after false h =
      write_lost ram twice ptr_after_physical_mem 0xaaaaaaaa ptr_after_physical_mem h ∙ top_byte

  third_after :
      load32 thrice ptr_after_physical_mem
      ≡ 0xaaaaaa00 + (if behind then 0xaa else m ptr_after_physical_mem)
  unfolding load32
  third_after =
      let (a0, a1, a2, a3) = p.available in
      let top = top_byte_after behind p.behinds in
      let b0 = low_byte_after 0 (omega arith) a0 in
      let b1 = low_byte_after 1 (omega arith) a1 in
      let b2 = low_byte_after 2 (omega arith) a2 in omega (arith, top, b0, b1, b2)

  probes-probed : probes ram m ≡ probed reserved behind m
  unfolding probes probe
  probes-probed =
      let second = second_after reserved p.reserves in
      let third = load32 twice ptr_after_physical_mem in
      let last = load32 thrice ptr_after_physical_mem in
      ap
        (λ a.
          calls reserved behind m a (load32 once ptr_in_reserved_mem)
            (load32 twice ptr_in_reserved_mem) third last)
        first_after
      ∙ ap₂ (λ b c. calls reserved behind m 0xaaaaaaaa b c third last) second_before second
      ∙ ap₂
          (calls reserved behind m 0xaaaaaaaa (load32 m ptr_in_reserved_mem)
            (if reserved then 0xaaaaaaaa else load32 m ptr_in_reserved_mem))
          third_before third_after

  -- On such a machine and a memory map as of the boot loader, `tp` comes to its end. Behind the map it
  -- reads back the word it has written at address 0; at 0x9fc00 the same where that is memory, and
  -- what was there where it is not; and at the third address a word whose upper three bytes are
  -- those it has written at address 0, above the byte that was there, which the write changes where
  -- it is memory.
  pub tp-probed :
      (kernel_start kernel_end flags mmap_addr : ℕ) (es : List Entry)
      → HoldsMap m mmap_addr es
      → mmap_addr + 24 * length es < 2 ^ 32
      → tp ram kernel_start kernel_end flags mmap_addr (24 * length es) m
        ≡ some ((bounds kernel_start kernel_end flags ++ listing es) ++ probed reserved behind m)
  unfolding tp
  tp-probed kernel_start kernel_end flags mmap_addr es h r =
      ap (Option.map (λ rows. rows ++ probes ram m))
        (tp-listing kernel_start kernel_end flags mmap_addr es m h r)
      ∙ ap (λ (cs : List Call). some ((bounds kernel_start kernel_end flags ++ listing es) ++ cs))
          probes-probed
