-- ===== src/Registers/Masks.antt =====
-- The masks of the headers against the members of the unions.
use mathlib.Core.Option.{some}
use secos_ng.Base.{
  ℕ, zero, suc, ◌-◌, ◌*◌, ◌/◌, ◌^◌, ◌≡◌, ap, ◌∙◌, arith, bit_and, List, [], ◌∷◌, ◌++◌, get_elem?,
}
use secos_ng.Base.Bits.{bit_and_low, bit_and_high}
use secos_ng.Bitfield.{Field, get}
use secos_ng.Cpu.FlagMasks.{eflags_masks}
use secos_ng.Cpu.ControlMasks.{cr0_masks}
use secos_ng.Cpu.ExtensionMasks.{cr4_masks}
use secos_ng.Uart.Masks.{lsr_masks, ier_masks}
use secos_ng.Paging.Masks.{page_masks}

-- Each mask with the member that it is for.
unfoldable pub masks : List (ℕ × Field)
masks = eflags_masks ++ (cr0_masks ++ (cr4_masks ++ (lsr_masks ++ (ier_masks ++ page_masks))))

-- The mask keeps the member in its place and clears all else.
abbrev Keeps : ℕ → Field → Type 0
Keeps m f = (x : ℕ) → bit_and x m ≡ get f x * 2 ^ f.lo

abbrev AllKeep : List (ℕ × Field) → Type 0
AllKeep [] = Unit
AllKeep ((m, f) ∷ fs) = Keeps m f × AllKeep fs

-- The mask of the digits of a member.
abbrev mask_of : Field → ℕ
mask_of f = (2 ^ f.width - 1) * 2 ^ f.lo

mask_of-Keeps : (f : Field) → Keeps (mask_of f) f
mask_of-Keeps f x =
    bit_and_high f.lo (2 ^ f.width - 1) x
    ∙ ap (λ (t : ℕ). t * 2 ^ f.lo) (bit_and_low f.width (x / 2 ^ f.lo))

abbrev AreMasks : List (ℕ × Field) → Type 0
AreMasks [] = Unit
AreMasks ((m, f) ∷ fs) = (m ≡ mask_of f) × AreMasks fs

masks-AreMasks : AreMasks masks
unfolding masks
masks-AreMasks = omega arith

get_elem?-Keeps :
    (fs : List (ℕ × Field)) (i : ℕ) (m : ℕ) (f : Field)
    → AreMasks fs
    → get_elem? fs i ≡ some (m, f)
    → Keeps m f
get_elem?-Keeps [] i m f h e = λ x. ground arith
get_elem?-Keeps ((n, g) ∷ fs) zero m f h e = λ x. ground (arith, h.0, mask_of-Keeps g x)
get_elem?-Keeps ((n, g) ∷ fs) (suc i) m f h e = get_elem?-Keeps fs i m f h.1 e

-- Each of the masks of eflags, CR0, CR4, the serial port's line status and interrupt enable
-- registers and the page tables keeps the bits of its member in the union, and no other: testing
-- a word against the mask and reading the member are the same.
pub masks-Keeps :
    (i m x : ℕ) (f : Field) → get_elem? masks i ≡ some (m, f) → bit_and x m ≡ get f x * 2 ^ f.lo
masks-Keeps i m x f e = get_elem?-Keeps masks i m f masks-AreMasks e x
