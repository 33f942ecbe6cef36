-- ===== src/Pic/Service.antt =====
-- The lines that the controllers have in service, by the macros of kernel/include/pic.h that tell
-- command words apart, and its comments on them.
use secos_ng.Base.{
  ℕ, ◌-◌, bit_and, ◌≡◌, refl, Bool, true, not, ◌&&◌, ◌==◌, ltb, if◌then◌else◌, List, [], ◌∷◌,
  Option, none, some,
}
use secos_ng.Bitfield.{get}
use secos_ng.Io.{Out, out}
use secos_ng.Pic.{pic1, pic2, pic_init}
use secos_ng.Pic.Regs.{ocw2_lvl, ocw2_cmd}

unfoldable pub is_pic_icw1 : ℕ → Bool
is_pic_icw1 word = not (bit_and word 0x10 == 0)

unfoldable pub is_pic_ocw2 : ℕ → Bool
is_pic_ocw2 word = bit_and word 0x18 == 0

unfoldable pub is_pic_ocw3 : ℕ → Bool
is_pic_ocw3 word = bit_and word 0x98 == 8

abbrev pub pic_ocw2_non_specific_eoi : ℕ
pic_ocw2_non_specific_eoi = 1

abbrev pub pic_ocw2_specific_eoi : ℕ
pic_ocw2_specific_eoi = 3

-- `PIC_EOI` and `pic_eoi`
abbrev pub pic_eoi : ℕ → Out
pic_eoi base = out 0x20 base

-- The lines in service of each controller, the one of the highest priority first.
pub record Lines : Type 0 where
  pub master : List ℕ
  pub slave : List ℕ

abbrev pub idle : Lines
idle = record { master = []; slave = [] }

-- A controller takes a request above those in service.
unfoldable pub takes : ℕ → List ℕ → Bool
takes line [] = true
takes line (l ∷ ls) = ltb line l

-- The second controller asks at line 2 of the first one. `none` is a request that waits.
unfoldable pub request : (irq : ℕ) → Lines → Option Lines
request irq s =
    if ltb irq 8
    then (if takes irq s.master then some (record s { master = irq ∷ s.master }) else none)
    else if takes (irq - 8) s.slave && takes 2 s.master
    then some (record { master = 2 ∷ s.master; slave = (irq - 8) ∷ s.slave })
    else none

unfoldable without : ℕ → List ℕ → List ℕ
without line [] = []
without line (l ∷ ls) = let rest = without line ls in if line == l then ls else l ∷ rest

unfoldable pub ended : List ℕ → List ℕ
ended [] = []
ended (l ∷ ls) = ls

-- A command word at the port with line A0 low. The first one of the initialization ends every
-- service; of the others those that end one count here.
unfoldable pub command_word : (word : ℕ) → List ℕ → List ℕ
unfolding without
command_word word ls =
    if is_pic_icw1 word
    then []
    else if is_pic_ocw2 word && get ocw2_cmd word == pic_ocw2_non_specific_eoi
    then ended ls
    else if is_pic_ocw2 word && get ocw2_cmd word == pic_ocw2_specific_eoi
    then without (get ocw2_lvl word) ls
    else ls

unfoldable pub send : Out → Lines → Lines
send o s =
    if o.port == pic1
    then record s { master = command_word o.value s.master }
    else if o.port == pic2
    then record s { slave = command_word o.value s.slave }
    else s

unfoldable pub send_all : List Out → Lines → Lines
send_all [] s = s
send_all (o ∷ os) s = send_all os (send o s)

-- The initialization ends every service.
pub pic_init-idle : (s : Lines) → send_all pic_init s ≡ idle
unfolding pic_init send_all send command_word is_pic_icw1
pic_init-idle s = refl
