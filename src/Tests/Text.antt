-- ===== src/Tests/Text.antt =====
-- kernel/core/print.c at concrete inputs.
use secos_ng.Base.{◌≤◌, ℕ, ◌≡◌, refl, arith, List, [], ◌∷◌, some}
use secos_ng.Memory.{Memory}
use secos_ng.Print.Buffer.{Buffer, add_all}
use secos_ng.Print.Digits.Numeral.{numeral}
use secos_ng.Print.Format.{done, ◌>>=◌, terminate, vsnprintf, arg32, sign_extend}
use secos_ng.Print.Format.Spec.{render, parse, plain, read, show, directive, bits_of, take_signed}
use secos_ng.Print.Digits.Laws.{signed_text}
use secos_ng.Uart.{com1, can_send}
use secos_ng.Uart.Transfer.{ready, sends}
use secos_ng.Print.Console.{vprintf, vprintf-sends}
use secos_ng.Print.Format.Refine.{vsnprintf-render}
use secos_ng.Print.Format.Bounds.{IsWritten, vsnprintf-IsWritten}

abbrev blank : Memory
blank x = 0

abbrev no_strings : ℕ → List ℕ
no_strings p = []

abbrev format : List ℕ
format = b'n' ∷ b'=' ∷ b'%' ∷ b'd' ∷ []

abbrev room : Buffer
room = record { addr = 0x1000; sz = 2; mem = blank }

vsnprintf-render_example : vsnprintf no_strings 0x1000 4 format (7 ∷ []) blank ≡ (
    render no_strings (parse plain format) (7 ∷ [])
    >>= (λ (ws, t). done (terminate (add_all 3 t (record { addr = 0x1000; sz = 0; mem = blank })))))
vsnprintf-render_example = vsnprintf-render no_strings 0x1000 4 format (7 ∷ []) blank

vsnprintf-IsWritten_example :
    (ret : ℕ) × (m' : Memory) × (vsnprintf no_strings 0x1000 4 format (7 ∷ []) blank
      ≡ done (ret, m'))
    × IsWritten 0x1000 4 (b'n' ∷ b'=' ∷ b'7' ∷ []) blank m' ret
unfolding render parse read show directive bits_of take_signed arg32 sign_extend signed_text numeral
vsnprintf-IsWritten_example =
    vsnprintf-IsWritten no_strings 0x1000 4 format (7 ∷ []) [] (b'n' ∷ b'=' ∷ b'7' ∷ []) blank refl
      (omega arith)

all_ready : 3 ≤ ready (32 ∷ 32 ∷ 32 ∷ [])
unfolding ready can_send
all_ready = omega arith

vprintf-sends_example :
    (m' : Memory) × (vprintf no_strings 0x309000 (32 ∷ 32 ∷ 32 ∷ []) format (7 ∷ []) blank
      ≡ done (4, some (sends com1 (b'n' ∷ b'=' ∷ b'7' ∷ [])), m'))
unfolding render parse read show directive bits_of take_signed arg32 sign_extend signed_text numeral
vprintf-sends_example =
    vprintf-sends no_strings 0x309000 (32 ∷ 32 ∷ 32 ∷ []) format (7 ∷ []) []
      (b'n' ∷ b'=' ∷ b'7' ∷ []) blank refl (omega arith) all_ready
