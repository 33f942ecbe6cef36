-- ===== src/Print/Pieces.antt =====
-- Formats that are put together from texts without a percent sign and from conversions.
use secos_ng.Base.{ℕ, ◌^◌, ◌≡◌, ◌≢◌, refl, arith, List, [], ◌∷◌, ◌++◌, u32}
use secos_ng.Print.Calls.{Call, output}
use secos_ng.Print.Format.{done, arg32, sign_extend}
use secos_ng.Print.Format.Spec.{
  plain, parse, render, read, show, directive, bits_of, take_signed, take_unsigned,
}
use secos_ng.Print.Digits.Numeral.{numeral}
use secos_ng.Print.Digits.Laws.{signed_text}

-- No character starts a directive.
abbrev pub IsPlain : List ℕ → Type 0
IsPlain [] = Unit
IsPlain (c ∷ cs) = (c ≢ b'%') × IsPlain cs

-- A text, and the conversions `%d`, `%x`, `%p` and `%s` of an argument.
pub data Piece : Type 0 where
  words : List ℕ → Piece
  dec hexa ptr str : ℕ → Piece

unfoldable pub format_of : List Piece → List ℕ
format_of [] = []
format_of (words t ∷ ps) = t ++ format_of ps
format_of (dec w ∷ ps) = b'%' ∷ b'd' ∷ format_of ps
format_of (hexa w ∷ ps) = b'%' ∷ b'x' ∷ format_of ps
format_of (ptr w ∷ ps) = b'%' ∷ b'p' ∷ format_of ps
format_of (str w ∷ ps) = b'%' ∷ b's' ∷ format_of ps

unfoldable pub args_of : List Piece → List ℕ
args_of [] = []
args_of (words t ∷ ps) = args_of ps
args_of (dec w ∷ ps) = w ∷ args_of ps
args_of (hexa w ∷ ps) = w ∷ args_of ps
args_of (ptr w ∷ ps) = w ∷ args_of ps
args_of (str w ∷ ps) = w ∷ args_of ps

abbrev IsProper : List Piece → Type 0
IsProper [] = Unit
IsProper (words t ∷ ps) = IsPlain t × IsProper ps
IsProper (dec w ∷ ps) = IsProper ps
IsProper (hexa w ∷ ps) = IsProper ps
IsProper (ptr w ∷ ps) = IsProper ps
IsProper (str w ∷ ps) = IsProper ps

-- A word as a signed decimal number, and as a hexadecimal one.
abbrev dec_text : ℕ → List ℕ
dec_text w = signed_text (sign_extend 32 (u32 w))

abbrev hex32_text : ℕ → List ℕ
hex32_text w = numeral 16 16 (u32 w)

module _ (text : ℕ → List ℕ) where
  unfoldable pub text_of : List Piece → List ℕ
  text_of [] = []
  text_of (words t ∷ ps) = t ++ text_of ps
  text_of (dec w ∷ ps) = dec_text w ++ text_of ps
  text_of (hexa w ∷ ps) = hex32_text w ++ text_of ps
  text_of (ptr w ∷ ps) = b'0' ∷ b'x' ∷ hex32_text w ++ text_of ps
  text_of (str w ∷ ps) = text (u32 w) ++ text_of ps

  pub render-words :
      (t f args ws u : List ℕ)
      → IsPlain t
      → render text (parse plain f) args ≡ done (ws, u)
      → render text (parse plain (t ++ f)) args ≡ done (ws, t ++ u)
  unfolding render parse read show
  render-words [] f args ws u h e = e
  render-words (c ∷ t) f args ws u h e = ground (arith, h.0, render-words t f args ws u h.1 e)

  not_least : (w : ℕ) → sign_extend 32 (u32 w) ≢ 2 ^ 63
  unfolding sign_extend
  not_least w = ground arith

  render-dec :
      (w : ℕ) (f args ws u : List ℕ)
      → render text (parse plain f) args ≡ done (ws, u)
      → render text (parse plain (b'%' ∷ b'd' ∷ f)) (w ∷ args) ≡ done (ws, dec_text w ++ u)
  unfolding render parse read show directive bits_of take_signed arg32
  render-dec w f args ws u e = ground (arith, not_least w, e)

  render-hexa :
      (w : ℕ) (f args ws u : List ℕ)
      → render text (parse plain f) args ≡ done (ws, u)
      → render text (parse plain (b'%' ∷ b'x' ∷ f)) (w ∷ args) ≡ done (ws, hex32_text w ++ u)
  unfolding render parse read show directive bits_of take_unsigned arg32
  render-hexa w f args ws u e = ground (arith, e)

  render-ptr :
      (w : ℕ) (f args ws u : List ℕ)
      → render text (parse plain f) args ≡ done (ws, u)
      → render text (parse plain (b'%' ∷ b'p' ∷ f)) (w ∷ args)
        ≡ done (ws, b'0' ∷ b'x' ∷ hex32_text w ++ u)
  unfolding render parse read show directive arg32
  render-ptr w f args ws u e = ground (arith, e)

  render-str :
      (w : ℕ) (f args ws u : List ℕ)
      → render text (parse plain f) args ≡ done (ws, u)
      → render text (parse plain (b'%' ∷ b's' ∷ f)) (w ∷ args) ≡ done (ws, text (u32 w) ++ u)
  unfolding render parse read show directive arg32
  render-str w f args ws u e = ground (arith, e)

  render-pieces :
      (ps : List Piece)
      → IsProper ps
      → render text (parse plain (format_of ps)) (args_of ps) ≡ done ([], text_of ps)
  unfolding format_of args_of text_of render parse
  render-pieces [] h = refl
  render-pieces (words t ∷ ps) h =
      render-words t (format_of ps) (args_of ps) [] (text_of ps) h.0 (render-pieces ps h.1)
  render-pieces (dec w ∷ ps) h =
      render-dec w (format_of ps) (args_of ps) [] (text_of ps) (render-pieces ps h)
  render-pieces (hexa w ∷ ps) h =
      render-hexa w (format_of ps) (args_of ps) [] (text_of ps) (render-pieces ps h)
  render-pieces (ptr w ∷ ps) h =
      render-ptr w (format_of ps) (args_of ps) [] (text_of ps) (render-pieces ps h)
  render-pieces (str w ∷ ps) h =
      render-str w (format_of ps) (args_of ps) [] (text_of ps) (render-pieces ps h)

-- The call that has the pieces' format and arguments.
abbrev pub call_of : List Piece → Call
call_of ps = record { format = format_of ps; args = args_of ps }

pub output-call_of :
    (text : ℕ → List ℕ) (ps : List Piece) (cs : List Call) (t : List ℕ)
    → IsProper ps
    → output text cs ≡ done t
    → output text (call_of ps ∷ cs) ≡ done (text_of text ps ++ t)
unfolding output
output-call_of text ps cs t h e = ground (arith, render-pieces text ps h, e)
