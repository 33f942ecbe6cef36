-- ===== src/Print/Format/Spec.antt =====
-- What a format means: the directives that it is read as, and the text of each.
use secos_ng.Base.{
  ℕ, ◌/◌, ◌%◌, ◌^◌, Bool, true, false, ◌||◌, List, [], ◌∷◌, ◌++◌, leb, ◌==◌, if◌then◌else◌, u8,
}
use secos_ng.Print.Digits.Numeral.{numeral, fixed}
use secos_ng.Print.Digits.Laws.{signed_text}
use secos_ng.Print.Format.{
  Outcome, done, panicked, fault, ◌>>=◌, arg32, arg64, sign_extend, is_digit,
}

-- `bits` is the width of the integer that a conversion is about.
pub data Directive : Type 0 where
  literal : ℕ → Directive
  str chr ptr : Directive
  binary signed unsigned hex : (bits : ℕ) → Directive
  bad : ℕ → Directive

-- `%h` halves the size; four bytes are an `int`, and what is below two bytes is one.
unfoldable pub bits_of : ℕ → ℕ
bits_of size = if leb 8 size then 64 else if size == 4 then 32 else if size == 2 then 16 else 8

unfoldable pub directive : ℕ → ℕ → Directive
directive c size =
    if c == b's'
    then str
    else if c == b'c'
    then chr
    else if c == b'b'
    then binary 32
    else if c == b'B'
    then binary 64
    else if c == b'd' || c == b'i'
    then signed (bits_of size)
    else if c == b'u'
    then unsigned (bits_of size)
    else if c == b'x'
    then hex (bits_of size)
    else if c == b'D'
    then signed 64
    else if c == b'X'
    then hex 64
    else if c == b'p'
    then ptr
    else if c == b'%'
    then literal c
    else bad c

-- Outside a directive, or inside one with the length modifiers read so far.
pub data Mode : Type 0 where
  plain : Mode
  inside : Bool → ℕ → Mode

-- What one character of the format completes, and the mode that it leaves.
unfoldable pub read : Mode → ℕ → List Directive × Mode
read plain c = if c == b'%' then ([], inside false 4) else (literal c ∷ [], plain)
read (inside l size) c =
    if c == b'l'
    then ([], if l then inside l 8 else inside true size)
    else if c == b'h'
    then ([], inside l (size / 2))
    else if is_digit c
    then ([], inside l size)
    else (directive c size ∷ [], plain)

unfoldable pub parse : Mode → List ℕ → List Directive
parse mode [] = []
parse mode (c ∷ format) = (read mode c).0 ++ parse (read mode c).1 format

-- The integer of `bits` bits that comes next.
unfoldable pub take_signed : ℕ → List ℕ → Outcome (ℕ × List ℕ)
take_signed bits args =
    if bits == 64 then arg64 args else arg32 args >>= (λ (v, ws). done (sign_extend bits v, ws))

unfoldable pub take_unsigned : ℕ → List ℕ → Outcome (ℕ × List ℕ)
take_unsigned bits args =
    if bits == 64 then arg64 args else arg32 args >>= (λ (v, ws). done (v % 2 ^ bits, ws))

-- The text of a directive, and the arguments that it leaves.
unfoldable pub show : (ℕ → List ℕ) → Directive → List ℕ → Outcome (List ℕ × List ℕ)
show text (literal c) args = done (args, c ∷ [])
show text str args = arg32 args >>= (λ (p, ws). done (ws, text p))
show text chr args = arg32 args >>= (λ (v, ws). done (ws, u8 v ∷ []))
show text ptr args = arg32 args >>= (λ (v, ws). done (ws, b'0' ∷ b'x' ∷ numeral 16 16 v))
show text (binary bits) args = take_unsigned bits args >>= (λ (v, ws). done (ws, fixed 2 bits v))
show text (signed bits) args =
    take_signed bits args >>= (λ (v, ws). if v == 2 ^ 63 then fault else done (ws, signed_text v))
show text (unsigned bits) args = take_unsigned bits args >>= (λ (v, ws). done (ws, numeral 10 20 v))
show text (hex bits) args = take_unsigned bits args >>= (λ (v, ws). done (ws, numeral 16 16 v))
show text (bad c) args = panicked c

-- The text of a whole format.
unfoldable pub render : (ℕ → List ℕ) → List Directive → List ℕ → Outcome (List ℕ × List ℕ)
render text [] args = done (args, [])
render text (d ∷ ds) args =
    show text d args >>= (λ (ws, t). render text ds ws >>= (λ (ws', t'). done (ws', t ++ t')))
