-- ===== src/Print/Format.antt =====
-- `__vsnprintf`, one character of the format at a time.
pub mod Spec
pub mod Conversions
pub mod Refine
pub mod Bounds
use secos_ng.Base.{
  ℕ, zero, suc, ◌+◌, ◌-◌, ◌*◌, ◌/◌, ◌%◌, ◌^◌, Bool, true, false, ◌&&◌, ◌||◌, Option, none, some,
  List, [], ◌∷◌, ltb, leb, ◌==◌, if◌then◌else◌, u8, u32, add32,
}
use secos_ng.Memory.{Memory, store8}
use secos_ng.Print.Buffer.{Buffer, buf_add, add_all}
use secos_ng.Print.Digits.{add_bin, add_udec, add_idec, add_hex}

-- A normal return; the call of `panic` on a conversion that is not supported; what C leaves
-- undefined: reading an argument that was not passed, or negating the least `sint64_t`.
pub data Outcome (A : Type 0) : Type 0 where
  done : A → Outcome A
  panicked : ℕ → Outcome A
  fault : Outcome A

infixl 5 ◌>>=◌
abbrev pub ◌>>=◌ : {A B : Type 0} → Outcome A → (A → Outcome B) → Outcome B
done a >>= f = f a
panicked c >>= f = panicked c
fault >>= f = fault

abbrev pub defined : {A : Type 0} → Option A → Outcome A
defined none = fault
defined (some a) = done a

-- `va_arg` of a type of 32 bits, and of 64.
unfoldable pub arg32 : List ℕ → Outcome (ℕ × List ℕ)
arg32 [] = fault
arg32 (w ∷ ws) = done (u32 w, ws)

pub arg64 : List ℕ → Outcome (ℕ × List ℕ)
arg64 [] = fault
arg64 (lo ∷ []) = fault
arg64 (lo ∷ hi ∷ ws) = done (u32 hi * 2 ^ 32 + u32 lo, ws)

-- The low `w` bits as a signed number, widened to a `sint64_t` pattern.
unfoldable pub sign_extend : ℕ → ℕ → ℕ
sign_extend w x = let low = x % 2 ^ w in if ltb low (2 ^ (w - 1)) then low else low + 2 ^ 64 - 2 ^ w

pub signed_arg : ℕ → List ℕ → Outcome (ℕ × List ℕ)
signed_arg size args =
    if leb 8 size
    then arg64 args
    else if size == 4
    then arg32 args >>= (λ (v, ws). done (sign_extend 32 v, ws))
    else if size == 2
    then arg32 args >>= (λ (v, ws). done (sign_extend 16 v, ws))
    else arg32 args >>= (λ (v, ws). done (sign_extend 8 v, ws))

pub unsigned_arg : ℕ → List ℕ → Outcome (ℕ × List ℕ)
unsigned_arg size args =
    if leb 8 size
    then arg64 args
    else if size == 4
    then arg32 args
    else if size == 2
    then arg32 args >>= (λ (v, ws). done (v % 2 ^ 16, ws))
    else arg32 args >>= (λ (v, ws). done (v % 2 ^ 8, ws))

-- The locals of `__vsnprintf`, with the arguments that are left.
pub record State : Type 0 where
  pub interp : Bool
  pub lng : Bool
  pub size : ℕ
  pub args : List ℕ
  pub buf : Buffer

abbrev pub is_digit : ℕ → Bool
is_digit c = leb b'0' c && leb c b'9'

-- `text` gives the bytes before the zero byte that ends the string at an address.
module _ (text : ℕ → List ℕ) (len : ℕ) where
  -- A conversion character: the arguments left and the buffer.
  pub convert : ℕ → ℕ → List ℕ → Buffer → Outcome (List ℕ × Buffer)
  convert c size args b =
      if c == b's'
      then arg32 args >>= (λ (p, ws). done (ws, add_all len (text p) b))
      else if c == b'c'
      then arg32 args >>= (λ (v, ws). done (ws, buf_add len (u8 v) b))
      else if c == b'b'
      then arg32 args >>= (λ (v, ws). done (ws, add_bin len v 32 b))
      else if c == b'B'
      then arg64 args >>= (λ (v, ws). done (ws, add_bin len v 64 b))
      else if c == b'd' || c == b'i'
      then signed_arg size args
        >>= (λ (v, ws). defined (add_idec len v b) >>= (λ b'. done (ws, b')))
      else if c == b'u'
      then unsigned_arg size args
        >>= (λ (v, ws). defined (add_udec len v b) >>= (λ b'. done (ws, b')))
      else if c == b'x'
      then unsigned_arg size args
        >>= (λ (v, ws). defined (add_hex len v 0 b) >>= (λ b'. done (ws, b')))
      else if c == b'D'
      then arg64 args >>= (λ (v, ws). defined (add_idec len v b) >>= (λ b'. done (ws, b')))
      else if c == b'X'
      then arg64 args >>= (λ (v, ws). defined (add_hex len v 0 b) >>= (λ b'. done (ws, b')))
      else if c == b'p'
      then arg32 args >>= (λ (v, ws).
        defined (add_hex len v 0 (add_all len (b'0' ∷ b'x' ∷ []) b)) >>= (λ b'. done (ws, b')))
      else if c == b'%'
      then done (args, buf_add len c b)
      else panicked c

  -- The body of the loop. A digit leaves the state as it is, as the source's `continue` does.
  pub step : ℕ → State → Outcome State
  step c s =
      if s.interp
      then if c == b'l'
        then done (if s.lng then record s { size = 8 } else record s { lng = true })
        else if c == b'h'
        then done (record s { size = s.size / 2 })
        else if is_digit c
        then done s
        else convert c s.size s.args s.buf
          >>= (λ (ws, b). done (record s { interp = false; lng = false; args = ws; buf = b }))
      else if c == b'%'
      then done (record s { interp = true; size = 4 })
      else done (record s { buf = buf_add len c s.buf })

  pub loop : List ℕ → State → Outcome State
  loop [] s = done s
  loop (c ∷ format) s = step c s >>= loop format

abbrev pub start : ℕ → List ℕ → Memory → State
start buffer args m = record {
  interp = false;
  lng = false;
  size = 4;
  args = args;
  buf = record { addr = buffer; sz = 0; mem = m };
}

-- `buf.data.str[buf.sz++] = 0`, done whatever `len` is: the return value and the memory.
pub terminate : Buffer → ℕ × Memory
terminate b = (add32 b.sz 1, store8 b.mem (add32 b.addr b.sz) 0)

pub vsnprintf : (ℕ → List ℕ) → ℕ → ℕ → List ℕ → List ℕ → Memory → Outcome (ℕ × Memory)
vsnprintf text buffer len format args m =
    loop text (if len == 0 then 0 else len - 1) format (start buffer args m)
    >>= (λ s. done (terminate s.buf))

abbrev snprintf : (ℕ → List ℕ) → ℕ → ℕ → List ℕ → List ℕ → Memory → Outcome (ℕ × Memory)
snprintf text buff len format args m = vsnprintf text buff len format args m
