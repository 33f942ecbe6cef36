-- ===== src/Print/Format/Conversions.antt =====
-- Each conversion of `__vsnprintf` appends the text of its directive.
use secos_ng.Base.{
  ℕ, ◌%◌, ◌^◌, ◌<◌, ◌≡◌, refl, ap, sym, ◌∙◌, arith, Bool, true, false, leb, ◌==◌, if◌then◌else◌,
  List, [], ◌∷◌, u8, ◌||◌,
}
use secos_ng.Print.Buffer.{Buffer, buf_add, add_all, add_all-append}
use secos_ng.Print.Digits.{add_bin, add_udec, add_idec, add_hex}
use secos_ng.Print.Digits.Numeral.{numeral, fixed}
use secos_ng.Print.Digits.Laws.{signed_text, add_bin_lem, add_udec_lem, add_idec_lem, add_hex_lem}
use secos_ng.Print.Format.{
  Outcome, done, panicked, fault, ◌>>=◌, defined, arg32, arg64, sign_extend, signed_arg,
  unsigned_arg, convert,
}
use secos_ng.Print.Format.Spec.{Directive, bits_of, directive, show, take_signed, take_unsigned}

-- An argument that fits 64 bits.
abbrev Fits : Outcome (ℕ × List ℕ) → Type 0
Fits (done (v, ws)) = v < 2 ^ 64
Fits (panicked c) = Unit
Fits fault = Unit

arg32-Fits : (args : List ℕ) → Fits (arg32 args)
unfolding arg32
arg32-Fits [] = tt
arg32-Fits (w ∷ ws) = omega arith

arg64-Fits : (args : List ℕ) → Fits (arg64 args)
unfolding arg64
arg64-Fits [] = tt
arg64-Fits (lo ∷ []) = tt
arg64-Fits (lo ∷ hi ∷ ws) = omega arith

signed_arg-take :
    (size : ℕ) (args : List ℕ) → signed_arg size args ≡ take_signed (bits_of size) args
unfolding signed_arg take_signed bits_of
signed_arg-take size args = ground arith

unsigned_arg-take :
    (size : ℕ) (args : List ℕ) → unsigned_arg size args ≡ take_unsigned (bits_of size) args
unfolding unsigned_arg take_unsigned bits_of arg32
unsigned_arg-take size [] = ground arith
unsigned_arg-take size (w ∷ ws) = ground arith

Fits-if : (t : Bool) (o p : Outcome (ℕ × List ℕ)) → Fits o → Fits p → Fits (if t then o else p)
Fits-if true o p h k = h
Fits-if false o p h k = k

Fits-map :
    (f : ℕ → ℕ) (o : Outcome (ℕ × List ℕ))
    → ((v : ℕ) → f v < 2 ^ 64)
    → Fits (o >>= (λ (v, ws). done (f v, ws)))
Fits-map f (done (v, ws)) h = h v
Fits-map f (panicked c) h = tt
Fits-map f fault h = tt

unsigned_arg-Fits : (size : ℕ) (args : List ℕ) → Fits (unsigned_arg size args)
unfolding unsigned_arg
unsigned_arg-Fits size args = Fits-if (leb 8 size) _ _ (arg64-Fits args) (
    Fits-if (size == 4) _ _ (arg32-Fits args) (
      Fits-if (size == 2) _ _ (Fits-map (λ v. v % 2 ^ 16) (arg32 args) (λ v. omega arith))
        (Fits-map (λ v. v % 2 ^ 8) (arg32 args) (λ v. omega arith))))

signed_arg-Fits : (size : ℕ) (args : List ℕ) → Fits (signed_arg size args)
unfolding signed_arg sign_extend
signed_arg-Fits size args = Fits-if (leb 8 size) _ _ (arg64-Fits args) (
    Fits-if (size == 4) _ _ (Fits-map (sign_extend 32) (arg32 args) (λ v. ground arith)) (
      Fits-if (size == 2) _ _ (Fits-map (sign_extend 16) (arg32 args) (λ v. ground arith))
        (Fits-map (sign_extend 8) (arg32 args) (λ v. ground arith))))

module _ (len : ℕ) (b : Buffer) where
  -- A text handed on is a text appended.
  abbrev pub put : Outcome (List ℕ × List ℕ) → Outcome (List ℕ × Buffer)
  put o = o >>= (λ (ws, t). done (ws, add_all len t b))

  put_idec :
      (o : Outcome (ℕ × List ℕ))
      → Fits o
      → (o >>= (λ (v, ws). defined (add_idec len v b) >>= (λ b'. done (ws, b'))))
        ≡ put (o >>= (λ (v, ws). if v == 2 ^ 63 then fault else done (ws, signed_text v)))
  put_idec (done (v, ws)) h = ground (arith, add_idec_lem len v b h)
  put_idec (panicked c) h = refl
  put_idec fault h = refl

  put_udec :
      (o : Outcome (ℕ × List ℕ))
      → Fits o
      → (o >>= (λ (v, ws). defined (add_udec len v b) >>= (λ b'. done (ws, b'))))
        ≡ put (o >>= (λ (v, ws). done (ws, numeral 10 20 v)))
  put_udec (done (v, ws)) h = ground (arith, add_udec_lem len v b h)
  put_udec (panicked c) h = refl
  put_udec fault h = refl

  put_hex :
      (o : Outcome (ℕ × List ℕ))
      → Fits o
      → (o >>= (λ (v, ws). defined (add_hex len v 0 b) >>= (λ b'. done (ws, b'))))
        ≡ put (o >>= (λ (v, ws). done (ws, numeral 16 16 v)))
  put_hex (done (v, ws)) h = ground (arith, add_hex_lem len v b h)
  put_hex (panicked c) h = refl
  put_hex fault h = refl

  put_then_hex :
      (o : Outcome (ℕ × List ℕ))
      → Fits o
      → (o >>= (λ (v, ws).
          defined (add_hex len v 0 (add_all len (b'0' ∷ b'x' ∷ []) b)) >>= (λ b'. done (ws, b'))))
        ≡ put (o >>= (λ (v, ws). done (ws, b'0' ∷ b'x' ∷ numeral 16 16 v)))
  put_then_hex (done (v, ws)) h = ground (
    arith,
    add_hex_lem len v (add_all len (b'0' ∷ b'x' ∷ []) b) h,
    add_all-append len (b'0' ∷ b'x' ∷ []) (numeral 16 16 v) b,
  )
  put_then_hex (panicked c) h = refl
  put_then_hex fault h = refl

  put_bin :
      (n : ℕ) (o : Outcome (ℕ × List ℕ))
      → (o >>= (λ (v, ws). done (ws, add_bin len v n b)))
        ≡ put (o >>= (λ (v, ws). done (ws, fixed 2 n v)))
  put_bin n (done (v, ws)) = ground (arith, add_bin_lem len v n b)
  put_bin n (panicked c) = refl
  put_bin n fault = refl

  put_str :
      (text : ℕ → List ℕ) (o : Outcome (ℕ × List ℕ))
      → (o >>= (λ (p, ws). done (ws, add_all len (text p) b)))
        ≡ put (o >>= (λ (p, ws). done (ws, text p)))
  put_str text (done (v, ws)) = refl
  put_str text (panicked c) = refl
  put_str text fault = refl

  put_chr :
      (o : Outcome (ℕ × List ℕ))
      → (o >>= (λ (v, ws). done (ws, buf_add len (u8 v) b)))
        ≡ put (o >>= (λ (v, ws). done (ws, u8 v ∷ [])))
  unfolding add_all
  put_chr (done (v, ws)) = refl
  put_chr (panicked c) = refl
  put_chr fault = refl

  -- A 32-bit argument needs no cut to 32 bits.
  take_32 : (args : List ℕ) → take_unsigned 32 args ≡ arg32 args
  unfolding take_unsigned arg32
  take_32 [] = refl
  take_32 (w ∷ ws) = ground arith

  module _ (text : ℕ → List ℕ) (args : List ℕ) where
    -- The same test on both sides.
    branch :
        (t : Bool) {o p : Outcome (List ℕ × Buffer)} (d e : Directive)
        → o ≡ put (show text d args)
        → p ≡ put (show text e args)
        → (if t then o else p) ≡ put (show text (if t then d else e) args)
    branch true d e h k = h
    branch false d e h k = k

    -- A conversion appends the text of its directive, and takes the arguments of its directive.
    pub convert-show :
        (c size : ℕ) → convert text len c size args b ≡ put (show text (directive c size) args)
    unfolding convert directive show take_unsigned take_signed add_all
    convert-show c size = branch (c == b's') _ _ (put_str text (arg32 args)) (
        branch (c == b'c') _ _ (put_chr (arg32 args)) (
          branch (c == b'b') _ _
            (put_bin 32 (arg32 args)
              ∙ ap (λ o. put (o >>= (λ (v, ws). done (ws, fixed 2 32 v)))) (sym (take_32 args)))
            (branch (c == b'B') _ _ (put_bin 64 (arg64 args)) (
              branch (c == b'd' || c == b'i') _ _
                (put_idec (signed_arg size args) (signed_arg-Fits size args)
                  ∙ ap
                      (λ o. put (
                        o >>= (λ (v, ws). if v == 2 ^ 63 then fault else done (ws, signed_text v))))
                      (signed_arg-take size args))
                (branch (c == b'u') _ _
                  (put_udec (unsigned_arg size args) (unsigned_arg-Fits size args)
                    ∙ ap (λ o. put (o >>= (λ (v, ws). done (ws, numeral 10 20 v))))
                        (unsigned_arg-take size args))
                  (branch (c == b'x') _ _
                    (put_hex (unsigned_arg size args) (unsigned_arg-Fits size args)
                      ∙ ap (λ o. put (o >>= (λ (v, ws). done (ws, numeral 16 16 v))))
                          (unsigned_arg-take size args))
                    (branch (c == b'D') _ _ (put_idec (arg64 args) (arg64-Fits args)) (
                      branch (c == b'X') _ _ (put_hex (arg64 args) (arg64-Fits args)) (
                        branch (c == b'p') _ _ (put_then_hex (arg32 args) (arg32-Fits args))
                          (branch (c == b'%') _ _ refl refl))))))))))
