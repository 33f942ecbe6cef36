-- ===== src/Print/Format/Refine.antt =====
-- `__vsnprintf` appends the text of the format, cut to the room that there is.
use secos_ng.Base.{
  ℕ, ◌-◌, ◌/◌, ◌≡◌, refl, ap, sym, ◌∙◌, arith, ◌==◌, Bool, true, false, Bool-cases, inl, inr,
  if◌then◌else◌, List, [], ◌∷◌, ◌++◌,
}
use secos_ng.Memory.{Memory}
use secos_ng.Print.Buffer.{Buffer, buf_add, add_all, add_all-append}
use secos_ng.Print.Format.{
  Outcome, done, panicked, fault, ◌>>=◌, State, is_digit, step, loop, start, terminate, vsnprintf,
}
use secos_ng.Print.Format.Spec.{Mode, plain, inside, directive, read, parse, show, render}
use secos_ng.Print.Format.Conversions.{put, convert-show}

-- The state in a mode. Outside a directive `lng` is off and `size` is not read.
abbrev in_mode : Mode → ℕ → List ℕ → Buffer → State
in_mode plain n args b = record { interp = false; lng = false; size = n; args = args; buf = b }
in_mode (inside l size) n args b = record {
  interp = true;
  lng = l;
  size = size;
  args = args;
  buf = b;
}

module _ (text : ℕ → List ℕ) (len : ℕ) where
  -- What the loop hands to the code after it.
  abbrev finish : Outcome State → Outcome (List ℕ × Buffer)
  finish o = o >>= (λ s. done (s.args, s.buf))

  -- A text in front of the texts that follow.
  put-append :
      (b : Buffer) (t : List ℕ) (o : Outcome (List ℕ × List ℕ))
      → put len b (o >>= (λ (ws, t'). done (ws, t ++ t'))) ≡ put len (add_all len t b) o
  put-append b t (done (ws, t')) = ap (λ (x : Buffer). done (ws, x)) (add_all-append len t t' b)
  put-append b t (panicked c) = refl
  put-append b t fault = refl

  module _ (format : List ℕ)
      (rest : (mode : Mode) (n : ℕ) (args : List ℕ) (b : Buffer)
        → finish (loop text len format (in_mode mode n args b))
          ≡ put len b (render text (parse mode format) args))
      (n : ℕ) (b : Buffer) where
    -- A conversion and what follows it.
    after : (size : ℕ) → Outcome (List ℕ × Buffer) → Outcome (List ℕ × Buffer)
    after size o =
        finish (o >>= (λ (ws, b'). done (in_mode plain size ws b')) >>= loop text len format)

    after-show :
        (size : ℕ) (o : Outcome (List ℕ × List ℕ))
        → after size (put len b o)
          ≡ put len b (
              o >>= (λ (ws, t).
                render text (parse plain format) ws >>= (λ (ws', t'). done (ws', t ++ t'))))
    unfolding after
    after-show size (done (ws, t)) =
        rest plain size ws (add_all len t b)
        ∙ sym (put-append b t (render text (parse plain format) ws))
    after-show size (panicked c) = refl
    after-show size fault = refl

    step_plain :
        (c : ℕ) (args : List ℕ)
        → finish (step text len c (in_mode plain n args b) >>= loop text len format)
          ≡ put len b (render text (parse plain (c ∷ format)) args)
    unfolding step parse read render show add_all
    step_plain c args = elim (Bool-cases (c == b'%')) [
      | inl e ↦ rw e (rest (inside false 4) n args b)
      | inr e ↦ rw e (
          rest plain n args (buf_add len c b)
          ∙ sym (put-append b (c ∷ []) (render text (parse plain format) args)))
    ]

    step_inside :
        (l : Bool) (size c : ℕ) (args : List ℕ)
        → finish (step text len c (in_mode (inside l size) n args b) >>= loop text len format)
          ≡ put len b (render text (parse (inside l size) (c ∷ format)) args)
    unfolding step parse read render after
    step_inside l size c args = elim (Bool-cases (c == b'l')) [
      | inl e ↦ rw e (modifier l)
      | inr e ↦ elim (Bool-cases (c == b'h')) [
        | inl h ↦ rw (e, h) (rest (inside l (size / 2)) n args b)
        | inr h ↦ elim (Bool-cases (is_digit c)) [
          | inl d ↦ rw (e, h, d) (rest (inside l size) n args b)
          | inr d ↦
              rw (e, h, d, convert-show len b text args c size)
                (after-show size (show text (directive c size) args))
        ]
      ]
    ]
      where
        modifier :
            (l : Bool)
            → finish (
                done
                  (if l then in_mode (inside l 8) n args b else in_mode (inside true size) n args b)
                >>= loop text len format)
              ≡ put len b
                  (render text (parse (if l then inside l 8 else inside true size) format) args)
        modifier true = rest (inside true 8) n args b
        modifier false = rest (inside true size) n args b

  -- The loop, from any mode.
  pub loop-render :
      (format : List ℕ) (mode : Mode) (n : ℕ) (args : List ℕ) (b : Buffer)
      → finish (loop text len format (in_mode mode n args b))
        ≡ put len b (render text (parse mode format) args)
  unfolding loop parse render add_all
  loop-render [] plain n args b = refl
  loop-render [] (inside l size) n args b = refl
  loop-render (c ∷ format) plain n args b =
      step_plain format (λ mode k ws b'. loop-render format mode k ws b') n b c args
  loop-render (c ∷ format) (inside l size) n args b =
      step_inside format (λ mode k ws b'. loop-render format mode k ws b') n b l size c args

-- The zero byte after the loop.
then_terminate : Outcome (List ℕ × Buffer) → Outcome (ℕ × Memory)
then_terminate o = o >>= (λ (ws, b). done (terminate b))

last_step :
    (o : Outcome State)
    → (o >>= (λ s. done (terminate s.buf))) ≡ then_terminate (o >>= (λ s. done (s.args, s.buf)))
unfolding then_terminate
last_step (done s) = refl
last_step (panicked c) = refl
last_step fault = refl

last_put :
    (len : ℕ) (b : Buffer) (o : Outcome (List ℕ × List ℕ))
    → then_terminate (put len b o) ≡ (o >>= (λ (ws, t). done (terminate (add_all len t b))))
unfolding then_terminate
last_put len b (done (ws, t)) = refl
last_put len b (panicked c) = refl
last_put len b fault = refl

-- `__vsnprintf` appends to the empty buffer as much of the format's text as `len` leaves room
-- for, then a zero byte, and returns the number of bytes with that one. It panics on the
-- conversions that the format's meaning panics on.
pub vsnprintf-render :
    (text : ℕ → List ℕ) (buffer len : ℕ) (format args : List ℕ) (m : Memory)
    → vsnprintf text buffer len format args m ≡ (
        render text (parse plain format) args >>= (λ (ws, t).
          done (terminate (add_all (len - 1) t (record { addr = buffer; sz = 0; mem = m })))))
unfolding vsnprintf
vsnprintf-render text buffer len format args m =
    let b : Buffer = record { addr = buffer; sz = 0; mem = m } in
    let room : (if len == 0 then 0 else len - 1) ≡ len - 1 = ground arith in
    rw room (
      last_step (loop text (len - 1) format (start buffer args m))
      ∙ ap then_terminate (loop-render text (len - 1) format plain 4 args b)
      ∙ last_put (len - 1) b (render text (parse plain format) args))
