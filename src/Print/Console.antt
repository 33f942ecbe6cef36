-- ===== src/Print/Console.antt =====
-- `__vprintf` of kernel/core/print.c, and `printf` over it: the formatted text, sent to the serial
-- port.
use Prim.Native.Nat.{min}
use mathlib.Core.Option
use native.Mathlib.Nat.{suc-min-suc}
use secos_ng.Base.{
  ℕ, zero, suc, ◌+◌, ◌%◌, ◌^◌, ◌≤◌, ◌<◌, ◌≡◌, ◌⊎◌, inl, inr, refl, ap, ap₂, ◌∙◌, arith, Option,
  some, List, [], ◌∷◌, length, get_or, take, add32, sub32,
}
use secos_ng.Io.{Out}
use secos_ng.Memory.{Memory}
use secos_ng.Uart.{com1, uart_write}
use secos_ng.Uart.Transfer.{ready, sends, uart_write_lem}
use secos_ng.Print.Format.{Outcome, done, ◌>>=◌, vsnprintf}
use secos_ng.Print.Format.Spec.{plain, parse, render}
use secos_ng.Print.Format.Bounds.{vsnprintf-IsWritten}

-- The `n` bytes that a pointer designates.
unfoldable pub read_bytes : Memory → ℕ → ℕ → List ℕ
read_bytes m a zero = []
read_bytes m a (suc n) = m a ∷ read_bytes m (add32 a 1) n

-- `sizeof(vprint_buffer)`
abbrev pub vprint_size : ℕ
vprint_size = 1024

-- The result of `uart_write`, without the count that the caller drops: what has been sent once
-- all is, by the answers of the device.
abbrev sent : Option (ℕ × List Out) → Option (List Out)
sent r = Option.map (λ a. a.1) r

-- The call of `uart_write` and the return.
abbrev pub then_write : ℕ → List ℕ → Outcome (ℕ × Memory) → Outcome (ℕ × Option (List Out) × Memory)
then_write vprint_buffer statuses o = o >>= (λ (retval, m').
    done (retval, sent (uart_write statuses (read_bytes m' vprint_buffer (sub32 retval 1))), m'))

-- The returned value, what is sent, and the memory left behind. `vprint_buffer` is the address of
-- the static buffer.
unfoldable pub vprintf :
    (text : ℕ → List ℕ) (vprint_buffer : ℕ) (statuses format args : List ℕ)
    → Memory
    → Outcome (ℕ × Option (List Out) × Memory)
vprintf text vprint_buffer statuses format args m =
    then_write vprint_buffer statuses (vsnprintf text vprint_buffer vprint_size format args m)

length-read_bytes : (m : Memory) (a n : ℕ) → length (read_bytes m a n) ≡ n
unfolding read_bytes
length-read_bytes m a zero = refl
length-read_bytes m a (suc n) = ap suc (length-read_bytes m (add32 a 1) n)

take-min : (n : ℕ) (xs : List ℕ) → take (min n (length xs)) xs ≡ take n xs
take-min zero [] = refl
take-min zero (x ∷ xs) = ground arith
take-min (suc n) [] = ground arith
take-min (suc n) (x ∷ xs) = rw (suc-min-suc n (length xs)) (ap (λ ys. x ∷ ys) (take-min n xs))

-- Memory that holds a text sends the text.
sends-read_bytes :
    (m : Memory) (a k base : ℕ) (t : List ℕ)
    → k ≤ length t
    → a + k < 2 ^ 32
    → ((i : ℕ) → i < k → m (a + i) ≡ get_or t i 0 % 256)
    → sends base (read_bytes m a k) ≡ sends base (take k t)
unfolding read_bytes
sends-read_bytes m a zero base t h r f = refl
sends-read_bytes m a (suc k) base [] h r f = absurd (omega arith)
sends-read_bytes m a (suc k) base (c ∷ t) h r f =
    let first : m a % 256 ≡ c % 256 = omega (arith, f 0 (omega arith), ap m here) in
    let next : add32 a 1 ≡ a + 1 = omega arith in
    ap₂ (λ (v : ℕ) os. record { value = v; port = base } ∷ os) first
      (rw next (sends-read_bytes m (a + 1) k base t (omega arith) (omega arith) rest))
  where
    here : a + 0 ≡ a
    here = omega arith

    rest : (i : ℕ) → i < k → m (a + 1 + i) ≡ get_or t i 0 % 256
    rest i hi = let e : a + 1 + i ≡ a + suc i = omega arith in rw e (f (suc i) (omega arith))

sent_all :
    (statuses bytes : List ℕ)
    → length bytes ≤ ready statuses
    → sent (uart_write statuses bytes) ≡ some (sends com1 bytes)
sent_all statuses bytes h = ground (arith, uart_write_lem statuses bytes)

framed :
    (a n ret x : ℕ)
    → ret ≡ min 1023 n + 1
    → (x < a) ⊎ (a + vprint_size ≤ x)
    → (x < a) ⊎ (a + ret ≤ x)
framed a n ret x e (inl lt) = inl lt
framed a n ret x e (inr le) = inr (omega (arith, e))

-- Of memory, `__vprintf` changes its buffer alone.
pub vprintf-framed :
    (text : ℕ → List ℕ) (vprint_buffer : ℕ) (statuses format args ws t : List ℕ) (m : Memory)
    → render text (parse plain format) args ≡ done (ws, t)
    → vprint_buffer + vprint_size < 2 ^ 32
    → length t ≤ ready statuses
    → (m' : Memory) × (vprintf text vprint_buffer statuses format args m
        ≡ done (min 1023 (length t) + 1, some (sends com1 (take 1023 t)), m'))
      × ((x : ℕ) → (x < vprint_buffer) ⊎ (vprint_buffer + vprint_size ≤ x) → m' x ≡ m x)
unfolding vprintf
vprintf-framed text vprint_buffer statuses format args ws t m e r h =
    let p = vsnprintf-IsWritten text vprint_buffer 1024 format args ws t m e r in
    let ret = p.0 in
    let m' = p.1 in
    let w = p.3 in
    let k = min 1023 (length t) in
    let bytes = read_bytes m' vprint_buffer (sub32 ret 1) in
    let shorter : sub32 ret 1 ≡ k = omega (arith, w.count) in
    let few : length bytes ≤ ready statuses =
      omega (arith, length-read_bytes m' vprint_buffer (sub32 ret 1)) in
    let same : sends com1 bytes ≡ sends com1 (take 1023 t) =
      ap (λ (n : ℕ). sends com1 (read_bytes m' vprint_buffer n)) shorter
      ∙ sends-read_bytes m' vprint_buffer k com1 t (omega arith) (omega arith)
          (λ i hi. w.chars i (omega (arith, w.count)))
      ∙ ap (sends com1) (take-min 1023 t) in
    (
      m',
      ap (then_write vprint_buffer statuses) p.2
          ∙ ap₂ (λ (n : ℕ) o. done (n, o, m')) w.count (sent_all statuses bytes few ∙ ap some same),
      λ x o. w.outside x (framed vprint_buffer (length t) ret x w.count o),
    )

-- Where the format means the text `t`, the buffer lies below 4 GB and the transmitter becomes
-- ready for all of `t`, `__vprintf` returns: it has sent the first 1023 bytes of `t` at most, in
-- order and nothing else, and returns their number and one.
pub vprintf-sends :
    (text : ℕ → List ℕ) (vprint_buffer : ℕ) (statuses format args ws t : List ℕ) (m : Memory)
    → render text (parse plain format) args ≡ done (ws, t)
    → vprint_buffer + vprint_size < 2 ^ 32
    → length t ≤ ready statuses
    → (m' : Memory) × (vprintf text vprint_buffer statuses format args m
        ≡ done (min 1023 (length t) + 1, some (sends com1 (take 1023 t)), m'))
vprintf-sends text vprint_buffer statuses format args ws t m e r h =
    let p = vprintf-framed text vprint_buffer statuses format args ws t m e r h in (p.0, p.1)
