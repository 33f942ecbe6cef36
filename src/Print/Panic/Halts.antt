-- ===== src/Print/Panic/Halts.antt =====
-- What `panic` has sent when the machine halts.
use secos_ng.Base.{
  ℕ, ◌+◌, ◌-◌, ◌^◌, ◌≤◌, ◌<◌, ◌≡◌, refl, ap, ◌∙◌, arith, List, [], ◌∷◌, ◌++◌, Option, some, codes,
  length, take, replicate, u8, u32,
}
use secos_ng.Io.{Out}
use secos_ng.Memory.{Memory}
use secos_ng.Uart.{com1, uart_flush}
use secos_ng.Uart.Transfer.{ready, sends, uart_flush_lem}
use secos_ng.Print.Format.{Outcome, done, panicked, ◌>>=◌, terminate, arg32}
use secos_ng.Print.Buffer.{add_all}
use secos_ng.Print.Format.Spec.{plain, parse, render, read, show, directive}
use secos_ng.Print.Format.Refine.{vsnprintf-render}
use secos_ng.Print.Console.{vprintf, vprintf-sends, vprint_size, then_write}
use secos_ng.Print.Panic.{halted, unsupported, halt_after, panic_unsupported, printf, panic}

-- The text of the call of `panic` in `__vsnprintf`.
pub message : ℕ → List ℕ
message c = codes "unsupported format arg '" ++ u8 (u32 c) ∷ codes "'\n"

message-render :
    (text : ℕ → List ℕ) (c : ℕ)
    → render text (parse plain unsupported) (c ∷ []) ≡ done ([], message c)
unfolding message render parse read show directive arg32
message-render text c = refl

length-message : (c : ℕ) → length (message c) ≡ 27
unfolding message
length-message c = refl

module _ (text : ℕ → List ℕ) (vprint_buffer : ℕ) where
  vprintf_panicked :
      (statuses format args : List ℕ) (m : Memory) (c : ℕ)
      → render text (parse plain format) args ≡ panicked c
      → vprintf text vprint_buffer statuses format args m ≡ panicked c
  unfolding vprintf
  vprintf_panicked statuses format args m c e = ap (then_write vprint_buffer statuses) (
      vsnprintf-render text vprint_buffer vprint_size format args m
      ∙ ap
          (λ (o : Outcome (List ℕ × List ℕ)). o >>= (λ (ws, t). done (
            terminate
              (add_all (vprint_size - 1) t (record { addr = vprint_buffer; sz = 0; mem = m })))))
          e)

flush_sends :
    (drained : List ℕ)
    → 16 ≤ ready drained
    → uart_flush drained ≡ some (sends com1 (replicate 16 0))
flush_sends drained h = ground (arith, uart_flush_lem drained)

-- The text that a call formats, then the sixteen zero bytes of the flush.
abbrev pub last_words : List ℕ → Option (List Out)
last_words t = some (sends com1 (take 1023 t) ++ sends com1 (replicate 16 0))

module _ (text : ℕ → List ℕ) (vprint_buffer : ℕ) (statuses drained format args : List ℕ) where
  -- Where the format means the text `t`, the buffer lies below 4 GB and the transmitter becomes
  -- ready often enough, `panic` has sent the first 1023 bytes of `t` at most and then sixteen zero
  -- bytes, and the machine halts.
  pub panic-halted :
      (ws t : List ℕ) (m : Memory)
      → render text (parse plain format) args ≡ done (ws, t)
      → vprint_buffer + vprint_size < 2 ^ 32
      → length t ≤ ready statuses
      → 16 ≤ ready drained
      → panic text vprint_buffer statuses drained format args m ≡ halted (last_words t)
  unfolding panic
  panic-halted ws t m e r h d =
      let p = vprintf-sends text vprint_buffer statuses format args ws t m e r h in
      ground (arith, p.1, flush_sends drained d)

  panic_unsupported-halted :
      (c : ℕ) (m : Memory)
      → vprint_buffer + vprint_size < 2 ^ 32
      → 27 ≤ ready statuses
      → 16 ≤ ready drained
      → panic_unsupported text vprint_buffer statuses drained c m ≡ halted (last_words (message c))
  unfolding panic_unsupported halt_after
  panic_unsupported-halted c m r h d =
      let p =
        vprintf-sends text vprint_buffer statuses unsupported (c ∷ []) [] (message c) m
          (message-render text c) r (omega (arith, length-message c)) in
      ground (arith, p.1, flush_sends drained d)

  -- Where the format's meaning panics at the conversion `c`, `printf` does not return, nor does
  -- `panic`: with the buffer below 4 GB and a transmitter that becomes ready often enough, both
  -- have sent the message that names `c` and sixteen zero bytes, and the machine halts.
  pub printf-unsupported :
      (c : ℕ) (m : Memory)
      → render text (parse plain format) args ≡ panicked c
      → vprint_buffer + vprint_size < 2 ^ 32
      → 27 ≤ ready statuses
      → 16 ≤ ready drained
      → (printf text vprint_buffer statuses drained format args m ≡ halted (last_words (message c)))
        × (panic text vprint_buffer statuses drained format args m
            ≡ halted (last_words (message c)))
  unfolding printf panic
  printf-unsupported c m e r h d =
      let p = vprintf_panicked text vprint_buffer statuses format args m c e in
      let q = panic_unsupported-halted c m r h d in ground (arith, p, q)
