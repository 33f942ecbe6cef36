-- ===== src/Print/Panic.antt =====
-- `printf` and `panic` of kernel/core/print.c, with what `__vsnprintf` does on a conversion that is
-- not supported: it calls `panic`, which does not return.
pub mod Halts
use secos_ng.Base.{ℕ, ◌%◌, ◌^◌, ◌≡◌, List, [], ◌∷◌, ◌++◌, Option, none, some, codes}
use secos_ng.Io.{Out}
use secos_ng.Memory.{Memory}
use secos_ng.Uart.{uart_flush}
use secos_ng.Print.Format.{Outcome, done, panicked, fault}
use secos_ng.Print.Console.{vprintf}

-- How a call ends: it returns its value, or the machine halts with interrupts off, or C leaves the
-- call undefined. The writes to the serial port go with it; `none` is a poll without an answer.
pub data Ended : Type 0 where
  returned : ℕ → Option (List Out) → Ended
  halted : Option (List Out) → Ended
  undefined : Ended

-- What is sent by one call and then by another.
abbrev both : Option (List Out) → Option (List Out) → Option (List Out)
both none b = none
both (some xs) none = none
both (some xs) (some ys) = some (xs ++ ys)

abbrev pub unsupported : List ℕ
unsupported = codes "unsupported format arg '%c'\n"

-- `vprint_buffer` is the address of the static buffer; the polls of `uart_write` read `statuses`
-- and those of `uart_flush` `drained`.
module _ (text : ℕ → List ℕ) (vprint_buffer : ℕ) (statuses drained : List ℕ) where
  -- `panic` once its arguments are formatted. Its own message has no unsupported conversion, and
  -- the last case is not reached.
  pub halt_after : Outcome (ℕ × Option (List Out) × Memory) → Ended
  halt_after (done (retval, s, m)) = halted (both s (uart_flush drained))
  halt_after (panicked c) = undefined
  halt_after fault = undefined

  -- The call of `panic` in `__vsnprintf`.
  pub panic_unsupported : ℕ → Memory → Ended
  panic_unsupported c m = halt_after (vprintf text vprint_buffer statuses unsupported (c ∷ []) m)

  pub printf : (format args : List ℕ) → Memory → Ended
  printf format args m = elim (vprintf text vprint_buffer statuses format args m) [
    | done (retval, s, m') ↦ returned retval s
    | panicked c ↦ panic_unsupported c m
    | fault ↦ undefined
  ]

  pub panic : (format args : List ℕ) → Memory → Ended
  panic format args m = elim (vprintf text vprint_buffer statuses format args m) [
    | done (retval, s, m') ↦ halted (both s (uart_flush drained))
    | panicked c ↦ panic_unsupported c m
    | fault ↦ undefined
  ]
