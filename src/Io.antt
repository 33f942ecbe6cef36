-- ===== src/Io.antt =====
-- Port input and output of kernel/include/io.h as events in program order. What a device answers
-- is an argument of the code that reads it.
use secos_ng.Base.{ℕ, u8}

-- A byte written to a port.
pub record Out : Type 0 where
  pub value : ℕ
  pub port : ℕ

-- `out(value, port)`: `outb` sends the low byte.
abbrev pub out : ℕ → ℕ → Out
out value port = record { value = u8 value; port = port }
