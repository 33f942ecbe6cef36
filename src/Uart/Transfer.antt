-- ===== src/Uart/Transfer.antt =====
-- What is sent and received, for every sequence of answers of the device.
use Prim.Native.Nat.{min}
use native.Mathlib.Nat.{suc-min-suc}
use secos_ng.Base.{
  ℕ, zero, suc, ◌-◌, ◌<◌, ◌≡◌, refl, ap, arith, ltb, leb, if◌then◌else◌, none, some, List, [], ◌∷◌,
  map, length, length-take, length-map, lt→ltb, replicate, take, Bool-cases, inl, inr, ◌∙◌,
}
use secos_ng.Io.{Out, out}
use secos_ng.Uart.{
  com1, txrx, can_send, can_recv, write_loop, uart_write, flush_loop, uart_flush, read_loop,
  uart_read, flush_recv,
}

-- How many of the polls find the transmitter ready.
unfoldable pub ready : List ℕ → ℕ
ready [] = 0
ready (status ∷ statuses) = if can_send status then suc (ready statuses) else ready statuses

abbrev pub sends : ℕ → List ℕ → List Out
sends base bytes = map (λ c. out c (txrx base)) bytes

write_loop_lem :
    (base : ℕ) (statuses bytes : List ℕ)
    → write_loop base statuses bytes
      ≡ (if leb (length bytes) (ready statuses) then some (sends base bytes) else none)
unfolding write_loop ready
write_loop_lem base [] [] = refl
write_loop_lem base (status ∷ statuses) [] = ground arith
write_loop_lem base [] (c ∷ bytes) = ground arith
write_loop_lem base (status ∷ statuses) (c ∷ bytes) =
    ground (arith, write_loop_lem base statuses bytes, write_loop_lem base statuses (c ∷ bytes))

-- `uart_write` sends the bytes given, each once and in order, and returns their number, as soon
-- as the transmitter has been ready that often; until then it polls on.
pub uart_write_lem :
    (statuses bytes : List ℕ)
    → uart_write statuses bytes ≡ (
        if leb (length bytes) (ready statuses) then some (length bytes, sends com1 bytes) else none)
unfolding uart_write
uart_write_lem statuses bytes = ground (arith, write_loop_lem com1 statuses bytes)

flush_loop-write :
    (base : ℕ) (statuses : List ℕ) (s : ℕ)
    → flush_loop base statuses s ≡ write_loop base statuses (replicate s 0)
unfolding flush_loop write_loop
flush_loop-write base [] zero = refl
flush_loop-write base (status ∷ statuses) zero = refl
flush_loop-write base [] (suc s) = refl
flush_loop-write base (status ∷ statuses) (suc s) =
    ground (arith, flush_loop-write base statuses s, flush_loop-write base statuses (suc s))

-- `uart_flush` sends sixteen zero bytes, as soon as the transmitter has been ready that often;
-- until then it polls on.
pub uart_flush_lem :
    (statuses : List ℕ)
    → uart_flush statuses
      ≡ (if leb 16 (ready statuses) then some (sends com1 (replicate 16 0)) else none)
unfolding uart_flush
uart_flush_lem statuses =
    flush_loop-write com1 statuses 16 ∙ write_loop_lem com1 statuses (replicate 16 0)

-- How many polls in a row, from the first, find a byte.
unfoldable pub available : List (ℕ × ℕ) → ℕ
available [] = 0
available ((status, c) ∷ answers) = if can_recv status then suc (available answers) else 0

read_loop_lem :
    (answers : List (ℕ × ℕ)) (n : ℕ)
    → read_loop answers n ≡ (
        if ltb (min n (available answers)) (length answers)
        then some (take (min n (available answers)) (map (λ a. a.1) answers))
        else none)
unfolding read_loop available
read_loop_lem [] n = ground arith
read_loop_lem ((status, c) ∷ answers) zero = ground arith
read_loop_lem ((status, c) ∷ answers) (suc n) =
    let less : suc n - 1 ≡ n = omega arith in
    elim (Bool-cases (can_recv status)) [
      | inl e ↦
          rw (e, less, read_loop_lem answers n, suc-min-suc n (available answers)) (ground arith)
      | inr e ↦ rw e (ground arith)
    ]

-- Where the answers of the device reach to the poll that ends the loop, `uart_read` stores what the receiver holds at its polls, in order, up to the first poll that
-- finds no byte and `n` bytes at most, and returns their number.
pub uart_read_lem :
    (answers : List (ℕ × ℕ)) (n : ℕ)
    → min n (available answers) < length answers
    → let k = min n (available answers) in
      uart_read answers n ≡ some (k, take k (map (λ a. a.1) answers))
unfolding uart_read
uart_read_lem answers n h =
    let k = min n (available answers) in
    rw (read_loop_lem answers n, lt→ltb k (length answers) h)
      (ap (λ (j : ℕ). some (j, take k (map (λ a. a.1) answers)))
        (omega (
          arith,
          length-take {0} k (map (λ a. a.1) answers),
          length-map {0, 0} answers (λ a. a.1),
        )))

-- `__uart_flush_recv` drops what the receiver holds at its polls up to the first one that finds no
-- byte, and ends there; while every answer has a byte, it polls on.
flush_recv_lem :
    (answers : List (ℕ × ℕ))
    → flush_recv answers ≡ (
        if ltb (available answers) (length answers)
        then some (take (available answers) (map (λ a. a.1) answers))
        else none)
unfolding flush_recv available
flush_recv_lem [] = ground arith
flush_recv_lem ((status, c) ∷ answers) = ground (arith, flush_recv_lem answers)
