-- ===== src/Tests/Bytes.antt =====
-- kernel/include/string.h at concrete inputs.
use secos_ng.Base.{ℕ, ◌+◌, ◌-◌, ◌%◌, ◌≡◌, refl, inr, arith, ◌==◌, if◌then◌else◌}
use secos_ng.Memory.{Memory, within, memset, memcpy, strchr}
use secos_ng.Memory.Fill.{memset_lem}
use secos_ng.Memory.Copy.{memcpy_lem}
use secos_ng.Memory.Scan.{FirstAt, strchr_lem}

abbrev ramp : Memory
ramp x = x % 256

-- Five letters, the last one another, and a zero byte, at 100.
abbrev word : Memory
word x = if x == 105 then 0 else if x == 104 then b'z' else b'a'

memset_example :
    ((memset 0x1001 0xab 7 ramp).0 ≡ 0x1001)
    × ((x : ℕ) → (memset 0x1001 0xab 7 ramp).1 x ≡ (if within 0x1001 7 x then 0xab else ramp x))
memset_example = memset_lem 0x1001 0xab 7 ramp (omega arith) (omega arith)

memcpy_example :
    ((memcpy 0x2000 0x1000 6 ramp).0 ≡ 0x2000)
    × ((x : ℕ)
        → (memcpy 0x2000 0x1000 6 ramp).1 x
          ≡ (if within 0x2000 6 x then ramp (0x1000 + (x - 0x2000)) else ramp x))
memcpy_example =
    memcpy_lem 0x2000 0x1000 6 ramp (λ a. omega arith)
      (record { apart = inr (omega arith); room_a = omega arith; room_b = omega arith })

first_zero : FirstAt word 100 0 5
first_zero = record { here = refl; before = λ j h. ground arith }

first_last : FirstAt word 100 b'z' 4
first_last = record { here = refl; before = λ j h. ground arith }

-- At the last of five bytes the letter is not found.
strchr_example : strchr 100 5 b'z' word ≡ 0
strchr_example = strchr_lem 100 5 b'z' 4 word first_last (omega arith)
