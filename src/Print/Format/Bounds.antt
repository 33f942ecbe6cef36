-- ===== src/Print/Format/Bounds.antt =====
-- Where `__vsnprintf` writes, and what.
use Prim.Native.Nat.{min}
use secos_ng.Base.{ℕ, ◌+◌, ◌-◌, ◌%◌, ◌^◌, ◌≤◌, ◌<◌, ◌≡◌, ◌⊎◌, ap, arith, List, length, get_or}
use secos_ng.Memory.{Memory}
use secos_ng.Print.Buffer.{Buffer, add_all, Added, add_all-Added}
use secos_ng.Print.Format.{done, terminate, vsnprintf}
use secos_ng.Print.Format.Spec.{plain, parse, render}
use secos_ng.Print.Format.Refine.{vsnprintf-render}

-- The C string `t`, cut to `len - 1` bytes, has been written at `buffer`; `ret` counts its bytes
-- with the zero byte.
pub record IsWritten (buffer len : ℕ) (t : List ℕ) (m m' : Memory) (ret : ℕ) : Type 0 where
  pub count : ret ≡ min (len - 1) (length t) + 1
  pub chars : (i : ℕ) → i + 1 < ret → m' (buffer + i) ≡ get_or t i 0 % 256
  pub ends : m' (buffer + (ret - 1)) ≡ 0
  pub outside : (x : ℕ) → (x < buffer) ⊎ (buffer + ret ≤ x) → m' x ≡ m x

terminate-IsWritten :
    (buffer len : ℕ) (t : List ℕ) (m : Memory) (b : Buffer)
    → Added (len - 1) t (record { addr = buffer; sz = 0; mem = m }) b
    → buffer + len < 2 ^ 32
    → IsWritten buffer len t m (terminate b).1 (terminate b).0
unfolding terminate
terminate-IsWritten buffer len t m b a h = record {
  count = omega (arith, a.size);
  chars = λ i lt.
      let e : buffer + 0 + i ≡ buffer + i = omega arith in
      ground (arith, a.stored i, ap b.mem e, a.size, a.same_addr);
  ends = ground (arith, a.size, a.same_addr);
  outside = λ x p. ground (arith, a.kept x, a.size, a.same_addr);
}

-- Where the format means the text `t` and the buffer lies below 4 GB, `__vsnprintf` returns
-- normally; it leaves `t` there, cut so that the zero byte fits too, and changes nothing else. With
-- `len` 0 that is a zero byte at the buffer's address.
pub vsnprintf-IsWritten :
    (text : ℕ → List ℕ) (buffer len : ℕ) (format args ws t : List ℕ) (m : Memory)
    → render text (parse plain format) args ≡ done (ws, t)
    → buffer + len < 2 ^ 32
    → (ret : ℕ) × (m' : Memory) × (vsnprintf text buffer len format args m ≡ done (ret, m'))
      × IsWritten buffer len t m m' ret
vsnprintf-IsWritten text buffer len format args ws t m e h =
    let b : Buffer = add_all (len - 1) t (record { addr = buffer; sz = 0; mem = m }) in
    (
      (terminate b).0,
      (terminate b).1,
      rw (vsnprintf-render text buffer len format args m, e),
      terminate-IsWritten buffer len t m b
          (add_all-Added (len - 1) t (record { addr = buffer; sz = 0; mem = m }) (omega arith)
            (omega arith))
          h,
    )
