-- ===== src/Memory/Scan.antt =====
-- `strlen` and `strchr`.
use secos_ng.Base.{
  ℕ, zero, suc, ◌+◌, ◌-◌, ◌%◌, ◌^◌, ◌<◌, ◌≡◌, ◌≢◌, ap, sym, ◌∙◌, arith, if◌then◌else◌, ltb,
}
use native.Mathlib.Decide.{dec_lt}
use secos_ng.Memory.{Memory, scasb, strlen, strchr}

-- `v` stands `i` bytes behind `a`, and not before.
pub record FirstAt (m : Memory) (a v i : ℕ) : Type 0 where
  pub here : m (a + i) ≡ v
  pub before : (j : ℕ) → j < i → m (a + j) ≢ v

-- The same address, one step on.
step_on : (a i : ℕ) → a + 1 + i ≡ a + suc i
step_on a i = omega arith

next-FirstAt : {m : Memory} {a v i : ℕ} → FirstAt m a v (suc i) → FirstAt m (a + 1) v i
next-FirstAt {m} {a} {v} {i} f = record {
  here = ap m (step_on a i) ∙ f.here;
  before = λ j h e. f.before (suc j) (omega arith) (ap m (sym (step_on a j)) ∙ e);
}

scasb_found :
    (n i d v : ℕ) (m : Memory)
    → FirstAt m d v i
    → i < n
    → d + i < 2 ^ 32
    → scasb n d v m ≡ ((d + i + 1) % 2 ^ 32, n - i - 1)
unfolding scasb
scasb_found zero i d v m f hi hd = absurd (omega arith)
scasb_found (suc n) zero d v m f hi hd =
    let e : d + 0 ≡ d = omega arith in ground (arith, f.here, ap m e)
scasb_found (suc n) (suc i) d v m f hi hd =
    let e : d + 0 ≡ d = omega arith in
    ground (arith, f.before 0, ap m e, scasb_found n i (d + 1) v m (next-FirstAt f))

scasb_absent :
    (n d v : ℕ) (m : Memory)
    → ((j : ℕ) → j < n → m (d + j) ≢ v)
    → d + n < 2 ^ 32
    → (scasb n d v m).1 ≡ 0
unfolding scasb
scasb_absent zero d v m f hd = ground arith
scasb_absent (suc n) d v m f hd =
    let e : d + 0 ≡ d = omega arith in
    ground (
      arith,
      f 0,
      ap m e,
      scasb_absent n (d + 1) v m λ j h e'. f (suc j) (omega arith) (ap m (sym (step_on d j)) ∙ e'),
    )

-- For a string whose first zero byte lies before the last address of 4 GB, `strlen` is the distance of its first zero byte.
pub strlen_lem :
    (str n : ℕ) (m : Memory) → FirstAt m str 0 n → str + n < 2 ^ 32 - 1 → strlen str m ≡ n
unfolding strlen
strlen_lem str n m f h = ground (arith, scasb_found (2 ^ 32 - 1) n str 0 m f)

-- For a range below 4 GB, `strchr` finds the first occurrence of `c` among the `len` bytes, except at the last of them:
-- there, as where `c` does not occur, it returns the null pointer.
pub strchr_lem :
    (str len c i : ℕ) (m : Memory)
    → FirstAt m str c i
    → str + len < 2 ^ 32
    → strchr str len c m ≡ (if ltb (i + 1) len then str + i else 0)
unfolding strchr
strchr_lem str len c i m f h = elim (dec_lt i len) [
  | yes inside ↦ ground (arith, scasb_found len i str c m f)
  | no past ↦ ground (arith, scasb_absent len str c m λ j hj. f.before j (omega arith))
]

-- Where `c` is not among the `len` bytes, all below 4 GB, `strchr` returns the null pointer.
strchr_absent :
    (str len c : ℕ) (m : Memory)
    → ((j : ℕ) → j < len → m (str + j) ≢ c)
    → str + len < 2 ^ 32
    → strchr str len c m ≡ 0
unfolding strchr
strchr_absent str len c m f h = ground (arith, scasb_absent len str c m f)
