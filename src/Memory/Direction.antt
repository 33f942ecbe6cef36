-- ===== src/Memory/Direction.antt =====
-- The macros of kernel/include/string.h around the string instructions, with the direction flag of
-- kernel/include/gpr.h, which the processor obeys and `__fix_str_dir` clears.
pub mod Functions
use secos_ng.Base.{
  ℕ, zero, suc, ◌≡◌, inl, refl, ap, ap₂, ◌∙◌, arith, ◌==◌, if◌then◌else◌, add32, sub32,
}
use secos_ng.Bitfield.{get, put}
use secos_ng.Bitfield.Laws.{get-put_self, get-put_ne}
use secos_ng.Cpu.Flags.{eflags_df, eflags_vm}
use secos_ng.Cpu.FlagOps.{
  save_flags, load_flags, AreKernelFlags, not_virtual, load_flags-save_flags,
}
use secos_ng.Memory.{Memory, store8, store32, load32, stosb, stosl, movsb, movsl, scasb}

-- An index register behind an operand of `k` bytes.
unfoldable pub move : (flags addr k : ℕ) → ℕ
move flags addr k = if get eflags_df flags == 0 then add32 addr k else sub32 addr k

-- The instructions at these flags.
unfoldable pub rep_stosb : (flags n d v : ℕ) → Memory → Memory
rep_stosb flags zero d v m = m
rep_stosb flags (suc n) d v m = rep_stosb flags n (move flags d 1) v (store8 m d v)

unfoldable pub rep_stosl : (flags n d v : ℕ) → Memory → Memory
rep_stosl flags zero d v m = m
rep_stosl flags (suc n) d v m = rep_stosl flags n (move flags d 4) v (store32 m d v)

unfoldable pub rep_movsb : (flags n d s : ℕ) → Memory → Memory
rep_movsb flags zero d s m = m
rep_movsb flags (suc n) d s m =
    rep_movsb flags n (move flags d 1) (move flags s 1) (store8 m d (m s))

unfoldable pub rep_movsl : (flags n d s : ℕ) → Memory → Memory
rep_movsl flags zero d s m = m
rep_movsl flags (suc n) d s m =
    rep_movsl flags n (move flags d 4) (move flags s 4) (store32 m d (load32 m s))

unfoldable pub repnz_scasb : (flags n d v : ℕ) → Memory → ℕ × ℕ
repnz_scasb flags zero d v m = (d, 0)
repnz_scasb flags (suc n) d v m =
    let rest = repnz_scasb flags n (move flags d 1) v m in
    if m d == v then (move flags d 1, n) else rest

unfoldable pub repnz_scasl : (flags n d v : ℕ) → Memory → ℕ × ℕ
repnz_scasl flags zero d v m = (d, 0)
repnz_scasl flags (suc n) d v m =
    let rest = repnz_scasl flags n (move flags d 4) v m in
    if load32 m d == v then (move flags d 4, n) else rest

-- `__fix_str_dir`: what the instruction gives at the flags it gets, and the flags at the end.
unfoldable pub fix_str_dir : {A : Type 0} → (ℕ → A × ℕ) → (now : ℕ) → A × ℕ
fix_str_dir op now =
    let save = save_flags now in
    let (result, after) = op (put eflags_df 0 now) in (result, load_flags save after)

unfoldable pub memset8 : (d v t now : ℕ) → Memory → Memory × ℕ
memset8 d v t now m = fix_str_dir (λ flags. (rep_stosb flags t d v m, flags)) now

unfoldable pub memset32 : (d v t now : ℕ) → Memory → Memory × ℕ
memset32 d v t now m = fix_str_dir (λ flags. (rep_stosl flags t d v m, flags)) now

unfoldable pub memcpy8 : (d s t now : ℕ) → Memory → Memory × ℕ
memcpy8 d s t now m = fix_str_dir (λ flags. (rep_movsb flags t d s m, flags)) now

unfoldable pub memcpy32 : (d s t now : ℕ) → Memory → Memory × ℕ
memcpy32 d s t now m = fix_str_dir (λ flags. (rep_movsl flags t d s m, flags)) now

-- `compared` is what the comparisons make of the flags.
unfoldable pub memchr8 : (compared : ℕ → ℕ) → (s v l now : ℕ) → Memory → (ℕ × ℕ) × ℕ
memchr8 compared s v l now m =
    fix_str_dir (λ flags. (repnz_scasb flags l s v m, compared flags)) now

unfoldable pub memchr32 : (compared : ℕ → ℕ) → (s v l now : ℕ) → Memory → (ℕ × ℕ) × ℕ
memchr32 compared s v l now m =
    fix_str_dir (λ flags. (repnz_scasl flags l s v m, compared flags)) now

module _ (flags : ℕ) (up : get eflags_df flags ≡ 0) where
  move_up : (addr k : ℕ) → move flags addr k ≡ add32 addr k
  unfolding move
  move_up addr k = ground (arith, up)

  rep_stosb_up : (n d v : ℕ) (m : Memory) → rep_stosb flags n d v m ≡ stosb n d v m
  unfolding rep_stosb stosb
  rep_stosb_up zero d v m = refl
  rep_stosb_up (suc n) d v m =
      ap (λ (x : ℕ). rep_stosb flags n x v (store8 m d v)) (move_up d 1)
      ∙ rep_stosb_up n (add32 d 1) v (store8 m d v)

  rep_stosl_up : (n d v : ℕ) (m : Memory) → rep_stosl flags n d v m ≡ stosl n d v m
  unfolding rep_stosl stosl
  rep_stosl_up zero d v m = refl
  rep_stosl_up (suc n) d v m =
      ap (λ (x : ℕ). rep_stosl flags n x v (store32 m d v)) (move_up d 4)
      ∙ rep_stosl_up n (add32 d 4) v (store32 m d v)

  rep_movsb_up : (n d s : ℕ) (m : Memory) → rep_movsb flags n d s m ≡ movsb n d s m
  unfolding rep_movsb movsb
  rep_movsb_up zero d s m = refl
  rep_movsb_up (suc n) d s m =
      ap₂ (λ (x y : ℕ). rep_movsb flags n x y (store8 m d (m s))) (move_up d 1) (move_up s 1)
      ∙ rep_movsb_up n (add32 d 1) (add32 s 1) (store8 m d (m s))

  rep_movsl_up : (n d s : ℕ) (m : Memory) → rep_movsl flags n d s m ≡ movsl n d s m
  unfolding rep_movsl movsl
  rep_movsl_up zero d s m = refl
  rep_movsl_up (suc n) d s m =
      ap₂ (λ (x y : ℕ). rep_movsl flags n x y (store32 m d (load32 m s))) (move_up d 4)
        (move_up s 4)
      ∙ rep_movsl_up n (add32 d 4) (add32 s 4) (store32 m d (load32 m s))

  repnz_scasb_up : (n d v : ℕ) (m : Memory) → repnz_scasb flags n d v m ≡ scasb n d v m
  unfolding repnz_scasb scasb
  repnz_scasb_up zero d v m = refl
  repnz_scasb_up (suc n) d v m =
      ap (λ (x : ℕ). if m d == v then (x, n) else repnz_scasb flags n x v m) (move_up d 1)
      ∙ ap (λ (r : ℕ × ℕ). if m d == v then (add32 d 1, n) else r)
          (repnz_scasb_up n (add32 d 1) v m)

  repnz_scasl_up : (n d v : ℕ) (m : Memory) → repnz_scasl flags n d v m ≡ repnz_scasl 0 n d v m
  unfolding repnz_scasl move
  repnz_scasl_up zero d v m = refl
  repnz_scasl_up (suc n) d v m =
      ap (λ (x : ℕ). if load32 m d == v then (x, n) else repnz_scasl flags n x v m) (move_up d 4)
      ∙ ap (λ (r : ℕ × ℕ). if load32 m d == v then (add32 d 4, n) else r)
          (repnz_scasl_up n (add32 d 4) v m)

-- With the flags of the kernel, the direction flag on or off, every macro does what its instruction
-- does upwards from the addresses given, the flag being 0, and leaves all flags as they were.
pub fix_str_dir-up :
    (compared : ℕ → ℕ) (d s v t now : ℕ) (m : Memory)
    → ((flags : ℕ) → get eflags_vm (compared flags) ≡ get eflags_vm flags)
    → AreKernelFlags now
    → (memset8 d v t now m ≡ (stosb t d v m, now))
      × (memset32 d v t now m ≡ (stosl t d v m, now))
      × (memcpy8 d s t now m ≡ (movsb t d s m, now))
      × (memcpy32 d s t now m ≡ (movsl t d s m, now))
      × (memchr8 compared s v t now m ≡ (scasb t s v m, now))
      × (memchr32 compared s v t now m ≡ (repnz_scasl 0 t s v m, now))
unfolding memset8 memset32 memcpy8 memcpy32 memchr8 memchr32 fix_str_dir
fix_str_dir-up compared d s v t now m keeps h =
    let flags = put eflags_df 0 now in
    let up : get eflags_df flags ≡ 0 = get-put_self eflags_df 0 now in
    let vm : get eflags_vm flags ≡ 0 =
      get-put_ne eflags_df eflags_vm 0 now (inl (omega arith)) ∙ not_virtual now h in
    let back = load_flags-save_flags now flags h vm in
    let compared_back = load_flags-save_flags now (compared flags) h (keeps flags ∙ vm) in
    (
      ap₂ (λ a b. (a, b)) (rep_stosb_up flags up t d v m) back,
      ap₂ (λ a b. (a, b)) (rep_stosl_up flags up t d v m) back,
      ap₂ (λ a b. (a, b)) (rep_movsb_up flags up t d s m) back,
      ap₂ (λ a b. (a, b)) (rep_movsl_up flags up t d s m) back,
      ap₂ (λ a b. (a, b)) (repnz_scasb_up flags up t s v m) compared_back,
      ap₂ (λ a b. (a, b)) (repnz_scasl_up flags up t s v m) compared_back,
    )
