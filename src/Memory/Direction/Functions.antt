-- ===== src/Memory/Direction/Functions.antt =====
-- The functions of kernel/include/string.h with the macros that they call, at any flags.
use secos_ng.Base.{
  ℕ, ◌-◌, ◌*◌, ◌/◌, ◌%◌, ◌^◌, ◌≡◌, Bool, true, false, refl, ap, ◌∙◌, ◌==◌, if◌then◌else◌, add32,
  sub32,
}
use secos_ng.Bitfield.{get}
use secos_ng.Cpu.Flags.{eflags_vm}
use secos_ng.Cpu.FlagOps.{AreKernelFlags}
use secos_ng.Memory.{Memory, rep_8_32, stosb, stosl, movsb, movsl, memset, memcpy, strchr, strlen}
use secos_ng.Memory.Direction.{memset8, memset32, memcpy8, memcpy32, memchr8, fix_str_dir-up}

-- The returned pointer, and the memory and flags left behind.
unfoldable pub memset_flags : (dst c size now : ℕ) → Memory → ℕ × (Memory × ℕ)
memset_flags dst c size now m =
    let cnt = size / 4 in
    let rm = size % 4 in
    let words = if cnt == 0 then (m, now) else memset32 dst (rep_8_32 c) cnt now m in
    let dloc = if cnt == 0 then dst else add32 dst (cnt * 4) in
    if size == 0
    then (dst, (m, now))
    else (dst, if rm == 0 then words else memset8 dloc c rm words.1 words.0)

unfoldable pub memcpy_flags : (dst src size now : ℕ) → Memory → ℕ × (Memory × ℕ)
memcpy_flags dst src size now m =
    let cnt = size / 4 in
    let rm = size % 4 in
    let words = if cnt == 0 then (m, now) else memcpy32 dst src cnt now m in
    let dloc = if cnt == 0 then dst else add32 dst (cnt * 4) in
    let sloc = if cnt == 0 then src else add32 src (cnt * 4) in
    if size == 0
    then (dst, (m, now))
    else (dst, if rm == 0 then words else memcpy8 dloc sloc rm words.1 words.0)

-- `compared` is what the comparisons make of the flags.
unfoldable pub strchr_flags : (compared : ℕ → ℕ) → (str len c now : ℕ) → Memory → ℕ × ℕ
strchr_flags compared str len c now m =
    let ((d, left), flags) = memchr8 compared str c len now m in
    (if left == 0 then 0 else sub32 d 1, flags)

unfoldable pub strlen_flags : (compared : ℕ → ℕ) → (str now : ℕ) → Memory → ℕ × ℕ
strlen_flags compared str now m =
    let ((d, left), flags) = memchr8 compared str 0 (2 ^ 32 - 1) now m in
    (sub32 (sub32 d 1) str, flags)

-- The words and the rest of a function: if both leave the flags, the function does.
module _ (now dst : ℕ) (m words : Memory) (run : Memory × ℕ) (left : run ≡ (words, now))
    (last : ℕ → Memory → Memory × ℕ) (rest : Memory → Memory)
    (kept : (x : Memory) → last now x ≡ (rest x, now)) where
  abbrev with_flags : (nothing few none_left : Bool) → ℕ × (Memory × ℕ)
  with_flags nothing few none_left =
      let w = if few then (m, now) else run in
      if nothing then (dst, (m, now)) else (dst, if none_left then w else last w.1 w.0)

  abbrev without : (nothing few none_left : Bool) → ℕ × Memory
  without nothing few none_left =
      let w = if few then m else words in
      if nothing then (dst, m) else (dst, if none_left then w else rest w)

  abbrev and_flags : ℕ × Memory → ℕ × (Memory × ℕ)
  and_flags (d, x) = (d, (x, now))

  stages :
      (nothing few none_left : Bool)
      → with_flags nothing few none_left ≡ and_flags (without nothing few none_left)
  stages true few none_left = refl
  stages false true true = refl
  stages false true false = ap (λ (w : Memory × ℕ). (dst, w)) (kept m)
  stages false false true = ap (λ (w : Memory × ℕ). (dst, w)) left
  stages false false false =
      ap (λ (w : Memory × ℕ). (dst, last w.1 w.0)) left
      ∙ ap (λ (w : Memory × ℕ). (dst, w)) (kept words)

module _ (compared : ℕ → ℕ) (now : ℕ) (m : Memory)
    (keeps : (flags : ℕ) → get eflags_vm (compared flags) ≡ get eflags_vm flags)
    (h : AreKernelFlags now) where
  -- With the flags of the kernel, the direction flag on or off, the four functions return what they do
  -- where every string instruction goes upwards, leave the same memory, and all flags as they were.
  pub functions-up :
      (dst src c size : ℕ)
      → (memset_flags dst c size now m ≡ ((memset dst c size m).0, ((memset dst c size m).1, now)))
        × (memcpy_flags dst src size now m
            ≡ ((memcpy dst src size m).0, ((memcpy dst src size m).1, now)))
        × (strchr_flags compared src size c now m ≡ (strchr src size c m, now))
        × (strlen_flags compared src now m ≡ (strlen src m, now))
  unfolding memset_flags memset memcpy_flags memcpy strchr_flags strchr strlen_flags strlen
  functions-up dst src c size =
      let cnt = size / 4 in
      let rm = size % 4 in
      let dloc = if cnt == 0 then dst else add32 dst (cnt * 4) in
      let sloc = if cnt == 0 then src else add32 src (cnt * 4) in
      (
        stages now dst m (stosl cnt dst (rep_8_32 c) m) (memset32 dst (rep_8_32 c) cnt now m)
            (fix_str_dir-up compared dst 0 (rep_8_32 c) cnt now m keeps h).1 (memset8 dloc c rm)
            (stosb rm dloc c) (λ x. (fix_str_dir-up compared dloc 0 c rm now x keeps h).0)
            (size == 0) (cnt == 0) (rm == 0),
        stages now dst m (movsl cnt dst src m) (memcpy32 dst src cnt now m)
            (fix_str_dir-up compared dst src 0 cnt now m keeps h).3 (memcpy8 dloc sloc rm)
            (movsb rm dloc sloc) (λ x. (fix_str_dir-up compared dloc sloc 0 rm now x keeps h).2)
            (size == 0) (cnt == 0) (rm == 0),
        ap (λ (r : (ℕ × ℕ) × ℕ). (if r.0.1 == 0 then 0 else sub32 r.0.0 1, r.1))
            (fix_str_dir-up compared 0 src c size now m keeps h).4,
        ap (λ (r : (ℕ × ℕ) × ℕ). (sub32 (sub32 r.0.0 1) src, r.1))
            (fix_str_dir-up compared 0 src 0 (2 ^ 32 - 1) now m keeps h).4,
      )
