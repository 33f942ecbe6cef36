-- ===== src/Paging/Whole.antt =====
-- `__clear_page` and `__copy_page` of kernel/include/pagemem.h, which hand PAGE_SIZE to macros that
-- count operations of four bytes.
use secos_ng.Base.{ℕ, ◌+◌, ◌-◌, ◌^◌, ◌≡◌, refl, ap, ◌∙◌, arith, if◌then◌else◌, ◌<<<◌}
use secos_ng.Memory.{Memory, IsBytes, within}
use secos_ng.Memory.Fill.{stosl_lem}
use secos_ng.Memory.Copy.{Separate, movsl_lem}
use secos_ng.Memory.Direction.{memset32, memcpy32, fix_str_dir-up}
use secos_ng.Cpu.FlagOps.{AreKernelFlags}

abbrev pub page_size : ℕ
page_size = 1 <<< 12

unfoldable pub clear_page : (d now : ℕ) → Memory → Memory × ℕ
clear_page d now m = memset32 d 0 page_size now m

unfoldable pub copy_page : (d s now : ℕ) → Memory → Memory × ℕ
copy_page d s now m = memcpy32 d s page_size now m

-- With the flags of the kernel, in a memory of bytes and on ranges of 16 KB below 4 GB, for the copy
-- apart: the four pages from the address on become zero, or those of the source; no other byte
-- changes, and the flags are as they were.
pub clear_page-copy_page :
    (d s now : ℕ) (m : Memory)
    → AreKernelFlags now
    → IsBytes m
    → Separate d s (2 ^ 14)
    → ((x : ℕ) → (clear_page d now m).0 x ≡ (if within d (2 ^ 14) x then 0 else m x))
      × ((x : ℕ)
          → (copy_page d s now m).0 x ≡ (if within d (2 ^ 14) x then m (s + (x - d)) else m x))
      × ((clear_page d now m).1 ≡ now)
      × ((copy_page d s now m).1 ≡ now)
unfolding clear_page copy_page
clear_page-copy_page d s now m h b apart =
    let up = fix_str_dir-up (λ flags. flags) d s 0 page_size now m (λ flags. refl) h in
    (
      λ x.
          ap (λ (r : Memory × ℕ). r.0 x) up.1
          ∙ stosl_lem page_size d 0 m x (omega arith) (omega (arith, apart.room_a)),
      λ x. ap (λ (r : Memory × ℕ). r.0 x) up.3 ∙ movsl_lem page_size d s m x b apart,
      ap (λ (r : Memory × ℕ). r.1) up.1,
      ap (λ (r : Memory × ℕ). r.1) up.3,
    )
