-- ===== src/Segment/Exercise/Window.antt =====
-- The copy through a segment: what lies within its limit is copied, and more is a fault.
use secos_ng.Base.{ℕ, zero, suc, ◌+◌, ◌^◌, ◌≤◌, ◌<◌, ◌≡◌, refl, arith, none, some, add32}
use secos_ng.Memory.{Memory, store8, movsb}
use secos_ng.Segment.Table.{Segment}
use secos_ng.Segment.Exercise.{memcpy8_es}

pub memcpy8_es-movsb :
    (n d s : ℕ) (es : Segment) (m : Memory)
    → d + n ≤ es.last + 1
    → es.base + d + n ≤ 2 ^ 32
    → memcpy8_es es n d s m ≡ some (movsb n (es.base + d) s m)
unfolding memcpy8_es movsb
memcpy8_es-movsb zero d s es m h r = refl
memcpy8_es-movsb (suc n) d s es m h r = ground (
  arith,
  memcpy8_es-movsb n (d + 1) (add32 s 1) es (store8 m (es.base + d) (m s)) (omega arith)
      (omega arith),
)

pub memcpy8_es_fault :
    (n d s : ℕ) (es : Segment) (m : Memory)
    → es.last + 1 < d + n
    → d ≤ es.last + 1
    → es.last + 1 < 2 ^ 32
    → memcpy8_es es n d s m ≡ none
unfolding memcpy8_es
memcpy8_es_fault zero d s es m h l r = absurd (omega arith)
memcpy8_es_fault (suc n) d s es m h l r = ground (
  arith,
  memcpy8_es_fault n (d + 1) (add32 s 1) es (store8 m (add32 es.base d) (m s)) (omega arith),
)
