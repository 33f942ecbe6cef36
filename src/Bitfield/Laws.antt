-- ===== src/Bitfield/Laws.antt =====
-- Writing a member and reading it, or another, back.
use mathlib.Core.Logic.{inl, inr}
use native.Mathlib.Nat.{
  pow-suc, one-le-pow, div-div-eq-div-mul, mul-add-div_right, div-eq_of_lt, mul-add-mod_self_right,
  mod-mod, div-add-mod',
}
use secos_ng.Base.{ℕ, zero, suc, ◌+◌, ◌-◌, ◌*◌, ◌/◌, ◌%◌, ◌^◌, ◌≤◌, ◌<◌, ◌≡◌, ap, ◌∙◌, sym, arith}
use secos_ng.Bitfield.{Field, get, put, Apart}

pub pow-add : (a b : ℕ) → 2 ^ (a + b) ≡ 2 ^ a * 2 ^ b
pow-add a zero = let e : a + 0 ≡ a = omega arith in rw e (omega arith)
pow-add a (suc b) =
    let e : a + suc b ≡ suc (a + b) = omega arith in
    rw e (grind (arith, pow-suc 2 (a + b), pow-suc 2 b, pow-add a b))

-- The digits above a member's end, at any distance.
pub shifted : (x a b : ℕ) → x / 2 ^ (a + b) ≡ x / 2 ^ a / 2 ^ b
shifted x a b = rw (pow-add a b, div-div-eq-div-mul)

-- What lies above `r`, a multiple of `g * w`, does not show in the `w`-sized digit at `g`.
below : (q g w d r : ℕ) → 0 < g → (q * (g * w * d) + r) / g % w ≡ r / g % w
below q g w d r hg =
    rw (regroup, mul-add-div_right hg (q * d * w) r, mul-add-mod_self_right (q * d) w (r / g))
  where
    regroup : q * (g * w * d) ≡ q * d * w * g
    regroup = grind arith

-- The digits of the written word from the member on.
put_from :
    (f : Field) (v x : ℕ)
    → put f v x / 2 ^ f.lo ≡ x / 2 ^ f.lo / 2 ^ f.width * 2 ^ f.width + v % 2 ^ f.width
put_from f v x = ground (
  arith,
  one-le-pow f.lo 2,
  mul-add-div_right {m = 2 ^ f.lo} (one-le-pow f.lo 2 (omega arith))
      (x / 2 ^ f.lo / 2 ^ f.width * 2 ^ f.width + v % 2 ^ f.width) (x % 2 ^ f.lo),
  div-eq_of_lt {n = x % 2 ^ f.lo} {m = 2 ^ f.lo} (omega (arith, one-le-pow f.lo 2)),
)

pub get-put_self : (f : Field) (v x : ℕ) → get f (put f v x) ≡ v % 2 ^ f.width
get-put_self f v x = rw (
  put_from f v x,
  mul-add-mod_self_right (x / 2 ^ f.lo / 2 ^ f.width) (2 ^ f.width) (v % 2 ^ f.width),
  mod-mod v (2 ^ f.width),
)

-- The digits above the member are kept.
pub put_above : (f : Field) (v x : ℕ) → put f v x / 2 ^ (f.lo + f.width) ≡ x / 2 ^ (f.lo + f.width)
put_above f v x =
    rw
      (
        shifted (put f v x) f.lo f.width,
        shifted x f.lo f.width,
        put_from f v x,
        mul-add-div_right {m = 2 ^ f.width} (one-le-pow f.width 2 (omega arith))
            (x / 2 ^ f.lo / 2 ^ f.width) (v % 2 ^ f.width),
        div-eq_of_lt {n = v % 2 ^ f.width} {m = 2 ^ f.width} (omega (arith, one-le-pow f.width 2)),
      )
      (omega arith)

-- A member that ends below another does not see what lies from that other on.
under :
    (f g : Field) (q r : ℕ)
    → g.lo + g.width ≤ f.lo
    → (q * 2 ^ f.lo + r) / 2 ^ g.lo % 2 ^ g.width ≡ r / 2 ^ g.lo % 2 ^ g.width
under f g q r h =
    ap (λ (t : ℕ). (q * t + r) / 2 ^ g.lo % 2 ^ g.width) split
    ∙ below q (2 ^ g.lo) (2 ^ g.width) (2 ^ (f.lo - (g.lo + g.width))) r
        (one-le-pow g.lo 2 (omega arith))
  where
    split : 2 ^ f.lo ≡ 2 ^ g.lo * 2 ^ g.width * 2 ^ (f.lo - (g.lo + g.width))
    split =
        let e : f.lo ≡ g.lo + g.width + (f.lo - (g.lo + g.width)) = omega arith in
        ap (λ (k : ℕ). 2 ^ k) e
        ∙ pow-add (g.lo + g.width) (f.lo - (g.lo + g.width))
        ∙ ap (λ (t : ℕ). t * 2 ^ (f.lo - (g.lo + g.width))) (pow-add g.lo g.width)

pub get-put_ne : (f g : Field) (v x : ℕ) → Apart f g → get g (put f v x) ≡ get g x
get-put_ne f g v x (inl h) =
    let e : g.lo ≡ f.lo + f.width + (g.lo - (f.lo + f.width)) = omega arith in
    ap (λ (t : ℕ). t % 2 ^ g.width)
      (ap (λ (k : ℕ). put f v x / 2 ^ k) e
        ∙ shifted (put f v x) (f.lo + f.width) (g.lo - (f.lo + f.width))
        ∙ ap (λ (t : ℕ). t / 2 ^ (g.lo - (f.lo + f.width))) (put_above f v x)
        ∙ sym (shifted x (f.lo + f.width) (g.lo - (f.lo + f.width)))
        ∙ sym (ap (λ (k : ℕ). x / 2 ^ k) e))
get-put_ne f g v x (inr h) =
    under f g (x / 2 ^ f.lo / 2 ^ f.width * 2 ^ f.width + v % 2 ^ f.width) (x % 2 ^ f.lo) h
    ∙ sym (under f g (x / 2 ^ f.lo) (x % 2 ^ f.lo) h)
    ∙ ap (λ (t : ℕ). t / 2 ^ g.lo % 2 ^ g.width) (div-add-mod' x (2 ^ f.lo))
