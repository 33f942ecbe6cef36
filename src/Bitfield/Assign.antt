-- ===== src/Bitfield/Assign.antt =====
-- A run of assignments to members of a union, and what a member is behind it.
use native.Mathlib.Nat.{div-add-mod', mod-lt, one-le-pow, div-eq_of_lt}
use secos_ng.Base.{
  ℕ, ◌+◌, ◌-◌, ◌*◌, ◌/◌, ◌%◌, ◌^◌, ◌≤◌, ◌<◌, ◌≡◌, Bool, true, false, ◌==◌, if◌then◌else◌, refl, ap,
  ap₂, ◌∙◌, sym, List, [], ◌∷◌, arith,
}
use secos_ng.Bitfield.{Field, get, put, Apart}
use secos_ng.Bitfield.Laws.{shifted, put_above, get-put_self, get-put_ne}

-- The assignments in order.
unfoldable pub assign : List (Field × ℕ) → ℕ → ℕ
assign [] x = x
assign ((f, v) ∷ es) x = assign es (put f v x)

-- Every member assigned is `g` or apart from it.
abbrev pub Fits : List (Field × ℕ) → Field → Type 0
Fits [] g = Unit
Fits ((f, v) ∷ es) g = (if f.lo == g.lo then f.width ≡ g.width else Apart f g) × Fits es g

-- The last value assigned to `g`, or what it was.
abbrev pub written : List (Field × ℕ) → Field → ℕ → ℕ
written [] g d = d
written ((f, v) ∷ es) g d = written es g (if f.lo == g.lo then v % 2 ^ g.width else d)

get-put :
    (f g : Field) (v x : ℕ) (b : Bool)
    → (f.lo == g.lo) ≡ b
    → (if b then f.width ≡ g.width else Apart f g)
    → get g (put f v x) ≡ (if b then v % 2 ^ g.width else get g x)
get-put f g v x true e h =
    let lo : f.lo ≡ g.lo = ground (arith, e) in
    ap₂ (λ (a w : ℕ). put f v x / 2 ^ a % 2 ^ w) (sym lo) (sym h)
    ∙ get-put_self f v x
    ∙ ap (λ (w : ℕ). v % 2 ^ w) h
get-put f g v x false e h = get-put_ne f g v x h

pub get-assign :
    (es : List (Field × ℕ)) (g : Field) (x : ℕ)
    → Fits es g
    → get g (assign es x) ≡ written es g (get g x)
unfolding assign
get-assign [] g x h = refl
get-assign ((f, v) ∷ es) g x h =
    get-assign es g (put f v x) h.1 ∙ ap (written es g) (get-put f g v x (f.lo == g.lo) refl h.0)

-- Every member assigned ends within `n` bits.
abbrev pub AreWithin : ℕ → List (Field × ℕ) → Type 0
AreWithin n [] = Unit
AreWithin n ((f, v) ∷ es) = (f.lo + f.width ≤ n) × AreWithin n es

put_bound : (f : Field) (v x n : ℕ) → f.lo + f.width ≤ n → x < 2 ^ n → put f v x < 2 ^ n
put_bound f v x n h l =
    let d = n - (f.lo + f.width) in
    let e : n ≡ f.lo + f.width + d = omega arith in
    let top : put f v x / 2 ^ n ≡ 0 =
      ap (λ (k : ℕ). put f v x / 2 ^ k) e
      ∙ shifted (put f v x) (f.lo + f.width) d
      ∙ ap (λ (t : ℕ). t / 2 ^ d) (put_above f v x)
      ∙ sym (shifted x (f.lo + f.width) d)
      ∙ sym (ap (λ (k : ℕ). x / 2 ^ k) e)
      ∙ div-eq_of_lt l in
    let y = put f v x in
    let room = one-le-pow n 2 (omega arith) in
    let low = mod-lt y room in
    let whole : y ≡ y % 2 ^ n =
      sym (div-add-mod' y (2 ^ n)) ∙ ap (λ (q : ℕ). q * 2 ^ n + y % 2 ^ n) top ∙ omega arith in
    omega (arith, low, whole)

pub assign_bound :
    (es : List (Field × ℕ)) (x n : ℕ) → AreWithin n es → x < 2 ^ n → assign es x < 2 ^ n
unfolding assign
assign_bound [] x n h l = l
assign_bound ((f, v) ∷ es) x n h l = assign_bound es (put f v x) n h.1 (put_bound f v x n h.0 l)
