-- ===== src/Trap/Stubs/Requests.antt =====
-- The requests of the devices one after the other, through the controllers and the stubs.
use native.Mathlib.Decide.{dec_lt}
use secos_ng.Base.{
  ℕ, ◌+◌, ◌-◌, ◌<◌, ◌≡◌, refl, ap, ◌∙◌, arith, List, [], ◌∷◌, map, Option, none, some,
}
use secos_ng.Io.{Out}
use secos_ng.Pic.{pic_init}
use secos_ng.Pic.Remap.{Pair, command_all, vector, pic_init-vector}
use secos_ng.Pic.Service.{
  Lines, idle, takes, request, ended, command_word, send, send_all, pic_init-idle, is_pic_icw1,
  is_pic_ocw2,
}
use secos_ng.Trap.Stubs.{Stub, no_error, stub, ack_pic1, ack_pic2}
use secos_ng.Trap.Stubs.Context.{acknowledged}

unfoldable first : ℕ → Option (List ℕ × Lines) → Option (List ℕ × Lines)
first v none = none
first v (some (vs, s)) = some (v ∷ vs, s)

-- The vectors at which the requests come, and the lines in service at the end; each handler returns
-- before the next request. `none` is a request that is not served.
unfoldable pub serve_all : Pair → List ℕ → Lines → Option (List ℕ × Lines)
unfolding first
serve_all c [] s = some ([], s)
serve_all c (irq ∷ irqs) s = elim (request irq s) [
  | none ↦ none
  | some t ↦ elim (vector c irq) [
    | none ↦ none
    | some v ↦ elim (stub v) [
      | none ↦ none
      | some st ↦ first v (serve_all c irqs (send_all st.sent t))
    ]
  ]
]

-- What the stubs of a request of either controller send.
end_first : (line : ℕ) (s : Lines) → send_all ack_pic1 (record s { master = line ∷ s.master }) ≡ s
unfolding send_all send command_word is_pic_icw1 is_pic_ocw2 ended
end_first line s = refl

end_second :
    (line : ℕ) (s : Lines)
    → send_all ack_pic2 (record { master = 2 ∷ s.master; slave = line ∷ s.slave }) ≡ s
unfolding send_all send command_word is_pic_icw1 is_pic_ocw2 ended
end_second line s = refl

-- Whatever is in service when one of the sixteen requests is taken, what its stub sends ends the
-- service of its line, at both controllers for the second one's, and of no other.
pub request-acknowledged :
    (irq : ℕ) (s t : Lines)
    → irq < 16
    → request irq s ≡ some t
    → send_all (acknowledged (32 + irq)) t ≡ s
unfolding request
request-acknowledged irq s t h e = ground (arith, e, end_first irq s, end_second (irq - 8) s)

request-idle : (irq : ℕ) → irq < 16 → (t : Lines) × (request irq idle ≡ some t)
unfolding request takes
request-idle irq h = elim (dec_lt irq 8) [
  | yes l ↦ (record idle { master = irq ∷ [] }, ground (arith, l))
  | no l ↦ (record { master = 2 ∷ []; slave = (irq - 8) ∷ [] }, ground (arith, l))
]

stub_of :
    (irq : ℕ)
    → irq < 16
    → (st : Stub) × (stub (32 + irq) ≡ some st) × (st.sent ≡ acknowledged (32 + irq))
unfolding stub
stub_of irq h = elim (dec_lt irq 8) [
  | yes l ↦
      (record { pushed = no_error ∷ (32 + irq) ∷ []; sent = ack_pic1 }, ground arith, ground arith)
  | no l ↦
      (record { pushed = no_error ∷ (32 + irq) ∷ []; sent = ack_pic2 }, ground arith, ground arith)
]

abbrev pub AreBelow : ℕ → List ℕ → Type 0
AreBelow n [] = Unit
AreBelow n (x ∷ xs) = (x < n) × AreBelow n xs

serve_all-idle :
    (c : Pair) (irqs : List ℕ)
    → ((irq : ℕ) → irq < 16 → vector c irq ≡ some (32 + irq))
    → AreBelow 16 irqs
    → serve_all c irqs idle ≡ some (map (λ irq. 32 + irq) irqs, idle)
unfolding serve_all first
serve_all-idle c [] at h = refl
serve_all-idle c (irq ∷ irqs) at h =
    let (t, taken) = request-idle irq h.0 in
    let (st, here, sent) = stub_of irq h.0 in
    let back =
      ap (λ (os : List Out). send_all os t) sent ∙ request-acknowledged irq idle t h.0 taken in
    let rest = ap (λ (s : Lines). serve_all c irqs s) back ∙ serve_all-idle c irqs at h.1 in
    ground (arith, taken, at irq h.0, here, rest)

-- However the controllers were, once `pic_init` has run they serve any run of the sixteen requests
-- whose handlers return one after the other: each comes in its turn, at vector 32 and its line, and
-- at the end no line is in service, so that no request keeps a later one from being taken.
pub serve_all-pic_init :
    (p : Pair) (s : Lines) (irqs : List ℕ)
    → AreBelow 16 irqs
    → serve_all (command_all pic_init p) irqs (send_all pic_init s)
      ≡ some (map (λ irq. 32 + irq) irqs, idle)
serve_all-pic_init p s irqs h =
    let c = command_all pic_init p in
    ap (λ (t : Lines). serve_all c irqs t) (pic_init-idle s)
    ∙ serve_all-idle c irqs (λ irq l. (pic_init-vector p irq l).0) h
