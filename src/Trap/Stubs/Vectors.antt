-- ===== src/Trap/Stubs/Vectors.antt =====
-- The exceptions of kernel/include/excp.h by whether they have an error code, against the stubs.
use secos_ng.Base.{ℕ, ◌<◌, ◌≡◌, ◌↔◌, arith, Bool, true, false, ◌||◌, ◌==◌, List, [], ◌∷◌, ◌++◌}
use secos_ng.Trap.Stubs.{has_error}

-- DE, DB, NMI, BP, OF, BR, UD, NM, MO, MF, MC and XF.
abbrev excps_without_error : List ℕ
excps_without_error = 0 ∷ 1 ∷ 2 ∷ 3 ∷ 4 ∷ 5 ∷ 6 ∷ 7 ∷ 9 ∷ 16 ∷ 18 ∷ 19 ∷ []

-- DF, TS, NP, SS, GP, PF and AC.
abbrev excps_with_error : List ℕ
excps_with_error = 8 ∷ 10 ∷ 11 ∷ 12 ∷ 13 ∷ 14 ∷ 17 ∷ []

abbrev rsv_excp : ℕ
rsv_excp = 15

abbrev is_in : ℕ → List ℕ → Bool
is_in v [] = false
is_in v (x ∷ xs) = (v == x) || is_in v xs

-- The stubs take an error code from the processor exactly at the vectors that the header lists with
-- one, and the header's lists with the reserved vector are the vectors below 20.
vectors-has_error :
    (v : ℕ)
    → (has_error v ≡ is_in v excps_with_error)
      × ((v < 20) ↔ (is_in v (rsv_excp ∷ excps_with_error ++ excps_without_error) ≡ true))
vectors-has_error v = (ground arith, ground arith)
