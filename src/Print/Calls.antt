-- ===== src/Print/Calls.antt =====
-- A routine that prints, as the calls of `debug` and `printf` that it makes.
use secos_ng.Base.{ℕ, List, [], ◌∷◌, ◌++◌}
use secos_ng.Print.Format.{Outcome, done, ◌>>=◌}
use secos_ng.Print.Format.Spec.{plain, parse, render}

pub record Call : Type 0 where
  pub format : List ℕ
  pub args : List ℕ

-- The text of the calls, one after the other.
unfoldable pub output : (ℕ → List ℕ) → List Call → Outcome (List ℕ)
output text [] = done []
output text (c ∷ cs) =
    render text (parse plain c.format) c.args
    >>= (λ (ws, t). output text cs >>= (λ t'. done (t ++ t')))
