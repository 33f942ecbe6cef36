-- ===== src/Paging/SelfMap/Printed.antt =====
-- What `tp` of tp4/tp.c prints on its way.
use mathlib.Core.Option.{map}
use secos_ng.Base.{ℕ, List, [], ◌∷◌, ◌++◌, Option, none, some, codes}
use secos_ng.Memory.{Memory, load32}
use secos_ng.Memory.Words.{set_all}
use secos_ng.Print.Calls.{Call}
use secos_ng.Paging.{entry_at, page_get_nr}
use secos_ng.Paging.Walk.{Mapping, translate, pd32_get_idx, pt32_get_idx}
use secos_ng.Paging.SelfMap.{pgd, ptb3, target, v1, v2, krn_entry, zeros, unpaged, pokes, paged}

-- A load of a word in ring 0 with paging on.
unfoldable pub peek : Memory → (va : ℕ) → Option ℕ
peek m va = map (λ (p : Mapping). load32 m p.phys) (translate m pgd va)

-- The stores with paging on up to the third call.
pub linked : List (ℕ × ℕ)
linked =
    zeros 1024 ptb3
    ++ (entry_at ptb3 (pt32_get_idx target), krn_entry (page_get_nr pgd))
      ∷ (entry_at pgd (pd32_get_idx target), krn_entry (page_get_nr ptb3))
      ∷ []

abbrev pub tp_calls : (cr3 first word : ℕ) → List Call
tp_calls cr3 first word =
    record { format = codes "CR3 = 0x%x\n"; args = cr3 ∷ [] }
    ∷ record { format = codes "%d %d\n"; args = pd32_get_idx target ∷ pt32_get_idx target ∷ [] }
    ∷ record { format = codes "PGD[0] = 0x%x | target = 0x%x\n"; args = first ∷ word ∷ [] }
    ∷ record { format = codes "%p = %s | %p = %s\n"; args = v1 ∷ v1 ∷ v2 ∷ v2 ∷ [] }
    ∷ []

-- The calls, and the memory at the last one; the third one reads the memory behind `linked`.
unfoldable pub tp_printed : (cr3 : ℕ) → Memory → Option (List Call × Memory)
tp_printed cr3 m = elim (pokes linked (unpaged m)) [
  | none ↦ none
  | some m1 ↦ elim (peek m1 pgd) [
    | none ↦ none
    | some first ↦ elim (peek m1 target) [
      | none ↦ none
      | some word ↦ map (λ m2. (tp_calls cr3 first word, m2)) (pokes paged (unpaged m))
    ]
  ]
]

module _ (m : Memory) where
  abbrev behind : Memory
  behind = set_all linked (unpaged m)
