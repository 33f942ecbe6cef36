-- ===== src/Paging/SelfMap/Tables.antt =====
-- The words that tp4 leaves in its tables.
use secos_ng.Base.{
  ℕ, zero, suc, ◌+◌, ◌-◌, ◌*◌, ◌/◌, ◌%◌, ◌^◌, ◌≤◌, ◌≡◌, refl, arith, ◌==◌, if◌then◌else◌, List, [],
  ◌∷◌, ◌++◌, ltb, leb, ◌&&◌,
}
use secos_ng.Memory.Words.{IsWord, latest, AreWords}
use secos_ng.Paging.{entry_at}
use secos_ng.Paging.Read.{pg_entry_krn}
use secos_ng.Paging.SelfMap.{entries, krn_entry, zeros}
use secos_ng.Paging.SelfMap.Linear.{AreFree}

pub latest-append :
    (xs ys : List (ℕ × ℕ)) (b d : ℕ) → latest (xs ++ ys) b d ≡ latest ys b (latest xs b d)
latest-append [] ys b d = refl
latest-append ((a, v) ∷ xs) ys b d = latest-append xs ys b (if a == b then v else d)

pub AreWords-append : (xs ys : List (ℕ × ℕ)) → AreWords xs → AreWords ys → AreWords (xs ++ ys)
AreWords-append [] ys h k = k
AreWords-append ((a, v) ∷ xs) ys h k = (h.0, h.1, AreWords-append xs ys h.2 k)

pub AreFree-append : (xs ys : List (ℕ × ℕ)) → AreFree xs → AreFree ys → AreFree (xs ++ ys)
AreFree-append [] ys h k = k
AreFree-append ((a, v) ∷ xs) ys h k = (h.0, h.1, AreFree-append xs ys h.2 k)

pub AreFree-AreWords : (es : List (ℕ × ℕ)) → AreFree es → AreWords es
AreFree-AreWords [] h = tt
AreFree-AreWords ((a, v) ∷ es) h = (h.0.0, h.1, AreFree-AreWords es h.2)

pub entries-AreWords :
    (left i table first : ℕ)
    → table % 4096 ≡ 0
    → table + 4096 ≤ 2 ^ 32
    → i + left ≤ 1024
    → AreWords (entries left i table first)
unfolding entries
entries-AreWords zero i table first h r e = tt
entries-AreWords (suc left) i table first h r e = (
  omega arith,
  omega (arith, pg_entry_krn (first + i)),
  entries-AreWords left (i + 1) table first h r (omega arith),
)

-- The entry of a table at a word, of those that the loop sets from `i` on.
pub latest-entries :
    (left i table first b d : ℕ)
    → IsWord b
    → table % 4096 ≡ 0
    → latest (entries left i table first) b d ≡ (
        if leb (table + 4 * i) b && ltb b (table + 4 * (i + left))
        then krn_entry (first + (b - table) / 4)
        else d)
unfolding entries
latest-entries zero i table first b d hb h = ground arith
latest-entries (suc left) i table first b d hb h =
    let here : table + 4 * i ≡ b → (b - table) / 4 ≡ i = λ e. omega arith in
    ground (
      arith,
      here,
      latest-entries left (i + 1) table first b
          (if entry_at table i == b then krn_entry (first + i) else d) hb h,
    )

pub zeros-AreFree :
    (left va : ℕ) → va % 4 ≡ 0 → 0x603000 ≤ va → va + 4 * left ≤ 0x604000 → AreFree (zeros left va)
unfolding zeros
zeros-AreFree zero va h lo hi = tt
zeros-AreFree (suc left) va h lo hi = (
  omega arith,
  omega arith,
  zeros-AreFree left (va + 4) (omega arith) (omega arith) (omega arith),
)

pub latest-zeros :
    (left va b d : ℕ)
    → b % 4 ≡ 0
    → va % 4 ≡ 0
    → latest (zeros left va) b d ≡ (if leb va b && ltb b (va + 4 * left) then 0 else d)
unfolding zeros
latest-zeros zero va b d hb h = ground arith
latest-zeros (suc left) va b d hb h =
    ground (arith, latest-zeros left (va + 4) b (if va == b then 0 else d) hb (omega arith))
