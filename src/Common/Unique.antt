-- ===== src/Common/Unique.antt =====
-- The loop of the functions `unique`: `for id in ids { if !seen.insert(id) { return Err(..) } }`.
use Prim.Native.Nat.{ℕ}
use mathlib.Core.Path.{◌≡◌}
use mathlib.Core.Bool.{true, false}
use mathlib.Core.List.{List, [], ◌∷◌}
use mathlib.Core.Logic.{inl, inr}
use native.Mathlib.Omega.{arith}
use bastet_workstation.Common.Branches.{if◌then◌else◌, ◌==◌, Bool-cases}
use bastet_workstation.Common.Sets.{contains, insert, contains-insert, Distinct}
use bastet_workstation.Common.Results.{Result, ok, err}

unfoldable pub each_once {ι} : {E : Type ι} → (ℕ → E) → List ℕ → List ℕ → Result (Unit {0}) E
each_once error seen [] = ok tt
each_once error seen (id ∷ ids) =
    let rest = each_once error (insert id seen) ids in
    if contains seen id then err (error id) else rest

module _ {ι} {E : Type ι} (error : ℕ → E) where
  each_once-apart :
      (seen ids : List ℕ)
      → each_once error seen ids ≡ ok tt
      → Distinct ids × ((x : ℕ) → contains ids x ≡ true → contains seen x ≡ false)
  unfolding each_once
  each_once-apart seen [] h = (tt, λ x m. cc m)
  each_once-apart seen (id ∷ ids) h =
      let fresh : contains seen id ≡ false = ground arith in
      let (distinct, apart) = each_once-apart (insert id seen) ids (ground arith) in
      (
        (ground (arith, apart id, contains-insert id id seen), distinct),
        λ x m. elim (Bool-cases (id == x)) [
          | inl e ↦ ground arith
          | inr e ↦ ground (arith, apart x, contains-insert id x seen)
        ],
      )

  pub each_once-Distinct : (ids : List ℕ) → each_once error [] ids ≡ ok tt → Distinct ids
  each_once-Distinct ids h = (each_once-apart [] ids h).0
