-- ===== src/Common/Results.antt =====
-- Rust's `Result`, and the chain of early returns that `?` and `return Err` make.
use mathlib.Core.Path.{◌≡◌, refl, subst}
use mathlib.Core.Bool.{Bool, true, false}
use mathlib.Core.Option.{Option, none, some}
use mathlib.Core.List.{List, [], ◌∷◌}
use native.Mathlib.Omega.{arith}
use bastet_workstation.Common.Lists.{All}

pub data Result {ℓ κ} (A : Type ℓ) (E : Type κ) : Type (ℓ ⊔ κ) where
  ok : A → Result A E
  err : E → Result A E

infixl 5 ◌>>=◌ ◌>>◌
abbrev pub ◌>>=◌ {ℓ κ ι} :
    {A : Type ℓ} {B : Type κ} {E : Type ι} → Result A E → (A → Result B E) → Result B E
ok a >>= f = f a
err e >>= f = err e

abbrev pub ◌>>◌ {ℓ ι} : {B : Type ℓ} {E : Type ι} → Result (Unit {0}) E → Result B E → Result B E
m >> k = m >>= λ _. k

-- `if test { return Err(e) }`
abbrev pub fail_if {ι} : {E : Type ι} → Bool → E → Result (Unit {0}) E
fail_if true e = err e
fail_if false e = ok tt

-- `option.ok_or(e)?`
abbrev pub ok_or {ℓ ι} : {A : Type ℓ} {E : Type ι} → Option A → E → Result A E
ok_or none e = err e
ok_or (some a) e = ok a

abbrev pub is_ok {ℓ ι} : {A : Type ℓ} {E : Type ι} → Result A E → Bool
is_ok (ok a) = true
is_ok (err e) = false

-- `.map_err(f)`
abbrev pub map_err {ℓ ι κ} :
    {A : Type ℓ} {E : Type ι} {F : Type κ} → (E → F) → Result A E → Result A F
map_err f (ok a) = ok a
map_err f (err e) = err (f e)

-- What a chain that succeeded went through.
pub >>=-inv {ι ℓ κ} :
    {E : Type ι} {A : Type ℓ} {B : Type κ} (r : Result A E) (next : A → Result B E) (b : B)
    → (r >>= next) ≡ ok b
    → (found : A) × ((next found ≡ ok b) × (r ≡ ok found))
>>=-inv (err e) next b h = cc h
>>=-inv (ok found) next b h = (found, (h, refl))

-- A chain ends in an error only if a part of it does.
pub >>=-err {ι ℓ κ} :
    {E : Type ι} {A : Type ℓ} {B : Type κ} (e : E) (r : Result A E) (next : A → Result B E)
    → (r ≡ err e → ⊥)
    → ((a : A) → r ≡ ok a → next a ≡ err e → ⊥)
    → (r >>= next) ≡ err e
    → ⊥
>>=-err e (ok a) next first rest h = rest a refl h
>>=-err e (err z) next first rest h = first (ground arith)

-- A loop over a list that stops at the first error: `for x in xs { check(x)?; }`
unfoldable pub for_each {ℓ ι} :
    {A : Type ℓ} {E : Type ι} → (A → Result (Unit {0}) E) → List A → Result (Unit {0}) E
for_each check [] = ok tt
for_each check (x ∷ xs) = let rest = for_each check xs in check x >>= λ _. rest

pub fail_if-ok {ι} : {E : Type ι} (b : Bool) (e : E) → fail_if b e ≡ ok tt → b ≡ false
fail_if-ok true e h = cc h
fail_if-ok false e h = refl

-- Inversion of a check that comes before the rest.
pub >>-eq-ok {ℓ ι} :
    {B : Type ℓ} {E : Type ι} (m : Result (Unit {0}) E) (k : Result B E) {b : B}
    → (m >> k) ≡ ok b
    → (m ≡ ok tt) × (k ≡ ok b)
>>-eq-ok (ok tt) k h = (refl, h)
>>-eq-ok (err e) k h = cc h

module _ {ℓ ι} {A : Type ℓ} {E : Type ι} (check : A → Result (Unit {0}) E) where
  pub for_each-All : (xs : List A) → for_each check xs ≡ ok tt → All (λ x. check x ≡ ok tt) xs
  unfolding for_each
  for_each-All [] h = tt
  for_each-All (x ∷ xs) h =
      let (first, rest) = >>-eq-ok (check x) (for_each check xs) h in (first, for_each-All xs rest)

  pub All-for_each : (xs : List A) → All (λ x. check x ≡ ok tt) xs → for_each check xs ≡ ok tt
  unfolding for_each
  All-for_each [] h = refl
  All-for_each (x ∷ xs) h = rw h.0 (All-for_each xs h.1)

  -- An error of the loop is an error of a check.
  pub for_each-err :
      (e : E) (xs : List A) → ((x : A) → check x ≡ err e → ⊥) → for_each check xs ≡ err e → ⊥
  unfolding for_each
  for_each-err e [] never h = cc h
  for_each-err e (x ∷ xs) never h =
      let rest = for_each-err e xs never in let first = never x in ground (arith, rest, first)

-- What holds of the value of a call that succeeds.
pub record Holds {ℓ ι κ} {A : Type ℓ} {E : Type ι} (P : A → Type κ) (r : Result A E)
    : Type (ℓ ⊔ ι ⊔ κ) where
  pub at : (a : A) → r ≡ ok a → P a

module _ {ℓ ι κ} {A : Type ℓ} {E : Type ι} (P : A → Type κ) where
  pub Holds-ok : (r : Result A E) (a : A) → r ≡ ok a → P a → Holds P r
  Holds-ok r a same h = record { at = λ b e. subst P (ground arith) h }

  pub Holds-err : (e : E) → Holds P (err e)
  Holds-err e = record { at = λ b q. absurd (cc q) }

-- A chain of which only the rest matters, and one where the first part matters too.
module _ {ℓ ι κ η} {A : Type ℓ} {B : Type κ} {E : Type ι} (P : B → Type η) where
  pub Holds-after :
      (r : Result A E) (k : A → Result B E) → ((a : A) → Holds P (k a)) → Holds P (r >>= k)
  Holds-after (ok a) k h = h a
  Holds-after (err e) k h = Holds-err P e

  pub Holds-then {θ} :
      (Q : A → Type θ) (r : Result A E) (k : A → Result B E)
      → Holds Q r
      → ((a : A) → Q a → Holds P (k a))
      → Holds P (r >>= k)
  Holds-then Q (ok a) k q h = h a (q.at a refl)
  Holds-then Q (err e) k q h = Holds-err P e

-- What the two forms of an early return have let through.
module _ {κ ι η} {B : Type κ} {E : Type ι} (P : B → Type η) where
  pub Holds-when :
      (b : Bool) (e : E) (k : Unit {0} → Result B E)
      → (b ≡ false → Holds P (k tt))
      → Holds P (fail_if b e >>= k)
  Holds-when true e k h = Holds-err P e
  Holds-when false e k h = h refl

  pub Holds-found {ℓ} :
      {A : Type ℓ} (o : Option A) (e : E) (k : A → Result B E)
      → ((a : A) → o ≡ some a → Holds P (k a))
      → Holds P (ok_or o e >>= k)
  Holds-found none e k h = Holds-err P e
  Holds-found (some a) e k h = h a refl
