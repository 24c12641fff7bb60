-- ===== src/Common/Lists.antt =====
-- Lists measured by native numbers, with the Boolean iterator methods `any` and `all`.
use Prim.Native.Nat.{ℕ, zero, suc, ◌+◌}
use mathlib.Core.Path.{◌≡◌, refl, sym, ap, subst}
use mathlib.Core.Bool.{Bool, true, false, ◌&&◌, ◌||◌}
use mathlib.Core.Option.{Option, none, some}
use mathlib.Core.List.{List, [], ◌∷◌, ◌++◌, map}
use mathlib.Core.List.{Memᴰ}
use mathlib.Core.List.Memᴰ
use mathlib.Core.Logic.{inl, inr}
use native.Mathlib.Omega.{arith}
use bastet_workstation.Common.Branches.{if◌then◌else◌}

module _ {ℓ} {A : Type ℓ} where
  abbrev pub length : List A → ℕ
  length [] = 0
  length (x ∷ xs) = suc (length xs)

  abbrev pub is_empty : List A → Bool
  is_empty [] = true
  is_empty (x ∷ xs) = false

  abbrev pub any : (A → Bool) → List A → Bool
  any p [] = false
  any p (x ∷ xs) = p x || any p xs

  abbrev pub all : (A → Bool) → List A → Bool
  all p [] = true
  all p (x ∷ xs) = p x && all p xs

  abbrev pub take : ℕ → List A → List A
  take zero xs = []
  take (suc n) [] = []
  take (suc n) (x ∷ xs) = x ∷ take n xs

  -- `iter().filter(p)`
  abbrev pub keep_if : (A → Bool) → List A → List A
  keep_if p [] = []
  keep_if p (x ∷ xs) = let rest = keep_if p xs in if p x then x ∷ rest else rest

  -- `ORDER BY`, for a test that says which of two rows may stand first.
  abbrev pub insert_by : (A → A → Bool) → A → List A → List A
  insert_by first x [] = x ∷ []
  insert_by first x (y ∷ ys) =
      let rest = insert_by first x ys in if first x y then x ∷ y ∷ ys else y ∷ rest

  abbrev pub order_by : (A → A → Bool) → List A → List A
  order_by first [] = []
  order_by first (x ∷ xs) = insert_by first x (order_by first xs)

  -- `iter().find(p)`
  abbrev pub find : (A → Bool) → List A → Option A
  find p [] = none
  find p (x ∷ xs) = let rest = find p xs in if p x then some x else rest

  abbrev pub All {κ} : (A → Type κ) → List A → Type κ
  All P [] = Unit
  All P (x ∷ xs) = P x × All P xs

  pub length-append : (xs ys : List A) → length (xs ++ ys) ≡ length xs + length ys
  length-append [] ys = omega arith
  length-append (x ∷ xs) ys = omega (arith, length-append xs ys)

  pub all-append : (p : A → Bool) (xs ys : List A) → all p (xs ++ ys) ≡ (all p xs && all p ys)
  all-append p [] ys = refl
  all-append p (x ∷ xs) ys = ground (arith, all-append p xs ys)

  pub any-append : (p : A → Bool) (xs ys : List A) → any p (xs ++ ys) ≡ (any p xs || any p ys)
  any-append p [] ys = refl
  any-append p (x ∷ xs) ys = ground (arith, any-append p xs ys)

  pub all-All : (p : A → Bool) (xs : List A) → all p xs ≡ true → All (λ x. p x ≡ true) xs
  all-All p [] h = tt
  all-All p (x ∷ xs) h = (ground arith, all-All p xs (ground arith))

  pub All-all : (p : A → Bool) (xs : List A) → All (λ x. p x ≡ true) xs → all p xs ≡ true
  All-all p [] h = refl
  All-all p (x ∷ xs) h = ground (arith, All-all p xs h.1)

  pub All-map {κ ι} :
      (P : A → Type κ) (Q : A → Type ι)
      → ((x : A) → P x → Q x)
      → (xs : List A) → All P xs
      → All Q xs
  All-map P Q f [] h = tt
  All-map P Q f (x ∷ xs) h = (f x h.0, All-map P Q f xs h.1)

module _ {ℓ} {A : Type ℓ} where
  pub All-mem {κ} : (P : A → Type κ) (xs : List A) {x : A} → All P xs → Memᴰ x xs → P x
  All-mem P [] h m = elim m [ ]
  All-mem P (y ∷ xs) h m = elim (Memᴰ.cases_cons m) [
    | inl e ↦ subst P (sym e) h.0
    | inr t ↦ All-mem P xs h.1 t
  ]

  pub All-of_mem {κ} : (P : A → Type κ) (xs : List A) → ((x : A) → Memᴰ x xs → P x) → All P xs
  All-of_mem P [] h = tt
  All-of_mem P (y ∷ xs) h = (h y (Memᴰ.head refl), All-of_mem P xs (λ x m. h x (Memᴰ.tail m)))

  pub is_empty-eq-nil : (xs : List A) → is_empty xs ≡ true → xs ≡ []
  is_empty-eq-nil [] h = refl
  is_empty-eq-nil (x ∷ xs) h = absurd (cc h)

  pub one_of_length : (xs : List A) → length xs ≡ 1 → (a : A) × (xs ≡ a ∷ [])
  one_of_length [] h = absurd (omega arith)
  one_of_length (a ∷ []) h = (a, refl)
  one_of_length (a ∷ b ∷ xs) h = absurd (omega arith)

  pub two_of_length : (xs : List A) → length xs ≡ 2 → (a : A) × (b : A) × (xs ≡ a ∷ b ∷ [])
  two_of_length [] h = absurd (omega arith)
  two_of_length (a ∷ []) h = absurd (omega arith)
  two_of_length (a ∷ b ∷ []) h = (a, b, refl)
  two_of_length (a ∷ b ∷ c ∷ xs) h = absurd (omega arith)

-- Two lists of one length, related place by place.
module _ {ℓ} {A : Type ℓ} where
  abbrev pub Pairs : (A → A → Type 0) → List A → List A → Type 0
  Pairs R [] [] = Unit {0}
  Pairs R [] (y ∷ ys) = ⊥
  Pairs R (x ∷ xs) [] = ⊥
  Pairs R (x ∷ xs) (y ∷ ys) = R x y × Pairs R xs ys

  pub Pairs-refl : (R : A → A → Type 0) → ((x : A) → R x x) → (xs : List A) → Pairs R xs xs
  Pairs-refl R r [] = tt
  Pairs-refl R r (x ∷ xs) = (r x, Pairs-refl R r xs)

  pub Pairs-compose :
      (R S T : A → A → Type 0)
      → ((x y z : A) → R x y → S y z → T x z)
      → (xs ys zs : List A) → Pairs R xs ys
      → Pairs S ys zs
      → Pairs T xs zs
  Pairs-compose R S T f [] [] [] p q = tt
  Pairs-compose R S T f [] [] (z ∷ zs) p q = q
  Pairs-compose R S T f [] (y ∷ ys) zs p q = absurd p
  Pairs-compose R S T f (x ∷ xs) [] zs p q = absurd p
  Pairs-compose R S T f (x ∷ xs) (y ∷ ys) [] p q = q
  Pairs-compose R S T f (x ∷ xs) (y ∷ ys) (z ∷ zs) p q =
      (f x y z p.0 q.0, Pairs-compose R S T f xs ys zs p.1 q.1)

  pub Pairs-map :
      (R S : A → A → Type 0)
      → ((x y : A) → R x y → S x y)
      → (xs ys : List A) → Pairs R xs ys
      → Pairs S xs ys
  Pairs-map R S f [] [] p = tt
  Pairs-map R S f [] (y ∷ ys) p = p
  Pairs-map R S f (x ∷ xs) [] p = p
  Pairs-map R S f (x ∷ xs) (y ∷ ys) p = (f x y p.0, Pairs-map R S f xs ys p.1)

pub Pairs-mem {ℓ} :
    {A : Type ℓ} (R : A → A → Type 0) (xs ys : List A) {y : A}
    → Pairs R xs ys
    → Memᴰ y ys
    → (x : A) × Memᴰ x xs × R x y
Pairs-mem R [] [] p m = elim m [ ]
Pairs-mem R [] (z ∷ ys) p m = absurd p
Pairs-mem R (x ∷ xs) [] p m = elim m [ ]
Pairs-mem R (x ∷ xs) (z ∷ ys) p m = elim (Memᴰ.cases_cons m) [
  | inl e ↦ (x, Memᴰ.head refl, subst (R x) (sym e) p.0)
  | inr t ↦ let (w, inside, r) = Pairs-mem R xs ys p.1 t in (w, Memᴰ.tail inside, r)
]

pub length-map {ℓ κ} :
    {A : Type ℓ} {B : Type κ} (f : A → B) (xs : List A) → length (map f xs) ≡ length xs
length-map f [] = refl
length-map f (x ∷ xs) = ap suc (length-map f xs)
