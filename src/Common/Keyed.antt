-- ===== src/Common/Keyed.antt =====
-- Vectors of records searched by a key: `iter().find(|x| x.id == id)` and its mutable form.
use Prim.Native.Nat.{ℕ}
use mathlib.Core.Path.{◌≡◌, refl, subst}
use mathlib.Core.Bool.{Bool, true, false}
use mathlib.Core.Option.{Option, none, some}
use mathlib.Core.List.{List, [], ◌∷◌, map}
use mathlib.Core.Logic.{inl, inr}
use native.Mathlib.Omega.{arith}
use bastet_workstation.Common.Branches.{if◌then◌else◌, ◌==◌, is_some, Bool-cases}
use bastet_workstation.Common.Lists.{all, any, Pairs, Pairs-refl}
use bastet_workstation.Common.Sets.{contains, Distinct}

module _ {ℓ} {A : Type ℓ} (key : A → ℕ) where
  abbrev pub find_by : ℕ → List A → Option A
  find_by id [] = none
  find_by id (x ∷ xs) = let rest = find_by id xs in if key x == id then some x else rest

  -- The first record with the key is changed, as `iter_mut().find(..)` does.
  abbrev pub modify_by : ℕ → (A → A) → List A → List A
  modify_by id f [] = []
  modify_by id f (x ∷ xs) =
      let rest = modify_by id f xs in if key x == id then f x ∷ xs else x ∷ rest

  pub key-find_by : (id : ℕ) (xs : List A) {x : A} → find_by id xs ≡ some x → key x ≡ id
  key-find_by id [] h = ground arith
  key-find_by id (y ∷ xs) {x} h = ground (arith, key-find_by id xs {x = x})

  pub is_some-find_by : (id : ℕ) (xs : List A) → is_some (find_by id xs) ≡ contains (map key xs) id
  is_some-find_by id [] = refl
  is_some-find_by id (x ∷ xs) = ground (arith, is_some-find_by id xs)

  pub any-contains : (id : ℕ) (xs : List A) → any (λ x. key x == id) xs ≡ contains (map key xs) id
  any-contains id [] = refl
  any-contains id (x ∷ xs) = ground (arith, any-contains id xs)

  pub all-find_by :
      (p : A → Bool) (id : ℕ) (xs : List A) {x : A}
      → all p xs ≡ true
      → find_by id xs ≡ some x
      → p x ≡ true
  all-find_by p id [] a h = ground arith
  all-find_by p id (y ∷ xs) {x} a h = ground (arith, all-find_by p id xs {x = x})

  pub any-false-find_by :
      (p : A → Bool) (id : ℕ) (xs : List A) {x : A}
      → any p xs ≡ false
      → find_by id xs ≡ some x
      → p x ≡ false
  any-false-find_by p id [] a h = ground arith
  any-false-find_by p id (y ∷ xs) {x} a h = ground (arith, any-false-find_by p id xs {x = x})

  pub all-modify_by :
      (p : A → Bool) (id : ℕ) (f : A → A) (xs : List A) {x : A}
      → all p xs ≡ true
      → find_by id xs ≡ some x
      → p (f x) ≡ true
      → all p (modify_by id f xs) ≡ true
  all-modify_by p id f [] a h k = refl
  all-modify_by p id f (y ∷ xs) {x} a h k = ground (arith, all-modify_by p id f xs {x = x})

  module _ (id : ℕ) (f : A → A) (same : (x : A) → key (f x) ≡ key x) where
    pub map-modify_by : (xs : List A) → map key (modify_by id f xs) ≡ map key xs
    map-modify_by [] = refl
    map-modify_by (x ∷ xs) = ground (arith, map-modify_by xs, same x)

    pub find_by-modify_by_self :
        (xs : List A) {x : A} → find_by id xs ≡ some x → find_by id (modify_by id f xs) ≡ some (f x)
    find_by-modify_by_self [] h = ground arith
    find_by-modify_by_self (y ∷ xs) {x} h =
        ground (arith, find_by-modify_by_self xs {x = x}, same y)

    pub find_by-modify_by_other :
        (j : ℕ) (xs : List A) → (id == j) ≡ false → find_by j (modify_by id f xs) ≡ find_by j xs
    find_by-modify_by_other j [] h = refl
    find_by-modify_by_other j (y ∷ xs) h = ground (arith, find_by-modify_by_other j xs, same y)

  -- One record is changed, and the others stay.
  pub Pairs-modify_by :
      (R : A → A → Type 0) (id : ℕ) (f : A → A)
      → ((x : A) → R x x)
      → (xs : List A) → ((x : A) → find_by id xs ≡ some x → R x (f x))
      → Pairs R xs (modify_by id f xs)
  Pairs-modify_by R id f r [] h = tt
  Pairs-modify_by R id f r (y ∷ ys) h = elim (Bool-cases (key y == id)) [
    | inl e ↦ rw e (h y (rw e), Pairs-refl R r ys)
    | inr e ↦ rw e (r y, Pairs-modify_by R id f r ys (λ x found. h x (rw e found)))
  ]

module _ {A : Type 0} (key : A → ℕ) where
  absent :
      (id : ℕ) (f : A → A) (xs : List A)
      → contains (map key xs) id ≡ false
      → Pairs (λ x y. y ≡ (if key x == id then f x else x)) xs xs
  absent id f [] h = tt
  absent id f (x ∷ xs) h =
      let off : (key x == id) ≡ false = ground arith in (rw off, absent id f xs (ground arith))

  -- With distinct keys the first record with the key is the only one.
  pub Pairs-modify_by_all :
      (id : ℕ) (f : A → A) (xs : List A)
      → Distinct (map key xs)
      → Pairs (λ x y. y ≡ (if key x == id then f x else x)) xs (modify_by key id f xs)
  Pairs-modify_by_all id f [] d = tt
  Pairs-modify_by_all id f (x ∷ xs) d = elim (Bool-cases (key x == id)) [
    | inl e ↦
        let same : key x ≡ id = ground arith in
        rw e (ground arith, absent id f xs (subst (λ k. contains (map key xs) k ≡ false) same d.0))
    | inr e ↦ rw e (ground arith, Pairs-modify_by_all id f xs d.1)
  ]

  -- Related lists of records are searched alike.
  pub find_by-Pairs :
      (R : A → A → Type 0)
      → ((x y : A) → R x y → key y ≡ key x)
      → (id : ℕ) (xs ys : List A) {y : A} → Pairs R xs ys
      → find_by key id ys ≡ some y
      → (x : A) × (find_by key id xs ≡ some x) × R x y
  find_by-Pairs R k id [] [] p h = absurd (cc h)
  find_by-Pairs R k id [] (z ∷ ys) p h = absurd p
  find_by-Pairs R k id (x ∷ xs) [] p h = absurd p
  find_by-Pairs R k id (x ∷ xs) (z ∷ ys) {y} p h =
      let same = k x z p.0 in
      elim (Bool-cases (key z == id)) [
        | inl e ↦
            let here : z ≡ y = ground arith in
            let e' : (key x == id) ≡ true = ground arith in (x, rw e', subst (R x) here p.0)
        | inr e ↦
            let e' : (key x == id) ≡ false = ground arith in
            let (w, found, r) = find_by-Pairs R k id xs ys {y = y} p.1 (ground arith) in
            (w, rw e' found, r)
      ]

  pub Pairs-find_by :
      (R : A → A → Type 0)
      → ((x y : A) → R x y → key y ≡ key x)
      → (id : ℕ) (xs ys : List A) {x : A} → Pairs R xs ys
      → find_by key id xs ≡ some x
      → (y : A) × (find_by key id ys ≡ some y) × R x y
  Pairs-find_by R k id [] [] p h = absurd (cc h)
  Pairs-find_by R k id [] (z ∷ ys) p h = absurd p
  Pairs-find_by R k id (x ∷ xs) [] p h = absurd p
  Pairs-find_by R k id (w ∷ xs) (z ∷ ys) {x} p h =
      let same = k w z p.0 in
      elim (Bool-cases (key w == id)) [
        | inl e ↦
            let here : w ≡ x = ground arith in
            let e' : (key z == id) ≡ true = ground arith in (z, rw e', subst (λ u. R u z) here p.0)
        | inr e ↦
            let e' : (key z == id) ≡ false = ground arith in
            let (v, found, r) = Pairs-find_by R k id xs ys {x = x} p.1 (ground arith) in
            (v, rw e' found, r)
      ]

  pub map-Pairs :
      (R : A → A → Type 0)
      → ((x y : A) → R x y → key y ≡ key x)
      → (xs ys : List A) → Pairs R xs ys
      → map key ys ≡ map key xs
  map-Pairs R k [] [] p = refl
  map-Pairs R k [] (y ∷ ys) p = absurd p
  map-Pairs R k (x ∷ xs) [] p = absurd p
  map-Pairs R k (x ∷ xs) (y ∷ ys) p = ground (arith, k x y p.0, map-Pairs R k xs ys p.1)
