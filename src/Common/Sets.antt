-- ===== src/Common/Sets.antt =====
-- `HashSet<Id>` as a list without repetition; only membership and size are observed.
use Prim.Native.Nat.{ℕ, zero, suc, ◌+◌, ◌≤◌}
use mathlib.Core.Path.{◌≡◌, refl, sym, ◌∙◌}
use mathlib.Core.Bool.{Bool, true, false, not, ◌&&◌, ◌||◌}
use mathlib.Core.List.{List, [], ◌∷◌, ◌++◌}
use native.Mathlib.Omega.{arith}
use bastet_workstation.Common.Branches.{if◌then◌else◌, ◌==◌, Bool-cases}
use bastet_workstation.Common.Lists.{length, take, any, all}
use mathlib.Core.Logic.{◌↔◌, inl, inr}

abbrev pub contains : List ℕ → ℕ → Bool
contains [] a = false
contains (x ∷ xs) a = x == a || contains xs a

abbrev pub insert : ℕ → List ℕ → List ℕ
insert a s = if contains s a then s else a ∷ s

abbrev pub remove : ℕ → List ℕ → List ℕ
remove a [] = []
remove a (x ∷ xs) = let rest = remove a xs in if x == a then rest else x ∷ rest

abbrev pub collect_from : List ℕ → List ℕ → List ℕ
collect_from s [] = s
collect_from s (x ∷ xs) = collect_from (insert x s) xs

-- `.collect::<HashSet<_>>()`
abbrev pub collect : List ℕ → List ℕ
collect xs = collect_from [] xs

-- `==` on sets.
abbrev pub same_set : List ℕ → List ℕ → Bool
same_set s t = all (contains t) s && all (contains s) t

abbrev pub Distinct : List ℕ → Type 0
Distinct [] = Unit {0}
Distinct (x ∷ xs) = (contains xs x ≡ false) × Distinct xs

pub contains-insert : (a b : ℕ) (s : List ℕ) → contains (insert a s) b ≡ (a == b || contains s b)
contains-insert a b s = elim (Bool-cases (contains s a)) [
  | inl e ↦ ground arith
  | inr e ↦ ground arith
]

pub contains-collect_from :
    (s xs : List ℕ) (b : ℕ) → contains (collect_from s xs) b ≡ (contains s b || contains xs b)
contains-collect_from s [] b = ground arith
contains-collect_from s (x ∷ xs) b =
    ground (arith, contains-collect_from (insert x s) xs b, contains-insert x b s)

pub contains-collect : (xs : List ℕ) (b : ℕ) → contains (collect xs) b ≡ contains xs b
contains-collect xs b = contains-collect_from [] xs b

pub length-collect_from-le : (s xs : List ℕ) → length (collect_from s xs) ≤ length s + length xs
length-collect_from-le s [] = omega arith
length-collect_from-le s (x ∷ xs) = ground (arith, length-collect_from-le (insert x s) xs)

pub all_elim :
    (p : ℕ → Bool) (xs : List ℕ) (a : ℕ) → all p xs ≡ true → contains xs a ≡ true → p a ≡ true
all_elim p [] a h m = ground arith
all_elim p (x ∷ xs) a h m = ground (arith, all_elim p xs a)

pub all_intro :
    (p : ℕ → Bool) (xs : List ℕ) → ((a : ℕ) → contains xs a ≡ true → p a ≡ true) → all p xs ≡ true
all_intro p [] h = refl
all_intro p (x ∷ xs) h = ground (arith, h x, all_intro p xs (λ a m. h a (ground arith)))

pub contains-remove :
    (a b : ℕ) (s : List ℕ) → contains (remove a s) b ≡ (contains s b && not (a == b))
contains-remove a b [] = refl
contains-remove a b (x ∷ xs) = ground (arith, contains-remove a b xs)

abbrev Apart : List ℕ → List ℕ → Type 0
Apart s xs = (x : ℕ) → contains xs x ≡ true → contains s x ≡ false

Distinct-of_length :
    (s xs : List ℕ) → length (collect_from s xs) ≡ length s + length xs → Distinct xs × Apart s xs
Distinct-of_length s [] h = (tt, λ x m. absurd (cc m))
Distinct-of_length s (x ∷ xs) h = elim (Bool-cases (contains s x)) [
  | inl old ↦ absurd (ground (arith, length-collect_from-le s xs))
  | inr new ↦
      let (distinct, apart) = Distinct-of_length (x ∷ s) xs (ground arith) in
      (
        (ground (arith, apart x), distinct),
        λ y m. elim (Bool-cases (x == y)) [
          | inl e ↦ ground arith
          | inr e ↦ ground (arith, apart y)
        ],
      )
]

length_of_Distinct :
    (s xs : List ℕ) → Distinct xs → Apart s xs → length (collect_from s xs) ≡ length s + length xs
length_of_Distinct s [] d apart = omega arith
length_of_Distinct s (x ∷ xs) d apart =
    let new : contains s x ≡ false = apart x (ground arith) in
    let further : Apart (x ∷ s) xs = λ y m. ground (arith, apart y) in
    ground (arith, length_of_Distinct (x ∷ s) xs d.1 further)

-- The test for duplicates by the size of the set.
pub length-collect-Distinct :
    (xs : List ℕ) → (length (collect xs) == length xs) ≡ true ↔ Distinct xs
length-collect-Distinct xs = (
  λ h. (Distinct-of_length [] xs (ground arith)).0,
  λ d. ground (arith, length_of_Distinct [] xs d (λ x m. refl)),
)

pub any-false :
    (p : ℕ → Bool) (xs : List ℕ) (a : ℕ) → any p xs ≡ false → contains xs a ≡ true → p a ≡ false
any-false p [] a h m = absurd (cc m)
any-false p (x ∷ xs) a h m = ground (arith, any-false p xs a)

pub any-false_intro :
    (p : ℕ → Bool) (xs : List ℕ) → ((a : ℕ) → contains xs a ≡ true → p a ≡ false) → any p xs ≡ false
any-false_intro p [] h = refl
any-false_intro p (x ∷ xs) h = ground (arith, h x, any-false_intro p xs (λ a m. h a (ground arith)))

-- Two sets are equal exactly when they have the same members.
pub same_set_iff : (s t : List ℕ) → same_set s t ≡ true ↔ ((a : ℕ) → contains s a ≡ contains t a)
same_set_iff s t = (forth, back)
  where
    forth : same_set s t ≡ true → (a : ℕ) → contains s a ≡ contains t a
    forth h a = ground (arith, all_elim (contains t) s a, all_elim (contains s) t a)

    back : ((a : ℕ) → contains s a ≡ contains t a) → same_set s t ≡ true
    back h =
        let there : all (contains t) s ≡ true = all_intro (contains t) s (λ a m. sym (h a) ∙ m) in
        let here : all (contains s) t ≡ true = all_intro (contains s) t (λ a m. h a ∙ m) in
        ground arith

pub contains-append :
    (xs ys : List ℕ) (a : ℕ) → contains (xs ++ ys) a ≡ (contains xs a || contains ys a)
contains-append [] ys a = refl
contains-append (x ∷ xs) ys a = ground (arith, contains-append xs ys a)

pub Distinct-snoc :
    (xs : List ℕ) (a : ℕ) → Distinct xs → contains xs a ≡ false → Distinct (xs ++ a ∷ [])
Distinct-snoc [] a d f = (refl, tt)
Distinct-snoc (x ∷ xs) a d f =
    (ground (arith, contains-append xs (a ∷ []) x), Distinct-snoc xs a d.1 (ground arith))

pub contains-take :
    (n : ℕ) (xs : List ℕ) (a : ℕ) → contains (take n xs) a ≡ true → contains xs a ≡ true
contains-take zero xs a h = absurd (cc h)
contains-take (suc n) [] a h = absurd (cc h)
contains-take (suc n) (x ∷ xs) a h = ground (arith, contains-take n xs a)

pub any-true :
    (p : ℕ → Bool) (xs : List ℕ) → any p xs ≡ true → (a : ℕ) × (contains xs a ≡ true) × (p a ≡ true)
any-true p [] h = absurd (cc h)
any-true p (x ∷ xs) h = elim (Bool-cases (p x)) [
  | inl e ↦ (x, ground arith, e)
  | inr e ↦ let (a, m, q) = any-true p xs (ground arith) in (a, ground arith, q)
]

pub any_intro :
    (p : ℕ → Bool) (xs : List ℕ) (a : ℕ) → contains xs a ≡ true → p a ≡ true → any p xs ≡ true
any_intro p [] a m q = absurd (cc m)
any_intro p (x ∷ xs) a m q = ground (arith, any_intro p xs a)
