-- ===== src/Store/Later.antt =====
-- How the rows of a grant and of a staged launch may change.
use bastet_workstation.Common.{
  ℕ, ◌≡◌, refl, sym, subst, ◌∙◌, ◌⊎◌, inl, inr, Bool, true, false, Option, none, some, is_none,
  List, [], ◌∷◌, find_by, Bool-cases, arith, ◌==◌, if◌then◌else◌,
}
use bastet_workstation.Store.{StagedState, GrantRow, StagedRow, Tables}
use bastet_workstation.Store.Statements.{update_where, is_unspent}

-- The grant was neither spent nor revoked, and it was not both.
abbrev pub IsUnused : GrantRow → Type 0
IsUnused g = (g.consumed_at_ms ≡ none) × (g.revoked_at_ms ≡ none)

abbrev pub IsOneUse : GrantRow → Type 0
IsOneUse g = (g.consumed_at_ms ≡ none) ⊎ (g.revoked_at_ms ≡ none)

-- A grant keeps its time of issue, and once it is spent or revoked, its row never changes again.
abbrev pub GrantLater : Option GrantRow → Option GrantRow → Type 0
GrantLater none none = Unit {0}
GrantLater none (some h) = IsOneUse h
GrantLater (some g) none = ⊥
GrantLater (some g) (some h) =
    (h.issued_at_ms ≡ g.issued_at_ms) × ((h ≡ g) ⊎ (IsUnused g × IsOneUse h))

-- The diagram of a staged launch.
abbrev pub leads_to : StagedState → StagedState → Bool
leads_to StagedState.awaiting_approval b = true
leads_to StagedState.ready StagedState.awaiting_approval = false
leads_to StagedState.ready b = true
leads_to StagedState.dispatching StagedState.dispatching = true
leads_to StagedState.dispatching StagedState.uncertain = true
leads_to StagedState.dispatching b = false
leads_to StagedState.cancelled StagedState.cancelled = true
leads_to StagedState.cancelled b = false
leads_to StagedState.uncertain StagedState.uncertain = true
leads_to StagedState.uncertain b = false

-- A staged launch keeps its run and its time, and its state follows the diagram.
abbrev pub StagedLater : Option StagedRow → Option StagedRow → Type 0
StagedLater none s = Unit {0}
StagedLater (some r) none = ⊥
StagedLater (some r) (some s) =
    (s.run_id ≡ r.run_id) × (s.staged_at_ms ≡ r.staged_at_ms) × (leads_to r.state s.state ≡ true)

abbrev pub map_option {ℓ} : {A : Type ℓ} → (A → A) → Option A → Option A
map_option f none = none
map_option f (some a) = some (f a)

pub is_none-eq {ℓ} : {A : Type ℓ} (o : Option A) → is_none o ≡ true → o ≡ none
is_none-eq none h = refl
is_none-eq (some a) h = absurd (cc h)

abbrev pub find_grant : ℕ → List GrantRow → Option GrantRow
find_grant = find_by (λ (r : GrantRow). r.request_id)

abbrev pub find_staged : ℕ → List StagedRow → Option StagedRow
find_staged = find_by (λ (r : StagedRow). r.request_id)

pub record Later (t u : Tables) : Type 0 where
  pub of_grants : (id : ℕ) → GrantLater (find_grant id t.grants) (find_grant id u.grants)
  pub of_staged : (id : ℕ) → StagedLater (find_staged id t.staged) (find_staged id u.staged)

GrantLater-refl : (o : Option GrantRow) → GrantLater o o
GrantLater-refl none = tt
GrantLater-refl (some g) = (refl, inl refl)

use_rest :
    (g h k : GrantRow) → IsUnused g × IsOneUse h → (k ≡ h) ⊎ (IsUnused h × IsOneUse k) → IsOneUse k
use_rest g h k (u, o) (inl e) = subst IsOneUse (sym e) o
use_rest g h k (u, o) (inr (v, p)) = p

GrantLater-trans : (o p q : Option GrantRow) → GrantLater o p → GrantLater p q → GrantLater o q
GrantLater-trans none none q a b = b
GrantLater-trans none (some h) none a b = absurd b
GrantLater-trans none (some h) (some k) a (same, inl e) = subst IsOneUse (sym e) a
GrantLater-trans none (some h) (some k) a (same, inr (u, p)) = p
GrantLater-trans (some g) none q a b = absurd a
GrantLater-trans (some g) (some h) none a b = b
GrantLater-trans (some g) (some h) (some k) (i, inl e) (j, inl f) = (j ∙ i, inl (f ∙ e))
GrantLater-trans (some g) (some h) (some k) (i, inl e) (j, inr (u, p)) =
    (j ∙ i, inr (subst IsUnused e u, p))
GrantLater-trans (some g) (some h) (some k) (i, inr w) (j, r) =
    (j ∙ i, inr (w.0, use_rest g h k w r))

leads_to_refl : (s : StagedState) → leads_to s s ≡ true
leads_to_refl StagedState.awaiting_approval = refl
leads_to_refl StagedState.ready = refl
leads_to_refl StagedState.cancelled = refl
leads_to_refl StagedState.dispatching = refl
leads_to_refl StagedState.uncertain = refl

StagedLater-refl : (o : Option StagedRow) → StagedLater o o
StagedLater-refl none = tt
StagedLater-refl (some r) = (refl, refl, leads_to_refl r.state)

leads_to_trans :
    (a b c : StagedState) → leads_to a b ≡ true → leads_to b c ≡ true → leads_to a c ≡ true
leads_to_trans a b c p q = ground arith

StagedLater-trans : (o p q : Option StagedRow) → StagedLater o p → StagedLater p q → StagedLater o q
StagedLater-trans none p q a b = tt
StagedLater-trans (some r) none q a b = absurd a
StagedLater-trans (some r) (some s) none a b = absurd b
StagedLater-trans (some r) (some s) (some z) (a0, a1, a2) (b0, b1, b2) =
    (b0 ∙ a0, b1 ∙ a1, leads_to_trans r.state s.state z.state a2 b2)

pub Later-refl : (t : Tables) → Later t t
Later-refl t = record {
  of_grants = λ id. GrantLater-refl (find_grant id t.grants);
  of_staged = λ id. StagedLater-refl (find_staged id t.staged);
}

pub Later-trans : (t u v : Tables) → Later t u → Later u v → Later t v
Later-trans t u v a b = record {
  of_grants = λ id.
      GrantLater-trans (find_grant id t.grants) (find_grant id u.grants) (find_grant id v.grants)
        (a.of_grants id) (b.of_grants id);
  of_staged = λ id.
      StagedLater-trans (find_staged id t.staged) (find_staged id u.staged)
        (find_staged id v.staged) (a.of_staged id) (b.of_staged id);
}

-- A change of other tables.
pub Later-same : (t u : Tables) → u.grants ≡ t.grants → u.staged ≡ t.staged → Later t u
Later-same t u g s = record {
  of_grants = λ id.
      subst (λ rows. GrantLater (find_grant id t.grants) (find_grant id rows)) (sym g)
        (GrantLater-refl (find_grant id t.grants));
  of_staged = λ id.
      subst (λ rows. StagedLater (find_staged id t.staged) (find_staged id rows)) (sym s)
        (StagedLater-refl (find_staged id t.staged));
}

abbrev pub changed {ℓ} : {A : Type ℓ} → (A → Bool) → (A → A) → A → A
changed p f x = if p x then f x else x

-- A row that an update finds by its key is the old row, changed if the update is on it.
pub find_by-update_where {ℓ} :
    {A : Type ℓ} (key : A → ℕ) (p : A → Bool) (f : A → A)
    → ((x : A) → key (f x) ≡ key x)
    → (id : ℕ) (xs : List A)
    → find_by key id (update_where p f xs) ≡ map_option (changed p f) (find_by key id xs)
find_by-update_where key p f same id [] = refl
find_by-update_where key p f same id (x ∷ xs) =
    ground (arith, same x, find_by-update_where key p f same id xs)

-- An update of grants that were not used, to grants that are used once.
pub Later-grants :
    (t : Tables) (id : ℕ) (f : GrantRow → GrantRow)
    → ((g : GrantRow) → (f g).request_id ≡ g.request_id)
    → ((g : GrantRow) → (f g).issued_at_ms ≡ g.issued_at_ms)
    → ((g : GrantRow) → IsUnused g → IsOneUse (f g))
    → Later t (record t { grants = update_where (is_unspent id) f t.grants })
Later-grants t id f same time once = record {
  of_grants = λ j.
      subst (GrantLater (find_grant j t.grants))
        (sym
          (find_by-update_where (λ (r : GrantRow). r.request_id) (is_unspent id) f same j t.grants))
        (moved (find_grant j t.grants));
  of_staged = λ j. StagedLater-refl (find_staged j t.staged);
}
  where
    moved : (o : Option GrantRow) → GrantLater o (map_option (changed (is_unspent id) f) o)
    moved none = tt
    moved (some g) = elim (Bool-cases (is_unspent id g)) [
      | inl e ↦
          let unused : IsUnused g = (
            is_none-eq g.consumed_at_ms (ground arith),
            is_none-eq g.revoked_at_ms (ground arith),
          ) in
          rw e (time g, inr (unused, once g unused))
      | inr e ↦ rw e (refl, inl refl)
    ]

-- An update of launches along the diagram.
pub Later-staged :
    (t : Tables) (p : StagedRow → Bool) (f : StagedRow → StagedRow)
    → ((r : StagedRow) → (f r).request_id ≡ r.request_id)
    → ((r : StagedRow) → p r ≡ true → StagedLater (some r) (some (f r)))
    → Later t (record t { staged = update_where p f t.staged })
Later-staged t p f same along = record {
  of_grants = λ j. GrantLater-refl (find_grant j t.grants);
  of_staged = λ j.
      subst (StagedLater (find_staged j t.staged))
        (sym (find_by-update_where (λ (r : StagedRow). r.request_id) p f same j t.staged))
        (moved (find_staged j t.staged));
}
  where
    moved : (o : Option StagedRow) → StagedLater o (map_option (changed p f) o)
    moved none = tt
    moved (some r) = elim (Bool-cases (p r)) [
      | inl e ↦ rw e (along r e)
      | inr e ↦ rw e (StagedLater-refl (some r))
    ]

-- A new grant, unused, for a request that has none.
pub Later-new_grant :
    (t : Tables) (g : GrantRow)
    → find_grant g.request_id t.grants ≡ none
    → IsOneUse g
    → Later t (record t { grants = g ∷ t.grants })
Later-new_grant t g fresh once = record {
  of_grants = λ j. elim (Bool-cases (g.request_id == j)) [
    | inl e ↦
        let there : find_grant j t.grants ≡ none =
          subst (λ k. find_grant k t.grants ≡ none) (ground arith) fresh in
        rw e (rw there once)
    | inr e ↦ rw e (GrantLater-refl (find_grant j t.grants))
  ];
  of_staged = λ j. StagedLater-refl (find_staged j t.staged);
}

-- A new launch, for a request that has none.
pub Later-new_staged :
    (t : Tables) (r : StagedRow)
    → find_staged r.request_id t.staged ≡ none
    → Later t (record t { staged = r ∷ t.staged })
Later-new_staged t r fresh = record {
  of_grants = λ j. GrantLater-refl (find_grant j t.grants);
  of_staged = λ j. elim (Bool-cases (r.request_id == j)) [
    | inl e ↦
        let there : find_staged j t.staged ≡ none =
          subst (λ k. find_staged k t.staged ≡ none) (ground arith) fresh in
        rw e (rw there tt)
    | inr e ↦ rw e (StagedLater-refl (find_staged j t.staged))
  ];
}
