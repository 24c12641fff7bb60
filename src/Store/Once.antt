-- ===== src/Store/Once.antt =====
-- A grant is spent by at most one call.
use bastet_workstation.Common.{
  ℕ, suc, ◌≤◌, ◌≡◌, refl, sym, ap, subst, ◌∙◌, Bool, Bool-cases, true, false, is_some, ◌&&◌, some,
  List, [], ◌∷◌, Result, ok, err, is_ok, Holds, arith, inl, inr, ◌==◌, if◌then◌else◌,
}
use bastet_workstation.Store.{Libraries, Tables, StoreError}
use bastet_workstation.Store.Spend.{consume_credential_grant}
use bastet_workstation.Store.Dispatch.{claim_staged_dispatch}
use bastet_workstation.Store.Calls.{
  Call, stages, creates, decides, consumes, revokes, claims, loses, cancels, expires, reconciles,
  committed_with, apply_call,
}
use bastet_workstation.Store.Evolution.{apply_call-Later}
use bastet_workstation.Store.Spending.{
  IsFree, IsSpent, IsSpent-Later, Spends, consume-Spends, claim-Spends,
}

-- Whether a call spends the grant of this request.
unfoldable pub spends : Libraries → ℕ → Tables → Call → Bool
spends lib id t (consumes j action clock) =
    j == id && is_ok (consume_credential_grant lib t j action clock)
spends lib id t (claims j reader clock) =
    j == id && is_ok (claim_staged_dispatch lib t j reader clock)
spends lib id t _ = false

-- The number of calls that spend it.
unfoldable pub count_spends : Libraries → ℕ → Tables → List Call → ℕ
count_spends lib id t [] = 0
count_spends lib id t (c ∷ cs) =
    let rest = count_spends lib id (apply_call lib t c) cs in
    if spends lib id t c then suc rest else rest

free_or_spent : (id : ℕ) (t : Tables) → IsFree id t → IsSpent id t → ⊥
free_or_spent id t (g, found, unused) (h, there, spent) =
    let same : some g ≡ some h = sym found ∙ there in
    let none_spent : is_some g.consumed_at_ms ≡ false = ap is_some unused.0 in ground arith

answered :
    {A : Type 0} (id : ℕ) (t : Tables) (r : Result (Tables × A) StoreError)
    → is_ok r ≡ true
    → Holds (Spends id t) r
    → IsFree id t × IsSpent id (committed_with t r)
answered id t (ok p) h s = s.at p refl
answered id t (err e) h s = absurd (cc h)

pub spends-IsFree :
    (lib : Libraries) (id : ℕ) (t : Tables) (c : Call)
    → spends lib id t c ≡ true
    → IsFree id t × IsSpent id (apply_call lib t c)
unfolding spends apply_call
spends-IsFree lib id t (consumes j action clock) h =
    let same : j ≡ id = ground arith in
    subst
      (λ k.
        IsFree k t × IsSpent k (committed_with t (consume_credential_grant lib t j action clock)))
      same
      (answered j t (consume_credential_grant lib t j action clock) (ground arith)
        (consume-Spends lib t j action clock))
spends-IsFree lib id t (claims j reader clock) h =
    let same : j ≡ id = ground arith in
    subst
      (λ k. IsFree k t × IsSpent k (committed_with t (claim_staged_dispatch lib t j reader clock)))
      same
      (answered j t (claim_staged_dispatch lib t j reader clock) (ground arith)
        (claim-Spends lib t j reader clock))
spends-IsFree lib id t (stages plan j clock) h = absurd (cc h)
spends-IsFree lib id t (creates r clock) h = absurd (cc h)
spends-IsFree lib id t (decides d acknowledged clock later) h = absurd (cc h)
spends-IsFree lib id t (revokes j actor clock later) h = absurd (cc h)
spends-IsFree lib id t (loses run_id stamp) h = absurd (cc h)
spends-IsFree lib id t (cancels run_id expected clock) h = absurd (cc h)
spends-IsFree lib id t (expires clock clocks) h = absurd (cc h)
spends-IsFree lib id t reconciles h = absurd (cc h)

never_again :
    (lib : Libraries) (id : ℕ) (t : Tables) (cs : List Call)
    → IsSpent id t
    → count_spends lib id t cs ≡ 0
unfolding count_spends
never_again lib id t [] spent = refl
never_again lib id t (c ∷ cs) spent = elim (Bool-cases (spends lib id t c)) [
  | inl e ↦ absurd (free_or_spent id t (spends-IsFree lib id t c e).0 spent)
  | inr e ↦
      let still = IsSpent-Later id t (apply_call lib t c) (apply_call-Later lib t c) spent in
      rw e (never_again lib id (apply_call lib t c) cs still)
]

-- Whatever the calls, at most one of them spends the grant of a request: a successful consume or a
-- successful claim of its launch.
pub spent_at_most_once :
    (lib : Libraries) (id : ℕ) (t : Tables) (cs : List Call) → count_spends lib id t cs ≤ 1
unfolding count_spends
spent_at_most_once lib id t [] = omega arith
spent_at_most_once lib id t (c ∷ cs) = elim (Bool-cases (spends lib id t c)) [
  | inl e ↦
      let none_after = never_again lib id (apply_call lib t c) cs (spends-IsFree lib id t c e).1 in
      rw e (ground (arith, none_after))
  | inr e ↦ rw e (spent_at_most_once lib id (apply_call lib t c) cs)
]
