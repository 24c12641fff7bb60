-- ===== src/Store/Revoked.antt =====
-- A grant that was revoked is never used.
use bastet_workstation.Common.{
  ℕ, String, ◌≡◌, refl, sym, subst, ◌∙◌, inl, inr, Bool-cases, true, is_some, Option, none, some,
  List, [], ◌∷◌, Result, ok, ◌>>=◌, Holds, Holds-ok, Holds-err, Holds-then, Holds-when, key-find_by,
  arith, ◌==◌,
}
use bastet_workstation.Store.{Libraries, Tables, StoreError, GrantRow}
use bastet_workstation.Store.Statements.{is_unspent, revoke_grant_at, exactly_one}
use bastet_workstation.Store.Grants.{CredentialGrantRecord}
use bastet_workstation.Store.Spend.{revoke_credential_grant}
use bastet_workstation.Store.Calls.{Call, apply_call}
use bastet_workstation.Store.Later.{Later, GrantLater, find_grant, find_by-update_where}
use bastet_workstation.Store.Keeps.{cancel_for_request-Later}
use bastet_workstation.Store.Evolution.{apply_call-Later}
use bastet_workstation.Store.Spending.{IsFree}
use bastet_workstation.Store.Once.{spends, count_spends, spends-IsFree}
use bastet_workstation.Store.Loaded.{loading, timing, in_time}
use bastet_workstation.Store.Agreement.{usable_grant}

abbrev IsRevoked : ℕ → Tables → Type 0
IsRevoked id t =
    (g : GrantRow) × (find_grant id t.grants ≡ some g) × (is_some g.revoked_at_ms ≡ true)

later_revoked :
    (o : Option GrantRow) (g : GrantRow)
    → is_some g.revoked_at_ms ≡ true
    → GrantLater (some g) o
    → (h : GrantRow) × (o ≡ some h) × (is_some h.revoked_at_ms ≡ true)
later_revoked none g s l = absurd l
later_revoked (some h) g s (i, inl e) =
    (h, refl, subst (λ (z : GrantRow). is_some z.revoked_at_ms ≡ true) (sym e) s)
later_revoked (some h) g s (i, inr (u, o)) = absurd (ground (arith, u.1))

IsRevoked-Later : (id : ℕ) (t u : Tables) → Later t u → IsRevoked id t → IsRevoked id u
IsRevoked-Later id t u l (g, found, s) =
    later_revoked (find_grant id u.grants) g s
      (subst (λ o. GrantLater o (find_grant id u.grants)) found (l.of_grants id))

-- The update revokes the row that was read.
revoke-IsRevoked :
    (t : Tables) (id : ℕ) (time : GrantRow → ℕ) (actor : String) (e : StoreError)
    → IsFree id t
    → Holds (IsRevoked id) (exactly_one (revoke_grant_at id time actor t) e)
revoke-IsRevoked t id time actor e (g, found, unused) =
    let revoke =
      λ (r : GrantRow). record r { revoked_at_ms = some (time r); revoked_by = some actor } in
    let key = λ (r : GrantRow). r.request_id in
    let here : is_unspent id g ≡ true =
      ground (arith, key-find_by key id t.grants found, unused.0, unused.1) in
    let row : find_grant id (revoke_grant_at id time actor t).0.grants ≡ some (revoke g) =
      find_by-update_where key (is_unspent id) revoke (λ x. refl) id t.grants
      ∙ rw found (rw here refl) in
    elim (Bool-cases ((revoke_grant_at id time actor t).1 == 1)) [
      | inl y ↦ rw y (Holds-ok (IsRevoked id) _ _ refl (revoke g, row, refl))
      | inr y ↦ rw y (Holds-err (IsRevoked id) e)
    ]

module _ (P : Tables × CredentialGrantRecord → Type 0) (id : ℕ) where
  revoking :
      (t : Tables) (time : GrantRow → ℕ) (actor : String) (e : StoreError)
      (k : Tables → Result (Tables × CredentialGrantRecord) StoreError)
      → IsFree id t
      → ((u : Tables) → IsRevoked id u → Holds P (k u))
      → Holds P (exactly_one (revoke_grant_at id time actor t) e >>= k)
  revoking t time actor e k free rest =
      Holds-then P (IsRevoked id) _ k (revoke-IsRevoked t id time actor e free) rest

  cancelling :
      (u : Tables) (r : Result Tables StoreError)
      (k : Tables → Result (Tables × CredentialGrantRecord) StoreError)
      → Holds (Later u) r
      → IsRevoked id u
      → ((v : Tables) → IsRevoked id v → Holds P (k v))
      → Holds P (r >>= k)
  cancelling u r k later revoked rest =
      Holds-then P (Later u) r k later (λ v l. rest v (IsRevoked-Later id u v l revoked))

answer-IsRevoked :
    (id : ℕ) (u : Tables) (a : CredentialGrantRecord)
    → IsRevoked id u
    → Holds {E = StoreError} (λ (p : Tables × CredentialGrantRecord). IsRevoked id p.0) (ok (u, a))
answer-IsRevoked id u a h =
    Holds-ok (λ (p : Tables × CredentialGrantRecord). IsRevoked id p.0) _ (u, a) refl h

revoke_credential_grant-IsRevoked :
    (lib : Libraries) (t : Tables) (id : ℕ) (actor : String) (clock later : Option ℕ)
    → Holds
        (λ (p : Tables × CredentialGrantRecord). IsRevoked id p.0)
        (revoke_credential_grant lib t id actor clock later)
unfolding revoke_credential_grant
revoke_credential_grant-IsRevoked lib t id actor clock later =
    search
      (
        loading,
        timing,
        in_time,
        Holds-when,
        revoking (λ p. IsRevoked id p.0) id,
        cancelling (λ p. IsRevoked id p.0) id,
        usable_grant lib,
        cancel_for_request-Later lib,
        answer-IsRevoked id,
      )
      depth 24

revoked_is_not_free : (id : ℕ) (t : Tables) → IsRevoked id t → IsFree id t → ⊥
revoked_is_not_free id t (h, there, revoked) (g, found, unused) =
    let same : some g ≡ some h = sym found ∙ there in ground (arith, unused.1)

never_spent :
    (lib : Libraries) (id : ℕ) (t : Tables) (cs : List Call)
    → IsRevoked id t
    → count_spends lib id t cs ≡ 0
unfolding count_spends
never_spent lib id t [] revoked = refl
never_spent lib id t (c ∷ cs) revoked = elim (Bool-cases (spends lib id t c)) [
  | inl e ↦ absurd (revoked_is_not_free id t revoked (spends-IsFree lib id t c e).0)
  | inr e ↦ rw e (
      never_spent lib id (apply_call lib t c) cs
        (IsRevoked-Later id t (apply_call lib t c) (apply_call-Later lib t c) revoked))
]

-- Once the grant of a request has been revoked by a successful call, no later calls spend it.
pub revoke_credential_grant-never_spent :
    (lib : Libraries) (t : Tables) (id : ℕ) (actor : String) (clock later : Option ℕ) (u : Tables)
    (grant : CredentialGrantRecord) (cs : List Call)
    → revoke_credential_grant lib t id actor clock later ≡ ok (u, grant)
    → count_spends lib id u cs ≡ 0
revoke_credential_grant-never_spent lib t id actor clock later u grant cs h =
    never_spent lib id u cs
      ((revoke_credential_grant-IsRevoked lib t id actor clock later).at (u, grant) h)
