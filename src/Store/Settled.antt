-- ===== src/Store/Settled.antt =====
-- What the state of a staged launch says of its grant, and how the statements keep it.
use bastet_workstation.Common.{
  ℕ, String, ◌≡◌, refl, sym, subst, Bool, Bool-cases, true, false, ◌&&◌, ◌||◌, Option, Option-cases,
  none, some, is_some, List, ◌∷◌, key-find_by, arith, inl, inr, ◌==◌,
}
use bastet_workstation.Store.{Tables, StagedState, StagedRow, GrantRow}
use bastet_workstation.Store.Statements.{
  update_where, is_unspent, is_cancelled_row, revoke_grant_at, move_staged, fresh_grant,
}
use bastet_workstation.Store.Cancel.{is_open_launch, cancel_launch, revoke_unspent, max}
use bastet_workstation.Store.Later.{
  find_grant, find_staged, changed, map_option, find_by-update_where,
}

abbrev pub is_spent : Option GrantRow → Bool
is_spent none = false
is_spent (some g) = is_some g.consumed_at_ms

abbrev pub is_dead : Option GrantRow → Bool
is_dead none = true
is_dead (some g) = is_some g.consumed_at_ms || is_some g.revoked_at_ms

-- A launch that was dispatched spent its grant, and a cancelled one has none that can be used.
abbrev pub demand : StagedState → Option GrantRow → Bool
demand StagedState.awaiting_approval g = true
demand StagedState.ready g = true
demand StagedState.cancelled g = is_dead g
demand StagedState.dispatching g = is_spent g
demand StagedState.uncertain g = is_spent g

abbrev pub settled : Option StagedRow → Option GrantRow → Bool
settled none g = true
settled (some s) g = demand s.state g

abbrev pub IsSettled : Tables → Type 0
IsSettled t = (j : ℕ) → settled (find_staged j t.staged) (find_grant j t.grants) ≡ true

-- The same, but for the grant of one launch if it was cancelled.
abbrev pub nearly : ℕ → ℕ → Option StagedRow → Option GrantRow → Bool
nearly id j none g = true
nearly id j (some s) g = demand s.state g || (is_cancelled_row s.state && j == id)

abbrev pub IsNearly : ℕ → Tables → Type 0
IsNearly id t = (j : ℕ) → nearly id j (find_staged j t.staged) (find_grant j t.grants) ≡ true

pub settled-same :
    (t u : Tables) → u.grants ≡ t.grants → u.staged ≡ t.staged → IsSettled t → IsSettled u
settled-same t u g s h j =
    subst (λ rows. settled (find_staged j rows) (find_grant j u.grants) ≡ true) (sym s)
      (subst (λ rows. settled (find_staged j t.staged) (find_grant j rows) ≡ true) (sym g) (h j))

-- A grant that is not used may change in any way.
unused_free :
    (id : ℕ) (s : Option StagedRow) (g h : GrantRow)
    → is_unspent id g ≡ true
    → settled s (some g) ≡ true
    → settled s (some h) ≡ true
unused_free id none g h u d = refl
unused_free id (some s) g h u d = ground arith

changed_grant :
    (id : ℕ) (f : GrantRow → GrantRow) (s : Option StagedRow) (o : Option GrantRow)
    → settled s o ≡ true
    → settled s (map_option (changed (is_unspent id) f) o) ≡ true
changed_grant id f s none d = d
changed_grant id f s (some g) d = elim (Bool-cases (is_unspent id g)) [
  | inl e ↦ rw e (unused_free id s g (f g) e d)
  | inr e ↦ rw e d
]

pub settled-grants :
    (t : Tables) (id : ℕ) (f : GrantRow → GrantRow)
    → ((g : GrantRow) → (f g).request_id ≡ g.request_id)
    → IsSettled t
    → IsSettled (record t { grants = update_where (is_unspent id) f t.grants })
settled-grants t id f same h j =
    subst (λ o. settled (find_staged j t.staged) o ≡ true)
      (sym
        (find_by-update_where (λ (r : GrantRow). r.request_id) (is_unspent id) f same j t.grants))
      (changed_grant id f (find_staged j t.staged) (find_grant j t.grants) (h j))

-- A launch that an update finds is the old one, moved or not.
pub found_after :
    (C : Option StagedRow → Type 0) (p : StagedRow → Bool) (f : StagedRow → StagedRow)
    → ((r : StagedRow) → (f r).request_id ≡ r.request_id)
    → (j : ℕ) (rows : List StagedRow) → (find_staged j rows ≡ none → C none)
    → ((r : StagedRow)
        → find_staged j rows ≡ some r
        → r.request_id ≡ j
        → (p r ≡ true → C (some (f r))) × (p r ≡ false → C (some r)))
    → C (find_staged j (update_where p f rows))
found_after C p f same j rows absent present =
    subst C (sym (find_by-update_where (λ (r : StagedRow). r.request_id) p f same j rows))
      (elim (Option-cases (find_staged j rows)) [
        | inl e ↦ rw e (absent e)
        | inr (r, e) ↦
            let key = key-find_by (λ (r : StagedRow). r.request_id) j rows e in
            let moved = present r e key in
            elim (Bool-cases (p r)) [
              | inl y ↦ rw e (rw y (moved.0 y))
              | inr y ↦ rw e (rw y (moved.1 y))
            ]
      ])

-- A move of launches to a state whose demand is met.
pub settled-move :
    (t : Tables) (p : StagedRow → Bool) (f : StagedRow → StagedRow)
    → ((r : StagedRow) → (f r).request_id ≡ r.request_id)
    → ((r : StagedRow)
        → p r ≡ true
        → demand r.state (find_grant r.request_id t.grants) ≡ true
        → demand (f r).state (find_grant r.request_id t.grants) ≡ true)
    → IsSettled t
    → IsSettled (record t { staged = update_where p f t.staged })
settled-move t p f same met h j =
    let grant = λ (k : ℕ). find_grant k t.grants in
    found_after (λ o. settled o (grant j) ≡ true) p f same j t.staged (λ e. refl)
      (λ r e key.
        let old : demand r.state (grant j) ≡ true =
          subst (λ o. settled o (grant j) ≡ true) e (h j) in
        (
          λ y.
              subst (λ k. demand r.state (grant k) ≡ true → demand (f r).state (grant k) ≡ true) key
                (met r y) old,
          λ n. old,
        ))

-- The cancellation of a launch leaves only its own grant to be revoked.
pub nearly-cancel :
    (t : Tables) (id at : ℕ) (reason : String)
    → IsSettled t
    → IsNearly id (move_staged (is_open_launch id) (cancel_launch at reason) t).0
nearly-cancel t id at reason h j =
    let grant = find_grant j t.grants in
    found_after (λ o. nearly id j o grant ≡ true) (is_open_launch id) (cancel_launch at reason)
      (λ r. refl) j t.staged (λ e. refl)
      (λ r e key.
        let old : demand r.state grant ≡ true = subst (λ o. settled o grant ≡ true) e (h j) in
        (λ y. ground arith, λ n. ground arith))

revoked_grant :
    (id j : ℕ) (f : GrantRow → GrantRow) (s : Option StagedRow) (o : Option GrantRow)
    → ((g : GrantRow) → is_dead (some (f g)) ≡ true)
    → ((g : GrantRow) → o ≡ some g → g.request_id ≡ j)
    → nearly id j s o ≡ true
    → settled s (map_option (changed (is_unspent id) f) o) ≡ true
revoked_grant id j f none o dead key d = refl
revoked_grant id j f (some s) none dead key d = ground arith
revoked_grant id j f (some s) (some g) dead key d = elim (Bool-cases (is_unspent id g)) [
  | inl e ↦ let gone = dead g in let same = key g refl in rw e (ground arith)
  | inr e ↦ let same = key g refl in rw e (ground arith)
]

-- The revocation that follows it settles the launch.
pub settled-revoke_unspent :
    (t : Tables) (id at : ℕ) → IsNearly id t → IsSettled (revoke_unspent id at t)
settled-revoke_unspent t id at h =
    let revoke = λ (g : GrantRow). record g {
      revoked_at_ms = some (max g.issued_at_ms at);
      revoked_by = some "daemon:staged_launch_cancelled";
    } in
    let revoked =
      revoke_grant_at id (λ (g : GrantRow). max g.issued_at_ms at) "daemon:staged_launch_cancelled"
        t in
    let key = λ (r : GrantRow). r.request_id in
    let l : IsSettled revoked.0 = λ j.
      subst (λ o. settled (find_staged j t.staged) o ≡ true)
        (sym (find_by-update_where key (is_unspent id) revoke (λ g. refl) j t.grants))
        (revoked_grant id j revoke (find_staged j t.staged) (find_grant j t.grants)
          (λ g. ground arith) (λ g e. key-find_by key j t.grants e) (h j)) in
    elim (Bool-cases (revoked.1 == 1)) [ inl e ↦ rw e l | inr e ↦ rw e l ]

still_nearly :
    (id j : ℕ) (s : Option StagedRow) (o : Option GrantRow)
    → settled s o ≡ true
    → nearly id j s o ≡ true
still_nearly id j none o d = refl
still_nearly id j (some r) o d = ground arith

pub settled-nearly : (t : Tables) (id : ℕ) → IsSettled t → IsNearly id t
settled-nearly t id h j = still_nearly id j (find_staged j t.staged) (find_grant j t.grants) (h j)

-- A new grant for a request, which the decision is still to be applied to.
pub nearly-new_grant :
    (t : Tables) (id at : ℕ)
    → find_grant id t.grants ≡ none
    → IsSettled t
    → IsNearly id (record t { grants = fresh_grant id at ∷ t.grants })
nearly-new_grant t id at fresh h j = elim (Bool-cases (id == j)) [
  | inl e ↦ rw e (
      here (find_staged j t.staged) e (
        subst (λ o. settled (find_staged j t.staged) o ≡ true)
          (subst (λ k. find_grant k t.grants ≡ none) (ground arith) fresh) (h j)))
  | inr e ↦ rw e (still_nearly id j (find_staged j t.staged) (find_grant j t.grants) (h j))
]
  where
    here :
        (s : Option StagedRow)
        → (id == j) ≡ true
        → settled s none ≡ true
        → nearly id j s (some (fresh_grant id at)) ≡ true
    here none e d = refl
    here (some r) e d = ground arith

-- A launch that is not cancelled is settled after all.
pub nearly-settled :
    (t : Tables) (id : ℕ)
    → IsNearly id t
    → ((r : StagedRow) → find_staged id t.staged ≡ some r → is_cancelled_row r.state ≡ false)
    → IsSettled t
nearly-settled t id h open_ j = elim (Option-cases (find_staged j t.staged)) [
  | inl e ↦ rw e refl
  | inr (r, e) ↦
      let near : nearly id j (some r) (find_grant j t.grants) ≡ true =
        subst (λ o. nearly id j o (find_grant j t.grants) ≡ true) e (h j) in
      elim (Bool-cases (j == id)) [
        | inl y ↦
            let same : j ≡ id = ground arith in
            let kept = open_ r (subst (λ k. find_staged k t.staged ≡ some r) same e) in
            rw e (ground arith)
        | inr y ↦ rw e (ground arith)
      ]
]
