-- ===== src/Store/Lookup.antt =====
-- The grant is spent before the credential is read, whatever the lookup answers.
use bastet_workstation.Common.{
  ℕ, String, ◌≡◌, ◌≢◌, refl, ◌⊎◌, inl, inr, Option, none, some, List, Result, ok, err, Holds,
}
use bastet_workstation.Store.{Libraries, Tables, StoreError}
use bastet_workstation.Store.Claim.{
  CredentialReader, DispatchClaim, PreparedLaunch, BrokerError, authorization,
}
use bastet_workstation.Store.Dispatch.{
  recover_claim, read_credential, prepare_claim, prepare_staged_credentials, claim_staged_dispatch,
  fail_dispatch_claim,
}
use bastet_workstation.Store.Later.{Later}
use bastet_workstation.Store.Evolution.{fail_dispatch_claim-Later}
use bastet_workstation.Store.Spending.{IsFree, IsSpent, IsSpent-Later, Spends, claim-Spends}

-- Refused, with the tables as they were; or the grant was free and is spent.
abbrev pub IsOnceRead : ℕ → Tables → Tables × Result PreparedLaunch BrokerError → Type 0
IsOnceRead id t (u, r) =
    ((r ≡ err authorization) × (u ≡ t)) ⊎ (IsFree id t × IsSpent id u × (r ≢ err authorization))

module _ (lib : Libraries) (id : ℕ) (t : Tables) where
  recovered :
      (claimed : Tables) (r : Result Tables StoreError)
      → IsFree id t
      → IsSpent id claimed
      → Holds (Later claimed) r
      → IsOnceRead id t (recover_claim lib claimed r)
  recovered claimed (ok failed) free spent later =
      inr (free, IsSpent-Later id claimed failed (later.at failed refl) spent, λ e. cc e)
  recovered claimed (err x) free spent later = inr (free, spent, λ e. cc e)

  looked_up :
      (claimed : Tables) (c : DispatchClaim) (secret : Option (List ℕ)) (stamp : String)
      → IsFree id t
      → IsSpent id claimed
      → IsOnceRead id t (read_credential lib claimed c secret stamp)
  looked_up claimed c (some secret) stamp free spent = inr (free, spent, λ e. cc e)
  looked_up claimed c none stamp free spent =
      recovered claimed (fail_dispatch_claim lib claimed c.receipt.run_id stamp) free spent
        (fail_dispatch_claim-Later lib claimed c.receipt.run_id stamp)

  prepared :
      (reader : CredentialReader) (stamp : String) (r : Result (Tables × DispatchClaim) StoreError)
      → Holds (Spends id t) r
      → IsOnceRead id t (prepare_claim lib t reader stamp r)
  prepared reader stamp (ok (claimed, c)) spends =
      let (free, spent) = spends.at (claimed, c) refl in
      looked_up claimed c (reader.read c.selection) stamp free spent
  prepared reader stamp (err e) spends = inl (refl, refl)

-- Preparing a launch either is refused for want of authorization, and the tables stay as they were; or
-- the grant of the request was neither spent nor revoked, and is spent afterwards, also when the lookup
-- of the credential or the recovery from that failed.
pub prepare_staged_credentials-IsOnceRead :
    (lib : Libraries) (t : Tables) (id : ℕ) (reader : CredentialReader) (clock : Option ℕ)
    (stamp : String)
    → IsOnceRead id t (prepare_staged_credentials lib t id reader clock stamp)
unfolding prepare_staged_credentials
prepare_staged_credentials-IsOnceRead lib t id reader clock stamp =
    prepared lib id t reader stamp (claim_staged_dispatch lib t id reader clock)
      (claim-Spends lib t id reader clock)
