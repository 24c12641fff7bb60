-- ===== src/Approval/Hash.antt =====
-- `canonical_hash` of crates/bastet-core/src/approval.rs. `to_vec` stands for the bytes of serde_json
-- and `sha256` for the sha2 crate.
use Prim.Native.Nat.{◌/◌}
use Prim.Native.String.{◌++◌}
use bastet_workstation.Common.{ℕ, zero, suc, ◌%◌, String, List, [], ◌∷◌}
use bastet_workstation.Identity.{ApprovalRequestId}
use bastet_workstation.Approval.{ApprovalAction}

pub record HashInput : Type 0 where
  pub schema : String
  pub id : ApprovalRequestId
  pub created_at_ms : ℕ
  pub expires_at_ms : ℕ
  pub action : ApprovalAction

abbrev pub hex_digits : List String
hex_digits =
    "0" ∷ "1" ∷ "2" ∷ "3" ∷ "4" ∷ "5" ∷ "6" ∷ "7" ∷ "8" ∷ "9" ∷ "a" ∷ "b" ∷ "c" ∷ "d" ∷ "e" ∷ "f"
    ∷ []

abbrev pub digit_at : List String → ℕ → String
digit_at [] n = ""
digit_at (d ∷ ds) zero = d
digit_at (d ∷ ds) (suc n) = digit_at ds n

-- `format!("{byte:02x}")`
unfoldable pub hex_byte : ℕ → String
hex_byte b = digit_at hex_digits (b / 16) ++ digit_at hex_digits (b % 16)

unfoldable pub hex : List ℕ → String
unfolding hex_byte
hex [] = ""
hex (b ∷ bs) = hex_byte b ++ hex bs

module _ (to_vec : HashInput → List ℕ) (sha256 : List ℕ → List ℕ) where
  unfoldable pub canonical_hash : ApprovalRequestId → ℕ → ℕ → ApprovalAction → String
  unfolding hex
  canonical_hash id created_at_ms expires_at_ms action = hex (
      sha256 (
        to_vec (record {
          schema = "bastet.approval-request.v1";
          id = id;
          created_at_ms = created_at_ms;
          expires_at_ms = expires_at_ms;
          action = action;
        })))
