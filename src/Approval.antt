-- ===== src/Approval.antt =====
-- cad_harness/domain/models/approval.py and the token scheme of cad_harness/security/approval.py.
-- The libraries that a token goes through (json, base64, hmac, isoformat) are the fields of
-- `TokenCodec`; `Approval.Codec` states what the theorems rely on.
pub mod Text
pub mod Codec
pub mod Token
pub mod Rollback
mod Examples
use autocad_mechanical_harne.Base.{ℕ, String, ◌==◌, Bool, ◌&&◌, List, ltb}
use autocad_mechanical_harne.Value.{Value}

pub record ApprovalRecord : Type 0 where
  pub approval_id : String
  pub job_id : String
  pub document_id : String
  pub expected_revision : String
  pub plan_hash : String
  pub approved_by : String
  pub approved_at : ℕ
  pub expires_at : ℕ
  pub warnings_acknowledged : List String

-- `now > self.expires_at`
unfoldable pub is_expired : ApprovalRecord → ℕ → Bool
is_expired a now = ltb a.expires_at now

unfoldable pub matches : ApprovalRecord → String → String → String → Bool
matches a job_id plan_hash revision =
    a.job_id == job_id && a.plan_hash == plan_hash && a.expected_revision == revision
