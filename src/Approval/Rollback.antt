-- ===== src/Approval/Rollback.antt =====
-- cad_harness/security/rollback_approval.py and RollbackApprovalRecord of
-- cad_harness/domain/models/approval.py: the authority to restore a checkpoint. The token carries the
-- whole record; nothing is stored.
pub mod Verify
pub mod Tokens
use autocad_mechanical_harne.Base.{
  ℕ, ◌+◌, String, ◌<>◌, ◌==◌, Bool, true, false, ◌&&◌, not, Option, none, some, List, [], ◌∷◌, ltb,
  if◌then◌else◌,
}
use autocad_mechanical_harne.Errors.{
  Result, ok, err, guard, or_raise, approval_required, approval_scope_mismatch, approval_expired,
  ◌>>=◌, ◌>>◌,
}
use autocad_mechanical_harne.Value.{Value, Fields, str, dict, end, field}
use autocad_mechanical_harne.Approval.Codec.{TokenCodec}
use autocad_mechanical_harne.Approval.Token.{
  bind_option, canonical, compare_digest, decode_claims, read_token,
}

pub record RollbackApprovalRecord : Type 0 where
  pub schema_version : String
  pub approval_id : String
  pub job_id : String
  pub document_id : String
  pub checkpoint_id : String
  pub current_revision : String
  pub approved_by : String
  pub approved_at : ℕ
  pub expires_at : ℕ

-- What a rollback is of: the job, its document and checkpoint, and the revision that was reviewed.
pub record RollbackScope : Type 0 where
  pub job_id : String
  pub document_id : String
  pub checkpoint_id : String
  pub current_revision : String

-- `now > self.expires_at`
unfoldable pub is_expired : RollbackApprovalRecord → ℕ → Bool
is_expired a now = ltb a.expires_at now

unfoldable pub matches : RollbackApprovalRecord → RollbackScope → Bool
matches a s =
    a.job_id == s.job_id
    && a.document_id == s.document_id
    && a.checkpoint_id == s.checkpoint_id
    && a.current_revision == s.current_revision

-- _CLAIM_FIELDS
abbrev pub rollback_claim_fields : List String
rollback_claim_fields =
    "schema_version" ∷ "approval_id" ∷ "job_id" ∷ "document_id" ∷ "checkpoint_id"
    ∷ "current_revision" ∷ "approved_by" ∷ "approved_at" ∷ "expires_at" ∷ []

-- A claim that is a text.
unfoldable pub text_claim : String → Fields → Option String
text_claim k end = none
text_claim k (field j (str s) fs) = if j == k then some s else text_claim k fs
text_claim k (field j v fs) = text_claim k fs

-- `parse_time` is the contract library's reading of a time, `none` where it does not validate;
-- `is_blank` tells that `str.strip` leaves nothing; `schema` is SCHEMA_VERSION.
module _ (c : TokenCodec) (parse_time : String → Option ℕ) (is_blank : String → Bool)
    (schema : String) where
  -- _claims
  unfoldable pub rollback_claims : RollbackApprovalRecord → Value
  rollback_claims a = dict (
      field "schema_version" (str a.schema_version) (
        field "approval_id" (str a.approval_id) (
          field "job_id" (str a.job_id) (
            field "document_id" (str a.document_id) (
              field "checkpoint_id" (str a.checkpoint_id) (
                field "current_revision" (str a.current_revision) (
                  field "approved_by" (str a.approved_by) (
                    field "approved_at" (str (c.isoformat a.approved_at))
                      (field "expires_at" (str (c.isoformat a.expires_at)) end)))))))))

  -- RollbackApprovalRecord.model_validate
  unfoldable pub record_of : Value → Option RollbackApprovalRecord
  unfolding text_claim
  record_of (dict fs) = bind_option (text_claim "schema_version" fs) λ schema_version.
      bind_option (text_claim "approval_id" fs) λ approval_id.
        bind_option (text_claim "job_id" fs) λ job_id.
          bind_option (text_claim "document_id" fs) λ document_id.
            bind_option (text_claim "checkpoint_id" fs) λ checkpoint_id.
              bind_option (text_claim "current_revision" fs) λ current_revision.
                bind_option (text_claim "approved_by" fs) λ approved_by.
                  bind_option (bind_option (text_claim "approved_at" fs) parse_time) λ approved_at.
                    bind_option (bind_option (text_claim "expires_at" fs) parse_time) λ expires_at.
                      some (record {
                        schema_version = schema_version;
                        approval_id = approval_id;
                        job_id = job_id;
                        document_id = document_id;
                        checkpoint_id = checkpoint_id;
                        current_revision = current_revision;
                        approved_by = approved_by;
                        approved_at = approved_at;
                        expires_at = expires_at;
                      })
  record_of _ = none

  unfoldable pub make_rollback_approval_token : RollbackApprovalRecord → String → Result String
  unfolding rollback_claims canonical
  make_rollback_approval_token a secret = do
    guard (not (secret == "")) approval_required
    text ← canonical c (rollback_claims a)
    let payload = c.b64encode text
    ok ("rb1" <> "." <> (payload <> "." <> c.hmac_sha256 secret payload))

  -- issue_rollback_approval, with the new identifier and the clock's time.
  unfoldable pub issue_rollback_approval :
      RollbackScope → String → String → ℕ → String → ℕ → Result (RollbackApprovalRecord × String)
  unfolding make_rollback_approval_token
  issue_rollback_approval scope approved_by secret ttl approval_id now = do
    guard (not (is_blank approved_by)) approval_required
    let approval : RollbackApprovalRecord = record {
      schema_version = schema;
      approval_id = approval_id;
      job_id = scope.job_id;
      document_id = scope.document_id;
      checkpoint_id = scope.checkpoint_id;
      current_revision = scope.current_revision;
      approved_by = approved_by;
      approved_at = now;
      expires_at = now + ttl;
    }
    token ← make_rollback_approval_token approval secret
    ok (approval, token)

  -- The rest of the verification of the claims, from the payload and the two digests on.
  unfoldable pub verify_claim_parts :
      String × String × String → RollbackScope → Result RollbackApprovalRecord
  unfolding compare_digest decode_claims record_of matches
  verify_claim_parts (payload, received, expected) scope = do
    same ← compare_digest received expected
    guard same approval_scope_mismatch
    claims ← or_raise (decode_claims c rollback_claim_fields payload) approval_scope_mismatch
    approval ← or_raise (record_of claims) approval_scope_mismatch
    guard (approval.schema_version == schema) approval_scope_mismatch
    guard (matches approval scope) approval_scope_mismatch
    ok approval

  -- _verify_rollback_approval_claims
  unfoldable pub verify_rollback_claims :
      String → String → RollbackScope → Result RollbackApprovalRecord
  unfolding read_token verify_claim_parts
  verify_rollback_claims token secret scope = do
    guard (not (secret == "")) approval_required
    verify_claim_parts (read_token c "rb1" token secret) scope

  unfoldable pub verify_rollback_approval_token :
      String → String → RollbackScope → ℕ → Result RollbackApprovalRecord
  unfolding verify_rollback_claims is_expired
  verify_rollback_approval_token token secret scope now = do
    approval ← verify_rollback_claims token secret scope
    guard (not (is_expired approval now)) approval_expired
    ok approval

  unfoldable pub verify_rollback_recovery_token :
      String → String → RollbackScope → ℕ → Result RollbackApprovalRecord
  unfolding verify_rollback_claims is_expired
  verify_rollback_recovery_token token secret scope now = do
    approval ← verify_rollback_claims token secret scope
    guard (is_expired approval now) approval_scope_mismatch
    ok approval
