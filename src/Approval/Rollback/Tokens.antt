-- ===== src/Approval/Rollback/Tokens.antt =====
-- The two kinds of token, those of cad_harness/security/approval.py and of
-- cad_harness/security/rollback_approval.py, and what becomes of each that is issued.
use autocad_mechanical_harne.Base.{
  ℕ, String, ◌<>◌, ◌==◌, ◌≡◌, ◌≢◌, refl, sym, Bool, true, ◌&&◌, Option, some, arith, eq_refl,
  eq_false, eq_iff, if◌then◌else◌, Bool-cases, Option-cases, inl, inr,
}
use autocad_mechanical_harne.Errors.{Result, ok, err, approval_scope_mismatch, approval_expired}
use autocad_mechanical_harne.Value.{Value, str, dict, end, field}
use autocad_mechanical_harne.Canonical.{canonical_json}
use autocad_mechanical_harne.Approval.{ApprovalRecord}
use autocad_mechanical_harne.Approval.Codec.{TokenCodec, Lawful, payload_of}
use autocad_mechanical_harne.Approval.Text.{is_ascii, split_dot, split_dot-append, all_base64url}
use autocad_mechanical_harne.Approval.Token.{
  checked_claims, compare_digest, canonical, decode_claims, make_approval_token, read_token,
  verify_approval_token, verify_parts,
}
use autocad_mechanical_harne.Approval.Token.Verify.{decode-payload, read-token, made_token}
use autocad_mechanical_harne.Approval.Rollback.Verify.{has_secret}
use autocad_mechanical_harne.Approval.Rollback.{
  RollbackApprovalRecord, RollbackScope, is_expired, matches, rollback_claim_fields, text_claim,
  rollback_claims, record_of, make_rollback_approval_token, verify_claim_parts,
  verify_rollback_claims, verify_rollback_approval_token,
}

-- The claims with their keys in order, as canonical JSON writes them.
abbrev pub sorted_rollback_claims : TokenCodec → RollbackApprovalRecord → Value
sorted_rollback_claims c a = dict (
    field "approval_id" (str a.approval_id) (
      field "approved_at" (str (c.isoformat a.approved_at)) (
        field "approved_by" (str a.approved_by) (
          field "checkpoint_id" (str a.checkpoint_id) (
            field "current_revision" (str a.current_revision) (
              field "document_id" (str a.document_id) (
                field "expires_at" (str (c.isoformat a.expires_at)) (
                  field "job_id" (str a.job_id)
                    (field "schema_version" (str a.schema_version) end)))))))))

rb1_ne : ◌≢◌ {A = String} "v2" "rb1"
rb1_ne = ground (arith, eq_iff "v2" "rb1")

-- A token whose first part is another tag is read as no token at all.
read_token-other :
    (c : TokenCodec) (tag other rest secret : String)
    → all_base64url other ≡ true
    → other ≢ tag
    → read_token c tag (other <> "." <> rest) secret ≡ ("", "", "")
unfolding read_token
read_token-other c tag other rest secret h ne =
    rw (split_dot-append other rest h, read_token)
      (elim (Option-cases (split_dot rest)) [
        | inl e ↦ rw e refl
        | inr ((p, r), e) ↦ rw (e, eq_false other tag ne) refl
      ])

module _ (c : TokenCodec) (parse_time : String → Option ℕ) (is_blank : String → Bool)
    (schema : String) where
  canonical-rollback_claims :
      (a : RollbackApprovalRecord)
      → canonical c (rollback_claims c parse_time is_blank schema a)
        ≡ ok (c.json_dumps (sorted_rollback_claims c a))
  unfolding canonical rollback_claims canonical_json
  canonical-rollback_claims a = refl

  checked-sorted :
      (a : RollbackApprovalRecord)
      → checked_claims rollback_claim_fields (sorted_rollback_claims c a)
        ≡ some (sorted_rollback_claims c a)
  unfolding checked_claims
  checked-sorted a = refl

  record_of-sorted :
      (a : RollbackApprovalRecord)
      → parse_time (c.isoformat a.approved_at) ≡ some a.approved_at
      → parse_time (c.isoformat a.expires_at) ≡ some a.expires_at
      → record_of c parse_time is_blank schema (sorted_rollback_claims c a) ≡ some a
  unfolding record_of text_claim
  record_of-sorted a granted ends = rw (granted, ends) refl

  pub made_rollback_token :
      (a : RollbackApprovalRecord) (secret token : String)
      → make_rollback_approval_token c parse_time is_blank schema a secret ≡ ok token
      → (secret ≢ "")
        × (token
            ≡ "rb1"
              <> "."
              <> (payload_of c (sorted_rollback_claims c a)
                  <> "."
                  <> c.hmac_sha256 secret (payload_of c (sorted_rollback_claims c a))))
  unfolding make_rollback_approval_token canonical_json
  made_rollback_token a secret token e = elim (Bool-cases (secret == "")) [
    | inl h ↦ absurd (ground (arith, h, e))
    | inr h ↦ (has_secret secret (rw h refl), ground (arith, h, e, canonical-rollback_claims a))
  ]

  -- The answer to a well-signed token: the schema, the scope, then the expiry.
  abbrev pub rollback_verdict :
      RollbackApprovalRecord → RollbackScope → ℕ → Result RollbackApprovalRecord
  rollback_verdict a scope now =
      if a.schema_version == schema && matches a scope
      then (if is_expired a now then err approval_expired else ok a)
      else err approval_scope_mismatch

  verify_claim_parts-signed :
      (a : RollbackApprovalRecord) (secret : String) (scope : RollbackScope)
      → Lawful c (sorted_rollback_claims c a) secret
      → parse_time (c.isoformat a.approved_at) ≡ some a.approved_at
      → parse_time (c.isoformat a.expires_at) ≡ some a.expires_at
      → (let d = c.hmac_sha256 secret (payload_of c (sorted_rollback_claims c a)) in
          verify_claim_parts c parse_time is_blank schema
            (payload_of c (sorted_rollback_claims c a), d, d)
            scope
          ≡ (if a.schema_version == schema && matches a scope
              then ok a
              else err approval_scope_mismatch))
  unfolding verify_claim_parts compare_digest
  verify_claim_parts-signed a secret scope l granted ends =
      rw
        (
          l.hmac_sha256_ascii,
          eq_refl,
          decode-payload c (sorted_rollback_claims c a) secret l rollback_claim_fields
              (checked-sorted a),
          record_of-sorted a granted ends,
        )
        (ground arith)

  -- The token that is signed for a rollback is accepted for exactly the record's scope under the
  -- current schema, up to and including its expiry time, and the verification returns the record that
  -- was signed: later the token is refused as expired, and for any other scope as a mismatch. (The
  -- libraries are lawful at the signed claims, and the record's times are read back.)
  pub verify_rollback-make :
      (a : RollbackApprovalRecord) (secret token : String) (scope : RollbackScope) (now : ℕ)
      → Lawful c (sorted_rollback_claims c a) secret
      → parse_time (c.isoformat a.approved_at) ≡ some a.approved_at
      → parse_time (c.isoformat a.expires_at) ≡ some a.expires_at
      → make_rollback_approval_token c parse_time is_blank schema a secret ≡ ok token
      → verify_rollback_approval_token c parse_time is_blank schema token secret scope now
        ≡ rollback_verdict a scope now
  unfolding verify_rollback_approval_token verify_rollback_claims all_base64url
  verify_rollback-make a secret token scope now l granted ends made =
      let (set, shape) = made_rollback_token a secret token made in
      rw
        (
          shape,
          eq_false secret "" set,
          read-token c (sorted_rollback_claims c a) secret l "rb1" refl,
          verify_claim_parts-signed a secret scope l granted ends,
        )
        (ground arith)

  -- Authority to commit is no authority to roll back, nor the other way round: under any configured
  -- secrets, whatever the scope and the time, a signed commit approval is refused as a rollback token,
  -- and a signed rollback approval as a commit token, both as a scope mismatch.
  pub tokens_disjoint :
      (a : ApprovalRecord) (r : RollbackApprovalRecord)
      (secret token rollback_token verifying : String)
      → make_approval_token c a secret ≡ ok token
      → make_rollback_approval_token c parse_time is_blank schema r secret ≡ ok rollback_token
      → verifying ≢ ""
      → ((scope : RollbackScope) (now : ℕ)
          → verify_rollback_approval_token c parse_time is_blank schema token verifying scope now
            ≡ err approval_scope_mismatch)
        × ((b : ApprovalRecord) (job_id plan_hash revision : String) (now : ℕ)
            → verify_approval_token c rollback_token b verifying job_id plan_hash revision now
              ≡ err approval_scope_mismatch)
  unfolding verify_rollback_approval_token verify_rollback_claims verify_claim_parts
      verify_approval_token verify_parts compare_digest all_base64url decode_claims is_ascii
  tokens_disjoint a r secret token rollback_token verifying made rolled set =
      let (_, shape) = made_rollback_token r secret rollback_token rolled in
      (
        λ scope now.
            rw
              (
                made_token c a secret token made,
                eq_false verifying "" set,
                read_token-other c "rb1" "v2" _ verifying refl rb1_ne,
              )
              refl,
        λ b job_id plan_hash revision now.
            rw (shape, read_token-other c "v2" "rb1" _ verifying refl (λ e. rb1_ne (sym e))) refl,
      )
