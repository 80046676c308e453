-- ===== src/Approval/Rollback/Verify.antt =====
-- What verifying a rollback token of cad_harness/security/rollback_approval.py decides.
use autocad_mechanical_harne.Base.{
  ℕ, String, ◌==◌, ◌≡◌, ◌≢◌, ◌∙◌, sym, ap, subst, Bool, true, false, not, Option, some, eq_iff,
}
use autocad_mechanical_harne.Errors.{
  ok, approval_scope_mismatch, approval_expired, approval_required, guard, or_raise, ok-eq, with_ok,
  guard-ok, or_raise-ok,
}
use autocad_mechanical_harne.Value.{Value}
use autocad_mechanical_harne.Approval.Codec.{TokenCodec}
use autocad_mechanical_harne.Approval.Token.{compare_digest, token_parts, decode_claims, read_token}
use autocad_mechanical_harne.Approval.Token.Verify.{
  not-true, compare_digest-true, decode_claims-empty, read_token-nonempty,
}
use autocad_mechanical_harne.Approval.Rollback.{
  RollbackApprovalRecord, RollbackScope, is_expired, matches, rollback_claim_fields, record_of,
  verify_claim_parts, verify_rollback_claims, verify_rollback_approval_token,
}

pub has_secret : (secret : String) → not (secret == "") ≡ true → secret ≢ ""
has_secret secret h e =
    let same : not ("" == "") ≡ true = subst (λ t. not (t == "") ≡ true) e h in cc

module _ (c : TokenCodec) (parse_time : String → Option ℕ) (is_blank : String → Bool)
    (schema : String) where
  -- A token that was signed under the secret, for claims that read as the record.
  abbrev pub Signed : String → String → RollbackApprovalRecord → Type 0
  Signed token secret a =
      (payload : String) × (claims : Value) × (token_parts token
        ≡ some ("rb1", payload, c.hmac_sha256 secret payload))
      × (decode_claims c rollback_claim_fields payload ≡ some claims)
      × (record_of c parse_time is_blank schema claims ≡ some a)

  verify_claim_parts-ok :
      (payload received expected : String) (scope : RollbackScope) (a : RollbackApprovalRecord)
      → verify_claim_parts c parse_time is_blank schema (payload, received, expected) scope ≡ ok a
      → (claims : Value) × (received ≡ expected)
        × (decode_claims c rollback_claim_fields payload ≡ some claims)
        × (record_of c parse_time is_blank schema claims ≡ some a)
        × (a.schema_version ≡ schema)
        × (matches a scope ≡ true)
  unfolding verify_claim_parts
  verify_claim_parts-ok payload received expected scope a e =
      with_ok (compare_digest received expected) e λ same compared e₁.
        with_ok (guard same approval_scope_mismatch) e₁ λ _ equal e₂.
          with_ok (or_raise (decode_claims c rollback_claim_fields payload) approval_scope_mismatch)
            e₂
            λ claims decoded e₃.
              with_ok
                (or_raise (record_of c parse_time is_blank schema claims) approval_scope_mismatch)
                e₃
                λ b read e₄.
                  with_ok (guard (b.schema_version == schema) approval_scope_mismatch) e₄
                    λ _ version e₅.
                      with_ok (guard (matches b scope) approval_scope_mismatch) e₅ λ _ covers e₆. (
                        claims,
                        compare_digest-true received expected
                            (compared ∙ ap ok (guard-ok same approval_scope_mismatch equal)),
                        or_raise-ok _ approval_scope_mismatch decoded,
                        or_raise-ok _ approval_scope_mismatch read ∙ ap some (ok-eq e₆),
                        ap (λ r. r.schema_version) (sym (ok-eq e₆))
                            ∙ (eq_iff b.schema_version schema).0
                                (guard-ok _ approval_scope_mismatch version),
                        ap (λ r. matches r scope) (sym (ok-eq e₆))
                            ∙ guard-ok _ approval_scope_mismatch covers,
                      )

  pub verify_rollback_claims-ok :
      (token secret : String) (scope : RollbackScope) (a : RollbackApprovalRecord)
      → verify_rollback_claims c parse_time is_blank schema token secret scope ≡ ok a
      → Signed token secret a
        × (secret ≢ "")
        × (a.schema_version ≡ schema)
        × (matches a scope ≡ true)
  unfolding verify_rollback_claims
  verify_rollback_claims-ok token secret scope a e =
      with_ok (guard (not (secret == "")) approval_required) e λ _ set e₁.
        let (payload, received, expected) = read_token c "rb1" token secret in
        let (claims, same, decoded, reads, version, covers) =
          verify_claim_parts-ok payload received expected scope a e₁ in
        let (parts, signed) = read_token-nonempty c "rb1" token secret (λ empty. cc (
          decoded,
          decode_claims-empty c rollback_claim_fields,
          ap (decode_claims c rollback_claim_fields) empty,
        )) in
        (
          (
            payload,
            claims,
            parts ∙ ap (λ d. some ("rb1", payload, d)) (same ∙ signed),
            decoded,
            reads,
          ),
          λ empty. has_secret secret (guard-ok _ approval_required set) empty,
          version,
          covers,
        )

  -- A rollback is authorized only by a signed token: it reads "rb1", a payload and the payload's digest
  -- under the configured secret, which is not empty; the payload decodes to a record of the current
  -- schema for exactly the job, the document, the checkpoint and the revision asked for; and the
  -- record has not expired.
  pub verify_rollback_sound :
      (token secret : String) (scope : RollbackScope) (now : ℕ) (a : RollbackApprovalRecord)
      → verify_rollback_approval_token c parse_time is_blank schema token secret scope now ≡ ok a
      → Signed token secret a
        × (secret ≢ "")
        × (a.schema_version ≡ schema)
        × (matches a scope ≡ true)
        × (is_expired a now ≡ false)
  unfolding verify_rollback_approval_token
  verify_rollback_sound token secret scope now a e =
      with_ok (verify_rollback_claims c parse_time is_blank schema token secret scope) e
        λ b known e₁. with_ok (guard (not (is_expired b now)) approval_expired) e₁ λ _ live e₂.
          let (signed, set, version, covers) =
            verify_rollback_claims-ok token secret scope a (known ∙ e₂) in
          (
            signed,
            set,
            version,
            covers,
            ap (λ r. is_expired r now) (sym (ok-eq e₂))
                ∙ not-true _ (guard-ok _ approval_expired live),
          )
