-- ===== src/Approval/Examples/Restores.antt =====
-- The theorems of Approval/Rollback at a concrete approval, for codecs that know one document.
use autocad_mechanical_harne.Base.{
  ℕ, String, ◌≡◌, ◌≢◌, ◌==◌, refl, arith, eq_iff, Bool, true, false, Option, some, [],
}
use autocad_mechanical_harne.Errors.{ok, err, approval_scope_mismatch}
use autocad_mechanical_harne.Value.{Value}
use autocad_mechanical_harne.Canonical.{canonical_json}
use autocad_mechanical_harne.Approval.{ApprovalRecord}
use autocad_mechanical_harne.Approval.Codec.{TokenCodec, Lawful}
use autocad_mechanical_harne.Approval.Text.{is_ascii, all_base64url, padding}
use autocad_mechanical_harne.Approval.Token.{make_approval_token, verify_approval_token}
use autocad_mechanical_harne.Approval.Rollback.{
  RollbackApprovalRecord, RollbackScope, is_expired, matches, make_rollback_approval_token,
  verify_rollback_approval_token, rollback_claims,
}
use autocad_mechanical_harne.Approval.Rollback.Verify.{Signed, verify_rollback_sound}
use autocad_mechanical_harne.Approval.Rollback.Tokens.{
  sorted_rollback_claims, rollback_verdict, verify_rollback-make, tokens_disjoint,
}

abbrev granted : RollbackApprovalRecord
granted = record {
  schema_version = "1.13";
  approval_id = "approval_2";
  job_id = "job_1";
  document_id = "doc_1";
  checkpoint_id = "checkpoint_1";
  current_revision = "sha256:1";
  approved_by = "engineer";
  approved_at = 900;
  expires_at = 900;
}

abbrev scope : RollbackScope
scope = record {
  job_id = "job_1";
  document_id = "doc_1";
  checkpoint_id = "checkpoint_1";
  current_revision = "sha256:1";
}

abbrev digest : String
digest = "0123456789abcdef0123456789abcdef0123456789abcdef0123456789abcdef"

abbrev codec_of : Value → TokenCodec
codec_of document = record {
  isoformat = λ t. "1970-01-01T00:00:00.000900+00:00";
  round_float = λ x. some x;
  json_dumps = λ v. "{}";
  json_loads = λ s. some document;
  b64encode = λ s. "e30";
  b64decode = λ s. some "{}";
  hmac_sha256 = λ s p. digest;
}

abbrev codec : TokenCodec
codec = codec_of (sorted_rollback_claims (codec_of Value.null) granted)

abbrev parse_time : String → Option ℕ
parse_time t = some 900

abbrev is_blank : String → Bool
is_blank t = t == ""

nonempty : ◌≢◌ {A = String} "e30" ""
nonempty = ground (arith, eq_iff "e30" "")

codec-Lawful : Lawful codec (sorted_rollback_claims codec granted) "secret"
unfolding all_base64url is_ascii padding
codec-Lawful = record {
  json_loads_json_dumps = refl;
  b64encode_alphabet = refl;
  b64encode_nonempty = nonempty;
  b64decode_b64encode = refl;
  hmac_sha256_length = refl;
  hmac_sha256_ascii = refl;
}

abbrev token : String
token = "rb1.e30.0123456789abcdef0123456789abcdef0123456789abcdef0123456789abcdef"

made : make_rollback_approval_token codec parse_time is_blank "1.13" granted "secret" ≡ ok token
unfolding make_rollback_approval_token canonical_json rollback_claims
made = refl

verify_rollback-make_example :
    verify_rollback_approval_token codec parse_time is_blank "1.13" token "secret" scope 900
    ≡ rollback_verdict codec parse_time is_blank "1.13" granted scope 900
verify_rollback-make_example =
    verify_rollback-make codec parse_time is_blank "1.13" granted "secret" token scope 900
      codec-Lawful refl refl made

accepted :
    verify_rollback_approval_token codec parse_time is_blank "1.13" token "secret" scope 900
    ≡ ok granted
unfolding is_expired matches
accepted =
    verify_rollback-make codec parse_time is_blank "1.13" granted "secret" token scope 900
      codec-Lawful refl refl made

verify_rollback_sound_example :
    Signed codec parse_time is_blank "1.13" token "secret" granted
    × (◌≢◌ {A = String} "secret" "")
    × (granted.schema_version ≡ "1.13")
    × (matches granted scope ≡ true)
    × (is_expired granted 900 ≡ false)
verify_rollback_sound_example =
    verify_rollback_sound codec parse_time is_blank "1.13" token "secret" scope 900 granted accepted

abbrev to_commit : ApprovalRecord
to_commit = record {
  approval_id = "approval_1";
  job_id = "job_1";
  document_id = "doc_1";
  expected_revision = "sha256:0";
  plan_hash = "sha256:a";
  approved_by = "engineer";
  approved_at = 100;
  expires_at = 900;
  warnings_acknowledged = [];
}

abbrev commit_token : String
commit_token = "v2.e30.0123456789abcdef0123456789abcdef0123456789abcdef0123456789abcdef"

commit_made : make_approval_token codec to_commit "secret" ≡ ok commit_token
unfolding make_approval_token canonical_json
commit_made = refl

secret_set : ◌≢◌ {A = String} "secret" ""
secret_set = ground (arith, eq_iff "secret" "")

tokens_disjoint_example :
    ((s : RollbackScope) (now : ℕ)
      → verify_rollback_approval_token codec parse_time is_blank "1.13" commit_token "secret" s now
        ≡ err approval_scope_mismatch)
    × ((b : ApprovalRecord) (job_id plan_hash revision : String) (now : ℕ)
        → verify_approval_token codec token b "secret" job_id plan_hash revision now
          ≡ err approval_scope_mismatch)
tokens_disjoint_example =
    tokens_disjoint codec parse_time is_blank "1.13" to_commit granted "secret" commit_token token
      "secret" commit_made made secret_set
