-- ===== src/Approval/Examples.antt =====
-- The theorems of Approval at concrete approvals, for a codec that knows one document.
mod Restores
use autocad_mechanical_harne.Base.{
  String, ◌≡◌, ◌≢◌, refl, arith, eq_iff, true, false, none, some, [],
}
use autocad_mechanical_harne.Errors.{ok, err, type_error}
use autocad_mechanical_harne.Value.{Value}
use autocad_mechanical_harne.Canonical.{canonical_json}
use autocad_mechanical_harne.Approval.{ApprovalRecord, is_expired, matches}
use autocad_mechanical_harne.Approval.Codec.{TokenCodec, Lawful}
use autocad_mechanical_harne.Approval.Text.{is_ascii, split_dot, all_base64url, padding}
use autocad_mechanical_harne.Approval.Token.{
  claim_fields, token_parts, canonical, scope_claims, decode_claims, make_approval_token,
  verify_approval_token,
}
use autocad_mechanical_harne.Approval.Token.Verify.{
  sorted_claims, verdict, verify_approval_token-make, verify_approval_token_sound,
  verify_approval_token_not_ascii,
}

abbrev granted : ApprovalRecord
granted = record {
  approval_id = "approval_1";
  job_id = "job_1";
  document_id = "doc_1";
  expected_revision = "sha256:0";
  plan_hash = "sha256:a";
  approved_by = "engineer";
  approved_at = 100;
  expires_at = 900;
  warnings_acknowledged = [];
}

abbrev digest : String
digest = "0123456789abcdef0123456789abcdef0123456789abcdef0123456789abcdef"

abbrev loaded : Value
loaded =
    sorted_claims
      (record {
        isoformat = λ t. "1970-01-01T00:00:00+00:00";
        round_float = λ x. some x;
        json_dumps = λ v. "{}";
        json_loads = λ s. none;
        b64encode = λ s. "e30";
        b64decode = λ s. some "{}";
        hmac_sha256 = λ s p. digest;
      })
      granted

abbrev codec : TokenCodec
codec = record {
  isoformat = λ t. "1970-01-01T00:00:00+00:00";
  round_float = λ x. some x;
  json_dumps = λ v. "{}";
  json_loads = λ s. some loaded;
  b64encode = λ s. "e30";
  b64decode = λ s. some "{}";
  hmac_sha256 = λ s p. digest;
}

nonempty : ◌≢◌ {A = String} "e30" ""
nonempty = ground (arith, eq_iff "e30" "")

codec-Lawful : Lawful codec (sorted_claims codec granted) "secret"
unfolding all_base64url is_ascii padding
codec-Lawful = record {
  json_loads_json_dumps = refl;
  b64encode_alphabet = refl;
  b64encode_nonempty = nonempty;
  b64decode_b64encode = refl;
  hmac_sha256_length = refl;
  hmac_sha256_ascii = refl;
}

abbrev token : String
token = "v2.e30.0123456789abcdef0123456789abcdef0123456789abcdef0123456789abcdef"

made : make_approval_token codec granted "secret" ≡ ok token
unfolding make_approval_token canonical_json
made = refl

verify_approval_token-make_example :
    verify_approval_token codec token granted "secret" "job_1" "sha256:a" "sha256:0" 500
    ≡ verdict granted "job_1" "sha256:a" "sha256:0" 500
verify_approval_token-make_example =
    verify_approval_token-make codec granted "secret" token "job_1" "sha256:a" "sha256:0" 500
      codec-Lawful made

accepted :
    verify_approval_token codec token granted "secret" "job_1" "sha256:a" "sha256:0" 500 ≡ ok tt
unfolding is_expired matches
accepted =
    verify_approval_token-make codec granted "secret" token "job_1" "sha256:a" "sha256:0" 500
      codec-Lawful made

verify_approval_token_sound_example :
    (payload : String) × (claims : Value) × (token_parts token
      ≡ some ("v2", payload, codec.hmac_sha256 "secret" payload))
    × (decode_claims codec claim_fields payload ≡ some claims)
    × (canonical codec claims ≡ canonical codec (scope_claims codec granted))
    × (is_expired granted 500 ≡ false)
    × (matches granted "job_1" "sha256:a" "sha256:0" ≡ true)
verify_approval_token_sound_example =
    verify_approval_token_sound codec granted "secret" token "job_1" "sha256:a" "sha256:0" 500
      accepted

abbrev forged : String
forged = "v2.e30.é123456789abcdef0123456789abcdef0123456789abcdef0123456789abcdef"

verify_approval_token_not_ascii_example :
    verify_approval_token codec forged granted "secret" "job_1" "sha256:a" "sha256:0" 500
    ≡ err type_error
unfolding split_dot is_ascii
verify_approval_token_not_ascii_example =
    verify_approval_token_not_ascii codec granted "secret" forged "e30"
      "é123456789abcdef0123456789abcdef0123456789abcdef0123456789abcdef" "job_1" "sha256:a"
      "sha256:0" 500 refl refl refl refl
