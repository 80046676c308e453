-- ===== src/Approval/Token.antt =====
-- cad_harness/security/approval.py: issuing and verifying approval tokens.
pub mod Verify
use Prim.Native.String.{count}
use autocad_mechanical_harne.Base.{
  ℕ, ◌+◌, String, ◌<>◌, ◌==◌, Bool, true, false, ◌&&◌, ◌||◌, not, Option, none, some, List, [], ◌∷◌,
  nat_eq, if◌then◌else◌,
}
use autocad_mechanical_harne.Errors.{
  Result, ok, err, guard, approval_required, approval_scope_mismatch, approval_expired, type_error,
  or_raise, ◌>>=◌, ◌>>◌,
}
use autocad_mechanical_harne.Value.{Value, Fields, str, dict, end, field}
use autocad_mechanical_harne.Canonical.{canonical_json, contains}
use autocad_mechanical_harne.Approval.{ApprovalRecord, is_expired, matches}
use autocad_mechanical_harne.Approval.Codec.{TokenCodec}
use autocad_mechanical_harne.Approval.Text.{is_ascii, split_dot, all_base64url, padding}

abbrev pub claim_fields : List String
claim_fields =
    "approval_id" ∷ "job_id" ∷ "document_id" ∷ "expected_revision" ∷ "plan_hash" ∷ "approved_by"
    ∷ "expires_at" ∷ []

abbrev has_key : Fields → String → Bool
has_key end k = false
has_key (field j v fs) k = j == k || has_key fs k

abbrev has_keys : Fields → List String → Bool
has_keys fs [] = true
has_keys fs (k ∷ ks) = has_key fs k && has_keys fs ks

abbrev only_keys : List String → Fields → Bool
only_keys ks end = true
only_keys ks (field j v fs) = contains j ks && only_keys ks fs

abbrev is_str : Value → Bool
is_str (str s) = true
is_str _ = false

abbrev all_str : Fields → Bool
all_str end = true
all_str (field j v fs) = is_str v && all_str fs

-- The tests of `_decode_claims` on a loaded value.
unfoldable pub checked_claims : List String → Value → Option Value
checked_claims names (dict fs) =
    if has_keys fs names && only_keys names fs && all_str fs then some (dict fs) else none
checked_claims names _ = none

abbrev pub bind_option {ℓ κ} : {A : Type ℓ} {B : Type κ} → Option A → (A → Option B) → Option B
bind_option none f = none
bind_option (some a) f = f a

-- `hmac.compare_digest` of two texts: it raises TypeError unless both are ASCII.
unfoldable pub compare_digest : String → String → Result Bool
compare_digest a b = if is_ascii a && is_ascii b then ok (a == b) else err type_error

abbrev pub token_parts : String → Option (String × String × String)
token_parts token =
    bind_option (split_dot token) (λ p. bind_option (split_dot p.1) (λ q. some (p.0, q.0, q.1)))

module _ (c : TokenCodec) where
  -- _scope_claims
  unfoldable pub scope_claims : ApprovalRecord → Value
  scope_claims a = dict (
      field "approval_id" (str a.approval_id) (
        field "job_id" (str a.job_id) (
          field "document_id" (str a.document_id) (
            field "expected_revision" (str a.expected_revision) (
              field "plan_hash" (str a.plan_hash) (
                field "approved_by" (str a.approved_by)
                  (field "expires_at" (str (c.isoformat a.expires_at)) end)))))))

  -- The canonical JSON of a value, through the codec's libraries.
  unfoldable pub canonical : Value → Result String
  canonical v = canonical_json c.round_float c.json_dumps v

  -- _encode_claims
  unfoldable pub encode_claims : ApprovalRecord → Result String
  unfolding scope_claims canonical
  encode_claims a = do text ← canonical (scope_claims a); ok (c.b64encode text)

  -- _decode_claims, for the field names of a kind of token: `none` where it raises.
  unfoldable pub decode_claims : List String → String → Option Value
  unfolding checked_claims
  decode_claims names payload =
      if payload == "" || not (all_base64url payload)
      then none
      else bind_option (c.b64decode (payload <> padding (count payload)))
          (λ decoded. bind_option (c.json_loads decoded) (checked_claims names))

  -- make_approval_token
  unfoldable pub make_approval_token : ApprovalRecord → String → Result String
  unfolding encode_claims
  make_approval_token a secret = do
    guard (not (secret == "")) approval_required
    payload ← encode_claims a
    ok ("v2" <> "." <> (payload <> "." <> c.hmac_sha256 secret payload))

  -- issue_approval, with the new identifier and the clock's time.
  unfoldable pub issue_approval :
      String
      → String
      → String
      → String
      → String
      → String
      → ℕ
      → List String
      → String
      → ℕ
      → Result (ApprovalRecord × String)
  unfolding make_approval_token
  issue_approval job_id document_id plan_hash expected_revision approved_by secret ttl
        warnings_acknowledged approval_id now =
      do
        let approval : ApprovalRecord = record {
          approval_id = approval_id;
          job_id = job_id;
          document_id = document_id;
          expected_revision = expected_revision;
          plan_hash = plan_hash;
          approved_by = approved_by;
          approved_at = now;
          expires_at = now + ttl;
          warnings_acknowledged = warnings_acknowledged;
        }
        token ← make_approval_token approval secret
        ok (approval, token)

  -- The first `try` of a verification: the payload, the received and the expected digest, all empty
  -- where the token has no such shape. The tests are those of `len` and of `payload.encode`.
  unfoldable pub read_token : String → String → String → String × String × String
  read_token tag token secret = elim (token_parts token) [
    | none ↦ ("", "", "")
    | some (version, payload, received) ↦
        if version == tag && nat_eq (count received) 64 && is_ascii payload
        then (payload, received, c.hmac_sha256 secret payload)
        else ("", "", "")
  ]

  -- The rest of a verification, from the payload and the two digests on.
  unfoldable pub verify_parts :
      String × String × String → ApprovalRecord → String → String → String → ℕ → Result (Unit {0})
  verify_parts (payload, received, expected) approval job_id plan_hash expected_revision now = do
    same ← compare_digest received expected
    guard same approval_scope_mismatch
    claims ← or_raise (decode_claims claim_fields payload) approval_scope_mismatch
    submitted ← canonical claims
    stored ← canonical (scope_claims approval)
    guard (submitted == stored) approval_scope_mismatch
    guard (not (is_expired approval now)) approval_expired
    guard (matches approval job_id plan_hash expected_revision) approval_scope_mismatch

  -- verify_approval_token
  unfoldable pub verify_approval_token :
      String → ApprovalRecord → String → String → String → String → ℕ → Result (Unit {0})
  verify_approval_token token approval secret job_id plan_hash expected_revision now =
      verify_parts (read_token "v2" token secret) approval job_id plan_hash expected_revision now
