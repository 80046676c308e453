-- ===== src/Approval/Token/Verify.antt =====
-- What verifying a token of cad_harness/security/approval.py decides.
use Prim.Native.String.{count}
use autocad_mechanical_harne.Base.{
  ℕ, String, ◌<>◌, ◌==◌, ◌≡◌, ◌∙◌, refl, sym, ap, Bool, true, false, not, List, Option, none, some,
  arith, ◌≢◌, ◌&&◌, nat_eq, eq_refl, eq_false, eq_iff, if◌then◌else◌, Bool-cases, inl, inr,
}
use autocad_mechanical_harne.Errors.{
  Result, ok, err, approval_scope_mismatch, approval_expired, type_error, guard, or_raise,
  >>=-eq-ok, guard-ok, or_raise-ok,
}
use autocad_mechanical_harne.Value.{Value, str, dict, end, field}
use autocad_mechanical_harne.Canonical.{canonical_json}
use autocad_mechanical_harne.Approval.{ApprovalRecord, is_expired, matches}
use autocad_mechanical_harne.Approval.Codec.{TokenCodec, Lawful, payload_of}
use autocad_mechanical_harne.Approval.Text.{
  is_ascii, split_dot-append, all_base64url, all_base64url-is_ascii,
}
use autocad_mechanical_harne.Approval.Token.{
  claim_fields, checked_claims, compare_digest, token_parts, scope_claims, canonical, decode_claims,
  make_approval_token, read_token, verify_parts, verify_approval_token,
}

pub not-true : (b : Bool) → not b ≡ true → b ≡ false
not-true true h = cc
not-true false h = refl

pub compare_digest-true : (s t : String) → compare_digest s t ≡ ok true → s ≡ t
unfolding compare_digest
compare_digest-true s t e = ground (arith, eq_iff s t)

-- The scope claims with their keys in order, as canonical JSON writes them.
abbrev pub sorted_claims : TokenCodec → ApprovalRecord → Value
sorted_claims c a = dict (
    field "approval_id" (str a.approval_id) (
      field "approved_by" (str a.approved_by) (
        field "document_id" (str a.document_id) (
          field "expected_revision" (str a.expected_revision) (
            field "expires_at" (str (c.isoformat a.expires_at))
              (field "job_id" (str a.job_id) (field "plan_hash" (str a.plan_hash) end)))))))

module _ (c : TokenCodec) (a : ApprovalRecord) where
  canonical-scope_claims : canonical c (scope_claims c a) ≡ ok (c.json_dumps (sorted_claims c a))
  unfolding canonical scope_claims canonical_json
  canonical-scope_claims = refl

  canonical-sorted : canonical c (sorted_claims c a) ≡ ok (c.json_dumps (sorted_claims c a))
  unfolding canonical canonical_json
  canonical-sorted = refl

  checked-sorted : checked_claims claim_fields (sorted_claims c a) ≡ some (sorted_claims c a)
  unfolding checked_claims
  checked-sorted = refl

pub token_parts-token :
    (tag p d : String)
    → all_base64url tag ≡ true
    → all_base64url p ≡ true
    → token_parts (tag <> "." <> (p <> "." <> d)) ≡ some (tag, p, d)
token_parts-token tag p d g h = rw (split_dot-append tag (p <> "." <> d) g, split_dot-append p d h)

-- What is read back from the payload of lawful claims, and from a token with a tag of the alphabet.
module _ (c : TokenCodec) (v : Value) (secret : String) (l : Lawful c v secret) where
  abbrev p : String
  p = payload_of c v

  pub decode-payload :
      (names : List String) → checked_claims names v ≡ some v → decode_claims c names p ≡ some v
  unfolding decode_claims
  decode-payload names checked =
      rw
        (
          eq_false p "" l.b64encode_nonempty,
          l.b64encode_alphabet,
          l.b64decode_b64encode,
          l.json_loads_json_dumps,
        )
        checked

  pub read-token :
      (tag : String)
      → all_base64url tag ≡ true
      → read_token c tag (tag <> "." <> (p <> "." <> c.hmac_sha256 secret p)) secret
        ≡ (p, c.hmac_sha256 secret p, c.hmac_sha256 secret p)
  unfolding read_token
  read-token tag g =
      rw (token_parts-token tag p (c.hmac_sha256 secret p) g l.b64encode_alphabet, read_token)
        (rw (eq_refl tag, l.hmac_sha256_length, all_base64url-is_ascii p l.b64encode_alphabet))

-- The answer to a well-signed token: expiry first, then the scope.
abbrev pub verdict : ApprovalRecord → String → String → String → ℕ → Result (Unit {0})
verdict a job_id plan_hash revision now =
    if is_expired a now
    then err approval_expired
    else if matches a job_id plan_hash revision
    then ok tt
    else err approval_scope_mismatch

pub made_token :
    (c : TokenCodec) (a : ApprovalRecord) (secret token : String)
    → make_approval_token c a secret ≡ ok token
    → token
      ≡ "v2"
        <> "."
        <> (payload_of c (sorted_claims c a)
            <> "."
            <> c.hmac_sha256 secret (payload_of c (sorted_claims c a)))
unfolding make_approval_token canonical_json
made_token c a secret token e = elim (Bool-cases (secret == "")) [
  | inl h ↦ absurd (ground (arith, h))
  | inr h ↦ ground (arith, h)
]

verify_parts-signed :
    (c : TokenCodec) (a : ApprovalRecord) (secret job_id plan_hash revision : String) (now : ℕ)
    → Lawful c (sorted_claims c a) secret
    → (let d = c.hmac_sha256 secret (payload_of c (sorted_claims c a)) in
        verify_parts c (payload_of c (sorted_claims c a), d, d) a job_id plan_hash revision now
        ≡ verdict a job_id plan_hash revision now)
unfolding verify_parts compare_digest
verify_parts-signed c a secret job_id plan_hash revision now l =
    rw
      (
        l.hmac_sha256_ascii,
        eq_refl,
        decode-payload c (sorted_claims c a) secret l claim_fields (checked-sorted c a),
        canonical-sorted c a,
        canonical-scope_claims c a,
        eq_refl,
      )
      (ground arith)

-- The token that `make_approval_token` signs for an approval is accepted for exactly that approval's
-- job, plan hash and revision, up to and including its expiry time: later it is refused as expired,
-- and for any other scope as a mismatch. (The libraries are lawful at the signed claims.)
pub verify_approval_token-make :
    (c : TokenCodec) (a : ApprovalRecord) (secret token job_id plan_hash revision : String)
    (now : ℕ)
    → Lawful c (sorted_claims c a) secret
    → make_approval_token c a secret ≡ ok token
    → verify_approval_token c token a secret job_id plan_hash revision now
      ≡ verdict a job_id plan_hash revision now
unfolding verify_approval_token all_base64url
verify_approval_token-make c a secret token job_id plan_hash revision now l made =
    rw (made_token c a secret token made, read-token c (sorted_claims c a) secret l "v2" refl)
      (verify_parts-signed c a secret job_id plan_hash revision now l)

pub decode_claims-empty : (c : TokenCodec) (names : List String) → decode_claims c names "" ≡ none
unfolding decode_claims
decode_claims-empty c names = refl

-- A payload that is not empty was read from a token of the right shape.
pub read_token-nonempty :
    (c : TokenCodec) (tag token secret : String)
    → (read_token c tag token secret).0 ≢ ""
    → (token_parts token
        ≡ some (tag, (read_token c tag token secret).0, (read_token c tag token secret).1))
      × ((read_token c tag token secret).2 ≡ c.hmac_sha256 secret (read_token c tag token secret).0)
unfolding read_token
read_token-nonempty c tag token secret h = go (token_parts token) refl h
  where
    read : Option (String × String × String) → String × String × String
    read parts = elim parts [
      | none ↦ ("", "", "")
      | some (version, payload, received) ↦
          if version == tag && nat_eq (count received) 64 && is_ascii payload
          then (payload, received, c.hmac_sha256 secret payload)
          else ("", "", "")
    ]

    go :
        (parts : Option (String × String × String))
        → token_parts token ≡ parts
        → (read parts).0 ≢ ""
        → (parts ≡ some (tag, (read parts).0, (read parts).1))
          × ((read parts).2 ≡ c.hmac_sha256 secret (read parts).0)
    go none e ne = absurd (ne refl)
    go (some (v, p, r)) e ne = elim (Bool-cases (v == tag && nat_eq (count r) 64 && is_ascii p)) [
      | inl h ↦ rw h (ap (λ t. some (t, p, r)) ((eq_iff v tag).0 (ground arith)), refl)
      | inr h ↦ absurd (ne (rw h))
    ]

verify_parts-ok :
    (c : TokenCodec) (a : ApprovalRecord)
    (payload received expected job_id plan_hash revision : String) (now : ℕ)
    → verify_parts c (payload, received, expected) a job_id plan_hash revision now ≡ ok tt
    → (claims : Value) × (received ≡ expected)
      × (decode_claims c claim_fields payload ≡ some claims)
      × (canonical c claims ≡ canonical c (scope_claims c a))
      × (is_expired a now ≡ false)
      × (matches a job_id plan_hash revision ≡ true)
unfolding verify_parts
verify_parts-ok c a payload received expected job_id plan_hash revision now e =
    let (same, compared, e₁) = >>=-eq-ok (compare_digest received expected) _ e in
    let (_, equal, e₂) = >>=-eq-ok (guard same approval_scope_mismatch) _ e₁ in
    let (claims, decoded, e₃) =
      >>=-eq-ok (or_raise (decode_claims c claim_fields payload) approval_scope_mismatch) _ e₂ in
    let (submitted, text, e₄) = >>=-eq-ok (canonical c claims) _ e₃ in
    let (stored, own, e₅) = >>=-eq-ok (canonical c (scope_claims c a)) _ e₄ in
    let (_, agree, e₆) = >>=-eq-ok (guard (submitted == stored) approval_scope_mismatch) _ e₅ in
    let (_, live, e₇) = >>=-eq-ok (guard (not (is_expired a now)) approval_expired) _ e₆ in
    (
      claims,
      compare_digest-true received expected
          (compared ∙ ap ok (guard-ok same approval_scope_mismatch equal)),
      or_raise-ok _ approval_scope_mismatch decoded,
      text
          ∙ ap ok ((eq_iff submitted stored).0 (guard-ok _ approval_scope_mismatch agree))
          ∙ sym own,
      not-true _ (guard-ok _ approval_expired live),
      guard-ok _ approval_scope_mismatch e₇,
    )

-- An accepted token was signed: it reads "v2", a payload and the payload's digest under the secret;
-- the payload decodes to claims with the canonical text of the approval's own; and the approval has
-- not expired and has the submitted job, plan hash and revision.
pub verify_approval_token_sound :
    (c : TokenCodec) (a : ApprovalRecord) (secret token job_id plan_hash revision : String)
    (now : ℕ)
    → verify_approval_token c token a secret job_id plan_hash revision now ≡ ok tt
    → (payload : String) × (claims : Value) × (token_parts token
        ≡ some ("v2", payload, c.hmac_sha256 secret payload))
      × (decode_claims c claim_fields payload ≡ some claims)
      × (canonical c claims ≡ canonical c (scope_claims c a))
      × (is_expired a now ≡ false)
      × (matches a job_id plan_hash revision ≡ true)
unfolding verify_approval_token
verify_approval_token_sound c a secret token job_id plan_hash revision now e =
    let (payload, received, expected) = read_token c "v2" token secret in
    let (claims, same, decoded, text, live, covers) =
      verify_parts-ok c a payload received expected job_id plan_hash revision now e in
    let (parts, signed) = read_token-nonempty c "v2" token secret (λ empty.
      cc (decoded, decode_claims-empty c claim_fields, ap (decode_claims c claim_fields) empty)) in
    (
      payload,
      claims,
      parts ∙ ap (λ d. some ("v2", payload, d)) (same ∙ signed),
      decoded,
      text,
      live,
      covers,
    )

-- A token of the right shape whose digest part is not ASCII makes the verification raise TypeError,
-- which is none of the harness's own errors, whatever the approval and the scope.
pub verify_approval_token_not_ascii :
    (c : TokenCodec) (a : ApprovalRecord) (secret token payload received : String)
    (job_id plan_hash revision : String) (now : ℕ)
    → token_parts token ≡ some ("v2", payload, received)
    → is_ascii payload ≡ true
    → count received ≡ 64
    → is_ascii received ≡ false
    → verify_approval_token c token a secret job_id plan_hash revision now ≡ err type_error
unfolding verify_approval_token verify_parts read_token compare_digest
verify_approval_token_not_ascii c a secret token payload received job_id plan_hash revision now
      parts ascii length not_ascii =
    rw (parts, read_token) (rw (length, ascii, not_ascii))
