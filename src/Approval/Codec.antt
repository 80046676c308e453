-- ===== src/Approval/Codec.antt =====
-- The third-party libraries that a token goes through, and what the approval code relies on.
use Prim.Native.String.{count}
use autocad_mechanical_harne.Base.{ℕ, String, ◌<>◌, ◌≡◌, ◌≢◌, true, Option, some}
use autocad_mechanical_harne.Value.{Value}
use autocad_mechanical_harne.Approval.Text.{all_base64url, is_ascii, padding}

-- `isoformat` is the text of a UTC time; `round_float` and `json_dumps` are those of canonical JSON;
-- `json_loads` gives `none` where it raises; `b64encode` is `urlsafe_b64encode` of the UTF-8 bytes
-- with the padding stripped; `b64decode` takes a padded text and gives `none` where it raises;
-- `hmac_sha256` takes the secret and the payload to the hexadecimal digest.
pub record TokenCodec : Type 0 where
  pub isoformat : ℕ → String
  pub round_float : ℕ → Option ℕ
  pub json_dumps : Value → String
  pub json_loads : String → Option Value
  pub b64encode : String → String
  pub b64decode : String → Option String
  pub hmac_sha256 : String → String → String

-- The payload of a value, and its digest under a secret.
abbrev pub payload_of : TokenCodec → Value → String
payload_of c v = c.b64encode (c.json_dumps v)

-- Documented behaviour, at one value and one secret: its JSON text is read back; base64url keeps to
-- its alphabet, gives no empty text for it, and is undone by decoding with the padding restored; a
-- SHA-256 digest is 64 ASCII characters.
pub record Lawful (c : TokenCodec) (v : Value) (secret : String) : Type 0 where
  pub json_loads_json_dumps : c.json_loads (c.json_dumps v) ≡ some v
  pub b64encode_alphabet : all_base64url (payload_of c v) ≡ true
  pub b64encode_nonempty : payload_of c v ≢ ""
  pub b64decode_b64encode :
      c.b64decode (payload_of c v <> padding (count (payload_of c v))) ≡ some (c.json_dumps v)
  pub hmac_sha256_length : count (c.hmac_sha256 secret (payload_of c v)) ≡ 64
  pub hmac_sha256_ascii : is_ascii (c.hmac_sha256 secret (payload_of c v)) ≡ true
