-- ===== src/Canonical.antt =====
-- cad_harness/domain/canonical.py: canonical JSON and plan hashing. What `json.dumps` and
-- `hashlib.sha256` make of a value, and the rounding of a float, are parameters.
pub mod Strip
mod Examples
use Prim.Native.Nat.{Ordering}
use Prim.Native.String.{compare}
use autocad_mechanical_harne.Base.{
  ℕ, String, ◌==◌, Bool, false, ◌||◌, Option, List, [], ◌∷◌, ◌++◌, ◌<>◌, if◌then◌else◌,
}
use autocad_mechanical_harne.Errors.{Result, ok, or_raise, value_error, ◌>>=◌}
use autocad_mechanical_harne.Value.{
  Value, Values, Fields, null, bool, int, negative_int, float, str, array, dict, nil, cons, end,
  field,
}

abbrev pub contains : String → List String → Bool
contains k [] = false
contains k (x ∷ xs) = k == x || contains k xs

-- VOLATILE_FIELDS
abbrev pub volatile_fields : List String
volatile_fields =
    "plan_hash" ∷ "created_at" ∷ "updated_at" ∷ "request_id" ∷ "trace_id" ∷ "audit_event_id" ∷ []

-- PLAN_IDENTITY_FIELDS
abbrev pub plan_identity_fields : List String
plan_identity_fields = "plan_id" ∷ "job_id" ∷ []

-- Drops the named keys at every depth.
unfoldable mutual
  pub strip_volatile : List String → Value → Value
  strip_volatile drop null = null
  strip_volatile drop (bool b) = bool b
  strip_volatile drop (int n) = int n
  strip_volatile drop (negative_int n) = negative_int n
  strip_volatile drop (float x) = float x
  strip_volatile drop (str s) = str s
  strip_volatile drop (array vs) = array (strip_values drop vs)
  strip_volatile drop (dict fs) = dict (strip_fields drop fs)

  pub strip_values : List String → Values → Values
  strip_values drop nil = nil
  strip_values drop (cons v vs) = cons (strip_volatile drop v) (strip_values drop vs)

  pub strip_fields : List String → Fields → Fields
  strip_fields drop end = end
  strip_fields drop (field k v fs) =
      let rest = strip_fields drop fs in
      if contains k drop then rest else field k (strip_volatile drop v) rest

-- `sorted(value.items())`, by the order of the keys' code points, equal keys in their order.
unfoldable pub insert_field : String → Value → Fields → Fields
insert_field k v end = field k v end
insert_field k v (field j w fs) =
    let rest = insert_field k v fs in
    elim (compare k j) [ Ordering.gt ↦ field j w rest | _ ↦ field k v (field j w fs) ]

unfoldable pub sort_fields : Fields → Fields
unfolding insert_field
sort_fields end = end
sort_fields (field k v fs) = insert_field k v (sort_fields fs)

-- `round_float` is what rounding to nine places and the collapse of -0.0 give, or `none` for a float
-- that is not finite. A dict is sorted when its values are normalised; which of several values that
-- are not finite is met first makes no difference, since each raises ValueError.
module _ (round_float : ℕ → Option ℕ) where
  unfoldable mutual
    pub normalize : Value → Result Value
    normalize null = ok null
    normalize (bool b) = ok (bool b)
    normalize (int n) = ok (int n)
    normalize (negative_int n) = ok (negative_int n)
    normalize (float x) = or_raise (round_float x) value_error >>= λ y. ok (float y)
    normalize (str s) = ok (str s)
    normalize (array vs) = normalize_values vs >>= λ ws. ok (array ws)
    normalize (dict fs) = normalize_fields fs >>= λ gs. ok (dict (sort_fields gs))

    pub normalize_values : Values → Result Values
    normalize_values nil = ok nil
    normalize_values (cons v vs) = normalize v >>= λ w. normalize_values vs >>= λ ws. ok (cons w ws)

    pub normalize_fields : Fields → Result Fields
    normalize_fields end = ok end
    normalize_fields (field k v fs) =
        normalize v >>= λ w. normalize_fields fs >>= λ gs. ok (field k w gs)

  -- `json_dumps` is `json.dumps` with the separators and flags of the source.
  unfoldable pub canonical_json : (Value → String) → Value → Result String
  unfolding normalize sort_fields
  canonical_json json_dumps v = normalize v >>= λ w. ok (json_dumps w)

  -- `hexdigest` is hashlib's sha256 of a text, in hexadecimal.
  unfoldable pub sha256_of : (Value → String) → (String → String) → Value → Result String
  unfolding canonical_json
  sha256_of json_dumps hexdigest v =
      canonical_json json_dumps v >>= λ text. ok ("sha256:" <> hexdigest text)

-- The digest of a value is the one above, which raises ValueError on a float that is not finite.
unfoldable pub compute_plan_hash : (Value → Result String) → Value → Result String
compute_plan_hash sha256_of plan =
    sha256_of (strip_volatile (volatile_fields ++ plan_identity_fields) plan)
