-- ===== src/Errors.antt =====
-- cad_harness/domain/errors.py: the exceptions that the harness reports, by class. Messages, required
-- actions and details are left out: no code of the library reads them. The last four constructors
-- stand for Python's ValueError, AssertionError and TypeError and for SQLAlchemy's IntegrityError.
-- Fallible code returns `Result`.
use autocad_mechanical_harne.Base.{
  ◌≡◌, refl, ◌⊎◌, inl, inr, Bool, true, false, Option, none, some, arith, ap,
}

pub data HarnessError : Type 0 where
  harness_error : HarnessError
  missing_required_inputs : HarnessError
  unsupported_schema_version : HarnessError
  unsupported_feature : HarnessError
  invalid_feature_parameters : HarnessError
  invalid_geometry : HarnessError
  standard_profile_not_found : HarnessError
  document_not_found : HarnessError
  stale_document_revision : HarnessError
  plan_hash_mismatch : HarnessError
  approval_required : HarnessError
  approval_expired : HarnessError
  approval_scope_mismatch : HarnessError
  writer_lease_conflict : HarnessError
  idempotency_key_reused : HarnessError
  autocad_not_running : HarnessError
  autocad_busy : HarnessError
  adapter_capability_missing : HarnessError
  ipc_timeout : HarnessError
  com_call_failed : HarnessError
  post_commit_validation_failed : HarnessError
  unknown_commit_state : HarnessError
  export_path_not_allowed : HarnessError
  rollback_not_available : HarnessError
  rollback_recovery_required : HarnessError
  invalid_job_transition : HarnessError
  tool_not_allowed : HarnessError
  unsupported_input_format : HarnessError
  read_scope_too_large : HarnessError
  value_error : HarnessError
  assertion_error : HarnessError
  type_error : HarnessError
  integrity_error : HarnessError

pub data Result {ℓ} (A : Type ℓ) : Type ℓ where
  ok : A → Result A
  err : HarnessError → Result A

-- `if not test: raise e`
abbrev pub guard : Bool → HarnessError → Result (Unit {0})
guard true e = ok tt
guard false e = err e

infixl 5 ◌>>=◌ ◌>>◌
abbrev pub ◌>>=◌ {ℓ κ} : {A : Type ℓ} {B : Type κ} → Result A → (A → Result B) → Result B
err raised >>= rest = err raised
ok value >>= rest = rest value

abbrev pub ◌>>◌ {ℓ} : {B : Type ℓ} → Result (Unit {0}) → Result B → Result B
step >> rest = step >>= λ done. rest

-- `if value is None: raise e`
abbrev pub or_raise {ℓ} : {A : Type ℓ} → Option A → HarnessError → Result A
or_raise none e = err e
or_raise (some a) e = ok a

pub Result-cases {ℓ} :
    {A : Type ℓ} (r : Result A) → ((a : A) × (r ≡ ok a)) ⊎ ((e : HarnessError) × (r ≡ err e))
Result-cases (ok a) = inl (a, refl)
Result-cases (err e) = inr (e, refl)

-- A chain that succeeds has a first step that succeeds, and a rest that does.
pub >>=-eq-ok {ℓ κ} :
    {A : Type ℓ} {B : Type κ} (step : Result A) (rest : A → Result B) {last : B}
    → (step >>= rest) ≡ ok last
    → (value : A) × (step ≡ ok value) × (rest value ≡ ok last)
>>=-eq-ok (err raised) rest e = cc
>>=-eq-ok (ok value) rest e = (value, refl, e)

pub guard-ok : (b : Bool) (e : HarnessError) {u : Unit {0}} → guard b e ≡ ok u → b ≡ true
guard-ok true e h = refl
guard-ok false e h = cc

pub or_raise-ok {ℓ} :
    {A : Type ℓ} (o : Option A) (e : HarnessError) {a : A} → or_raise o e ≡ ok a → o ≡ some a
or_raise-ok none e h = cc
or_raise-ok (some a) e h = cc

-- The same for a proof that goes on with the value and the two equations.
pub with_ok {ℓ κ μ} :
    {A : Type ℓ} {B : Type κ} {Goal : Type μ} (step : Result A) {rest : A → Result B} {last : B}
    → (step >>= rest) ≡ ok last
    → ((value : A) → step ≡ ok value → rest value ≡ ok last → Goal)
    → Goal
with_ok (ok value) e goal = goal value refl e
with_ok (err raised) e goal = absurd (ground (arith, e))

pub ok-eq {ℓ} : {A : Type ℓ} {a b : A} → ok a ≡ ok b → a ≡ b
ok-eq {a = a} e = ap (λ r. elim r [ ok x ↦ x | err raised ↦ a ]) e
