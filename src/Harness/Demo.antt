-- ===== src/Harness/Demo.antt =====
-- A small harness and a world with one approved job, on which the tests run: an adapter whose drawing
-- counts the commits, a codec that knows one document, and one granted approval.
use Prim.Native.Nat.{ℕ, suc, ◌+◌}
use autocad_mechanical_harne.Base.{String, ◌==◌, true, false, none, some, [], ◌∷◌, ◌&&◌, nat_eq}
use autocad_mechanical_harne.Base.Dict
use autocad_mechanical_harne.Errors.{ok, err, document_not_found, rollback_not_available}
use autocad_mechanical_harne.Value.{Value}
use autocad_mechanical_harne.Job.{CadJob, new_job, approved}
use autocad_mechanical_harne.Plan.{Operation, OperationPlan, create_line}
use autocad_mechanical_harne.Validation.{CompanyProfile, ValidationReport, pre_commit}
use autocad_mechanical_harne.Approval.{ApprovalRecord}
use autocad_mechanical_harne.Approval.Codec.{TokenCodec}
use autocad_mechanical_harne.Approval.Token.Verify.{sorted_claims}
use autocad_mechanical_harne.Outcome.{CommitResult, EntityResult, DocumentSnapshot, committed}
use autocad_mechanical_harne.Lease.{empty_leases}
use autocad_mechanical_harne.Store.{JobStore}
use autocad_mechanical_harne.Harness.World.{Adapter, Harness, World}
use autocad_mechanical_harne.Harness.Gates.{CommitCall}

abbrev pub granted : ApprovalRecord
granted = record {
  approval_id = "approval_1";
  job_id = "job_1";
  document_id = "doc_1";
  expected_revision = "sha256:0";
  plan_hash = "sha256:a";
  approved_by = "engineer";
  approved_at = 100;
  expires_at = 900;
  warnings_acknowledged = [];
}

abbrev digest : String
digest = "0123456789abcdef0123456789abcdef0123456789abcdef0123456789abcdef"

abbrev pub codec_of : Value → TokenCodec
codec_of document = record {
  isoformat = λ t. "1970-01-01T00:00:00+00:00";
  round_float = λ x. some x;
  json_dumps = λ v. "{}";
  json_loads = λ s. some document;
  b64encode = λ s. "e30";
  b64decode = λ s. some "{}";
  hmac_sha256 = λ s p. digest;
}

abbrev codec : TokenCodec
codec = codec_of (sorted_claims (codec_of Value.null) granted)

abbrev pub token : String
token = "v2.e30.0123456789abcdef0123456789abcdef0123456789abcdef0123456789abcdef"

abbrev line : Operation
line = record {
  operation_id = "op_1";
  feature_id = "edge";
  type = create_line;
  layer = "OBJECT";
  geometry = Dict.empty;
  expected = Dict.empty;
  target_entity_ref = none;
}

abbrev pub plan : OperationPlan
plan = record {
  schema_version = "1.13";
  plan_id = "plan_1";
  job_id = "job_1";
  document_id = "doc_1";
  expected_revision = "sha256:0";
  canonical_units = "mm";
  profile_ref = "demo@1.0";
  operations = line ∷ [];
  validation_expectations = [];
  plan_hash = some "sha256:a";
}

abbrev pub job : CadJob
job = record (new_job "job_1" "doc_1" "sha256:0" 0) {
  state = approved;
  plan_id = some "plan_1";
  plan_hash = some "sha256:a";
  approval_id = some "approval_1";
}

abbrev report : ValidationReport
report = record {
  schema_version = "1.13";
  validation_id = "validation_1";
  job_id = "job_1";
  stage = pre_commit;
  plan_hash = some "sha256:a";
  findings = [];
  entities_examined = 1;
  company_approved = true;
  profile_ref = some "demo@1.0";
  blocking_count = 0;
  error_count = 0;
  warning_count = 0;
  info_count = 0;
}

abbrev snapshot : DocumentSnapshot
snapshot = record {
  document_id = "doc_1";
  revision = "sha256:0";
  units = "mm";
  layers = "OBJECT" ∷ [];
  dimension_styles = [];
  text_styles = [];
  entity_count = 0;
}

abbrev entity : EntityResult
entity = record {
  operation_id = "op_1";
  feature_id = "edge";
  entity_ref = "fake:handle:1";
  entity_type = "LINE";
  measurements = Dict.empty;
}

abbrev pub result : CommitResult
result = record {
  job_id = "job_1";
  plan_hash = "sha256:a";
  status = committed;
  entity_results = entity ∷ [];
  previous_revision = "sha256:0";
  new_revision = "sha256:1";
  checkpoint_id = some "checkpoint_1";
  undo_group = none;
}

abbrev pub adapter : Adapter ℕ
adapter = record {
  allows_expired_checkpoint_recovery = false;
  status = λ n. record { adapter_type = "fake"; cad_version = none };
  inspect_document = λ n d. ok snapshot;
  validate_revision = λ n d r. ok (nat_eq n 0 && r == "sha256:0");
  commit = λ c n. (ok result, suc n);
  rollback = λ c n. (err rollback_not_available, n);
}

abbrev profile : CompanyProfile
profile = record {
  profile_id = "demo";
  version = "1.0";
  company_approved = true;
  canonical_unit = "mm";
}

abbrev pub harness : Harness ℕ
harness = record {
  adapter = adapter;
  require_commit_approval = true;
  approval_secret = "secret";
  approval_ttl = 800;
  rollback_approval_ttl = 600;
  lease_ttl = 30;
  schema_version = "1.13";
  profile = profile;
  rules = [];
  codec = codec;
  parse_time = λ t. some 900;
  is_blank = λ t. t == "";
  sha256_text = λ t. digest;
  sha256_of = λ v. ok "sha256:a";
  writer_supported = λ v. false;
  drawing_model_reader = none;
  audit_drawing = λ m l j. err document_not_found;
  drawing_audit_store = none;
  remediation_eq = λ a b. true;
  spec_of = λ d. err document_not_found;
  compile = λ s j r. ok none;
  preflight = λ p. ok tt;
  preview = λ p. ok tt;
  clock = λ n. 500 + n;
  new_id = λ n. "id";
  beats = (1, 1);
}

abbrev pub store : JobStore
store = record {
  jobs = record { items = ("job_1", job) ∷ [] };
  specs = record { items = [] };
  plans = record { items = ("job_1", plan) ∷ [] };
  remediations = record { items = [] };
  validations = record { items = ("job_1", report) ∷ [] };
  approvals = record { items = ("approval_1", granted) ∷ [] };
  executions = [];
  entity_mappings = [];
  checkpoints = record { items = [] };
}

abbrev pub world : World ℕ
world = record {
  drawing = 0;
  store = store;
  leases = empty_leases;
  handle = none;
  snapshots = record { items = [] };
  undo_rollback_receipts = record { items = [] };
  durable_rollback_recoveries = record { items = [] };
  remediation_jobs = record { items = [] };
  events = [];
  ticks = 0;
  ids = 0;
}

abbrev pub call : CommitCall
call = record {
  job_id = "job_1";
  idempotency_key = "key_1";
  expected_revision = "sha256:0";
  plan_hash = "sha256:a";
  approval_token = token;
}
