-- ===== src/Harness/Digest.antt =====
-- HarnessService._validation_decision_digest: what of a report an engineer has decided on. A dump has
-- the fields of the model.
use autocad_mechanical_harne.Base.{String, none, some, [], ◌∷◌, map}
use autocad_mechanical_harne.Errors.{Result}
use autocad_mechanical_harne.Value.{
  Value, null, float, str, bool, int, array, dict, option_str, values_of, fields_of,
}
use autocad_mechanical_harne.Validation.{
  Severity, info, warning, error, blocking, ValidationStage, schema, semantic_input, plan,
  preview_geometry, company_standard, pre_commit, post_commit, drawing_audit, drawing_standard,
  Finding, ValidationReport,
}
use autocad_mechanical_harne.Harness.World.{Harness}

unfoldable pub severity_value : Severity → String
severity_value info = "info"
severity_value warning = "warning"
severity_value error = "error"
severity_value blocking = "blocking"

unfoldable pub stage_value : ValidationStage → String
stage_value schema = "schema"
stage_value semantic_input = "semantic_input"
stage_value plan = "plan"
stage_value preview_geometry = "preview_geometry"
stage_value company_standard = "company_standard"
stage_value pre_commit = "pre_commit"
stage_value post_commit = "post_commit"
stage_value drawing_audit = "drawing_audit"
stage_value drawing_standard = "drawing_standard"

unfoldable pub dump_finding : Finding → Value
dump_finding f = dict (
    fields_of (
      ("rule_id", str f.rule_id)
      ∷ ("severity", str (severity_value f.severity))
      ∷ ("message", str f.message)
      ∷ ("feature_id", option_str f.feature_id)
      ∷ ("entity_ref", option_str f.entity_ref)
      ∷ ("operation_id", option_str f.operation_id)
      ∷ ("expected", f.expected)
      ∷ ("actual", f.actual)
      ∷ ("tolerance", elim f.tolerance [ none ↦ null | some bits ↦ float bits ])
      ∷ ("suggested_fix", option_str f.suggested_fix)
      ∷ ("measurement", dict (fields_of f.measurement.items))
      ∷ []))

-- The dump of a report after `payload.pop("validation_id", None)`.
unfoldable pub decision_payload : ValidationReport → Value
unfolding dump_finding
decision_payload r = dict (
    fields_of (
      ("schema_version", str r.schema_version)
      ∷ ("job_id", str r.job_id)
      ∷ ("stage", str (stage_value r.stage))
      ∷ ("plan_hash", option_str r.plan_hash)
      ∷ ("findings", array (values_of (map dump_finding r.findings)))
      ∷ ("entities_examined", int r.entities_examined)
      ∷ ("company_approved", bool r.company_approved)
      ∷ ("profile_ref", option_str r.profile_ref)
      ∷ ("blocking_count", int r.blocking_count)
      ∷ ("error_count", int r.error_count)
      ∷ ("warning_count", int r.warning_count)
      ∷ ("info_count", int r.info_count)
      ∷ []))

unfoldable pub decision_digest : {S : Type 0} → Harness S → ValidationReport → Result String
decision_digest h r = h.sha256_of (decision_payload r)
