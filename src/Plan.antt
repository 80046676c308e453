-- ===== src/Plan.antt =====
-- cad_harness/domain/models/operation_plan.py: operations, the compiled plan and its hash. A plan is
-- dumped with every field, as `model_dump(mode="json")` does; the shape of the dump is written out.
use autocad_mechanical_harne.Base.{
  String, ◌==◌, Bool, true, false, Option, some, List, [], ◌∷◌, map,
}
use autocad_mechanical_harne.Base.Dict.{Dict}
use autocad_mechanical_harne.Errors.{Result, ok, ◌>>=◌}
use autocad_mechanical_harne.Value.{Value, str, array, dict, option_str, values_of, fields_of}
use autocad_mechanical_harne.Canonical.{compute_plan_hash}

pub data OperationType : Type 0 where
  create_line : OperationType
  create_polyline : OperationType
  create_closed_polyline : OperationType
  create_circle : OperationType
  create_circles : OperationType
  create_arc : OperationType
  create_text : OperationType
  create_centerline : OperationType
  create_centermark : OperationType
  create_linear_dimension : OperationType
  create_aligned_dimension : OperationType
  create_diameter_dimension : OperationType
  create_radius_dimension : OperationType
  create_angular_dimension : OperationType
  create_hatch : OperationType
  update_entity : OperationType
  delete_entity : OperationType

-- The member's value, a string.
unfoldable pub type_value : OperationType → String
type_value create_line = "create_line"
type_value create_polyline = "create_polyline"
type_value create_closed_polyline = "create_closed_polyline"
type_value create_circle = "create_circle"
type_value create_circles = "create_circles"
type_value create_arc = "create_arc"
type_value create_text = "create_text"
type_value create_centerline = "create_centerline"
type_value create_centermark = "create_centermark"
type_value create_linear_dimension = "create_linear_dimension"
type_value create_aligned_dimension = "create_aligned_dimension"
type_value create_diameter_dimension = "create_diameter_dimension"
type_value create_radius_dimension = "create_radius_dimension"
type_value create_angular_dimension = "create_angular_dimension"
type_value create_hatch = "create_hatch"
type_value update_entity = "update_entity"
type_value delete_entity = "delete_entity"

-- `operation.type is OperationType.DELETE_ENTITY`
abbrev pub is_delete : OperationType → Bool
is_delete delete_entity = true
is_delete _ = false

-- `operation.type is OperationType.UPDATE_ENTITY`
abbrev pub is_update : OperationType → Bool
is_update update_entity = true
is_update _ = false

pub record Operation : Type 0 where
  pub operation_id : String
  pub feature_id : String
  pub type : OperationType
  pub layer : String
  pub geometry : Dict Value
  pub expected : Dict Value
  pub target_entity_ref : Option String

pub record ValidationExpectation : Type 0 where
  pub rule_id : String
  pub feature_id : Option String
  pub operation_id : Option String
  pub expected : Dict Value

pub record OperationPlan : Type 0 where
  pub schema_version : String
  pub plan_id : String
  pub job_id : String
  pub document_id : String
  pub expected_revision : String
  pub canonical_units : String
  pub profile_ref : String
  pub operations : List Operation
  pub validation_expectations : List ValidationExpectation
  pub plan_hash : Option String

unfoldable pub dump_operation : Operation → Value
unfolding type_value
dump_operation o = dict (
    fields_of (
      ("operation_id", str o.operation_id)
      ∷ ("feature_id", str o.feature_id)
      ∷ ("type", str (type_value o.type))
      ∷ ("layer", str o.layer)
      ∷ ("geometry", dict (fields_of o.geometry.items))
      ∷ ("expected", dict (fields_of o.expected.items))
      ∷ ("target_entity_ref", option_str o.target_entity_ref)
      ∷ []))

unfoldable pub dump_expectation : ValidationExpectation → Value
dump_expectation e = dict (
    fields_of (
      ("rule_id", str e.rule_id)
      ∷ ("feature_id", option_str e.feature_id)
      ∷ ("operation_id", option_str e.operation_id)
      ∷ ("expected", dict (fields_of e.expected.items))
      ∷ []))

unfoldable pub dump_plan : OperationPlan → Value
unfolding dump_operation dump_expectation
dump_plan p = dict (
    fields_of (
      ("schema_version", str p.schema_version)
      ∷ ("plan_id", str p.plan_id)
      ∷ ("job_id", str p.job_id)
      ∷ ("document_id", str p.document_id)
      ∷ ("expected_revision", str p.expected_revision)
      ∷ ("canonical_units", str p.canonical_units)
      ∷ ("profile_ref", str p.profile_ref)
      ∷ ("operations", array (values_of (map dump_operation p.operations)))
      ∷ (
        "validation_expectations",
        array (values_of (map dump_expectation p.validation_expectations)),
      )
      ∷ ("plan_hash", option_str p.plan_hash)
      ∷ []))

-- The digest of a value's canonical JSON text, as Canonical.sha256_of.
module _ (sha256_of : Value → Result String) where
  unfoldable pub compute_hash : OperationPlan → Result String
  unfolding compute_plan_hash dump_plan
  compute_hash p = compute_plan_hash sha256_of (dump_plan p)

  unfoldable pub with_hash : OperationPlan → Result OperationPlan
  with_hash p = do hash ← compute_hash p; ok (record p { plan_hash = some hash })

  unfoldable pub verify_hash : OperationPlan → String → Result Bool
  verify_hash p expected = do hash ← compute_hash p; ok (hash == expected)
