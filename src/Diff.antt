-- ===== src/Diff.antt =====
-- cad_harness/diff/semantic_diff.py: what a plan changes, entry by entry. How Python writes a value
-- into a text is a parameter.
pub mod Account
pub mod Deletions
mod Examples
use Prim.Native.String as Text
use autocad_mechanical_harne.Base.{
  ℕ, suc, String, ◌<>◌, ◌==◌, Bool, true, false, Option, none, some, List, [], ◌∷◌, map,
  if◌then◌else◌,
}
use autocad_mechanical_harne.Base.Dict
use autocad_mechanical_harne.Base.Dict.{Dict}
use autocad_mechanical_harne.Errors.{Result, ok, err, type_error, ◌>>=◌}
use autocad_mechanical_harne.Value.{
  Value, Values, Fields, null, bool, int, negative_int, float, str, array, dict, nil, cons, end,
  field, option_str, values_of, fields_of,
}
use autocad_mechanical_harne.Plan.{
  Operation, OperationType, OperationPlan, compute_hash, type_value, create_line, create_polyline,
  create_closed_polyline, create_circle, create_circles, create_arc, create_text, create_centerline,
  create_centermark, create_linear_dimension, create_aligned_dimension, create_diameter_dimension,
  create_radius_dimension, create_angular_dimension, create_hatch, update_entity, delete_entity,
}
use autocad_mechanical_harne.Outcome.{DocumentSnapshot}
use autocad_mechanical_harne.Fake.{entity_type_for, number_text}

pub record DiffEntry : Type 0 where
  pub change : String
  pub feature_id : String
  pub operation_id : String
  pub entity_type : String
  pub layer : String
  pub summary : String
  pub target_entity_ref : Option String
  pub measurements : Dict Value

pub record SemanticDiff : Type 0 where
  pub plan_hash : String
  pub document_id : String
  pub from_revision : String
  pub entries : List DiffEntry

-- sum(1 for e in entries if e.change == change)
unfoldable pub count_changes : String → List DiffEntry → ℕ
count_changes change [] = 0
count_changes change (e ∷ es) =
    let rest = count_changes change es in if e.change == change then suc rest else rest

unfoldable pub added_count : SemanticDiff → ℕ
unfolding count_changes
added_count d = count_changes "added" d.entries

unfoldable pub modified_count : SemanticDiff → ℕ
unfolding count_changes
modified_count d = count_changes "modified" d.entries

unfoldable pub deleted_count : SemanticDiff → ℕ
unfolding count_changes
deleted_count d = count_changes "deleted" d.entries

abbrev entry_value : DiffEntry → Value
entry_value e = dict (
    fields_of (
      ("change", str e.change)
      ∷ ("feature_id", str e.feature_id)
      ∷ ("operation_id", str e.operation_id)
      ∷ ("entity_type", str e.entity_type)
      ∷ ("layer", str e.layer)
      ∷ ("summary", str e.summary)
      ∷ ("target_entity_ref", option_str e.target_entity_ref)
      ∷ ("measurements", dict (fields_of e.measurements.items))
      ∷ []))

-- SemanticDiff.to_dict
unfoldable pub to_dict : SemanticDiff → Value
unfolding added_count modified_count deleted_count
to_dict d = dict (
    fields_of (
      ("plan_hash", str d.plan_hash)
      ∷ ("document_id", str d.document_id)
      ∷ ("from_revision", str d.from_revision)
      ∷ (
        "summary",
        dict (
            fields_of (
              ("added", int (added_count d))
              ∷ ("modified", int (modified_count d))
              ∷ ("deleted", int (deleted_count d))
              ∷ [])),
      )
      ∷ ("entries", array (values_of (map entry_value d.entries)))
      ∷ []))

abbrev count_values : Values → ℕ
count_values nil = 0
count_values (cons v vs) = suc (count_values vs)

abbrev count_fields : Fields → ℕ
count_fields end = 0
count_fields (field k v fs) = suc (count_fields fs)

-- len(geometry.get(key, [])): a number, a Boolean or None has no length.
unfoldable pub sized : Option Value → Result ℕ
sized none = ok 0
sized (some (array vs)) = ok (count_values vs)
sized (some (dict fs)) = ok (count_fields fs)
sized (some (str s)) = ok (Text.count s)
sized (some _) = err type_error

-- operation_type.value.replace("_", " ").capitalize()
unfoldable pub title_of : OperationType → String
title_of create_line = "Create line"
title_of create_polyline = "Create polyline"
title_of create_closed_polyline = "Create closed polyline"
title_of create_circle = "Create circle"
title_of create_circles = "Create circles"
title_of create_arc = "Create arc"
title_of create_text = "Create text"
title_of create_centerline = "Create centerline"
title_of create_centermark = "Create centermark"
title_of create_linear_dimension = "Create linear dimension"
title_of create_aligned_dimension = "Create aligned dimension"
title_of create_diameter_dimension = "Create diameter dimension"
title_of create_radius_dimension = "Create radius dimension"
title_of create_angular_dimension = "Create angular dimension"
title_of create_hatch = "Create hatch"
title_of update_entity = "Update entity"
title_of delete_entity = "Delete entity"

-- The change that an operation's type stands for: _CREATE_TYPES has every type but the last two.
unfoldable pub change_of : OperationType → String
change_of delete_entity = "deleted"
change_of update_entity = "modified"
change_of _ = "added"

unfoldable pub polyline_summary : String → Dict Value → Result String
unfolding sized number_text
polyline_summary word geometry = do
  count ← sized (Dict.get geometry "vertices_mm")
  ok (word <> " polyline with " <> number_text 10 count <> " vertices")

module _ (write_value : Option Value → String) where
  -- _summarize
  unfoldable pub summarize : OperationType → Dict Value → Result String
  unfolding sized title_of polyline_summary number_text
  summarize create_circles geometry = do
    count ← sized (Dict.get geometry "centers_mm")
    ok (
        number_text 10 count
        <> " hole(s) of diameter "
        <> write_value (Dict.get geometry "diameter_mm")
        <> " mm")
  summarize create_closed_polyline geometry = polyline_summary "Closed" geometry
  summarize create_polyline geometry = polyline_summary "Open" geometry
  summarize create_centermark geometry = ok "Centermark"
  summarize type geometry = ok (title_of type)

  unfoldable pub entry_of : Operation → Result DiffEntry
  unfolding summarize change_of entity_type_for
  entry_of o = do
    summary ← summarize o.type o.geometry
    ok (record {
      change = change_of o.type;
      feature_id = o.feature_id;
      operation_id = o.operation_id;
      entity_type = entity_type_for o.type;
      layer = o.layer;
      summary = summary;
      target_entity_ref = o.target_entity_ref;
      measurements = o.expected;
    })

  unfoldable pub entries_of : List Operation → Result (List DiffEntry)
  unfolding entry_of
  entries_of [] = ok []
  entries_of (o ∷ os) = do e ← entry_of o; es ← entries_of os; ok (e ∷ es)

  -- `plan.plan_hash or plan.compute_hash()`
  unfoldable pub hash_or_computed : (Value → Result String) → OperationPlan → Result String
  unfolding compute_hash
  hash_or_computed sha256_of plan = elim plan.plan_hash [
    | none ↦ compute_hash sha256_of plan
    | some text ↦ if text == "" then compute_hash sha256_of plan else ok text
  ]

  unfoldable pub build_semantic_diff :
      (Value → Result String) → OperationPlan → DocumentSnapshot → Result SemanticDiff
  unfolding entries_of hash_or_computed
  build_semantic_diff sha256_of plan snapshot = do
    plan_hash ← hash_or_computed sha256_of plan
    entries ← entries_of plan.operations
    ok (record {
      plan_hash = plan_hash;
      document_id = snapshot.document_id;
      from_revision = snapshot.revision;
      entries = entries;
    })
