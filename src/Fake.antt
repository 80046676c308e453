-- ===== src/Fake.antt =====
-- cad_harness/adapters/fake.py: the in-memory drawing, and how it carries out operations on a staged
-- copy. What floating-point measuring gives is a parameter, as is the digest of a value. Objects are
-- values here: the staged copy shares no entity with the document, as after `deepcopy`.
pub mod Methods
pub mod Commits
pub mod Undo
pub mod Entities
pub mod Drawing
pub mod Examples
use Prim.Native.Nat.{◌/◌}
use autocad_mechanical_harne.Base.{
  ℕ, zero, suc, ◌+◌, ◌%◌, String, ◌<>◌, ◌==◌, Bool, true, false, ◌||◌, Option, none, some, List, [],
  ◌∷◌, ◌++◌, is_some, nat_eq, if◌then◌else◌,
}
use autocad_mechanical_harne.Base.Dict
use autocad_mechanical_harne.Base.Dict.{Dict}
use autocad_mechanical_harne.Errors.{Result, ok, err, or_raise, com_call_failed, ◌>>=◌}
use autocad_mechanical_harne.Value.{Value, Fields, bool, str, dict, end, field}
use autocad_mechanical_harne.Plan.{
  Operation, OperationType, create_line, create_polyline, create_closed_polyline, create_circle,
  create_circles, create_arc, create_text, create_centerline, create_centermark,
  create_linear_dimension, create_aligned_dimension, create_diameter_dimension,
  create_radius_dimension, create_angular_dimension, create_hatch, update_entity, delete_entity,
  is_delete,
}
use autocad_mechanical_harne.Outcome.{CommitResult, EntityResult}

pub record FakeEntity : Type 0 where
  pub entity_ref : String
  pub entity_type : String
  pub layer : String
  pub feature_id : String
  pub operation_id : String
  pub geometry : Dict Value
  pub measurements : Dict Value

pub record FakeDocument : Type 0 where
  pub document_id : String
  pub display_name : String
  pub units : String
  pub entities : Dict FakeEntity
  pub layers : List String
  pub write_counter : ℕ
  pub snapshots : Dict (Dict FakeEntity)

-- FakeAutoCADAdapter: `issued` counts the identifiers that `new_id` has made for it.
pub record FakeAdapter : Type 0 where
  pub document : FakeDocument
  pub entity_counter : ℕ
  pub executions : Dict CommitResult
  pub issued : ℕ

-- ENTITY_TYPE_BY_OPERATION, and its default (cad_harness/adapters/base.py).
unfoldable pub entity_type_for : OperationType → String
entity_type_for create_line = "AcDbLine"
entity_type_for create_polyline = "AcDbPolyline"
entity_type_for create_closed_polyline = "AcDbPolyline"
entity_type_for create_circle = "AcDbCircle"
entity_type_for create_circles = "AcDbCircle"
entity_type_for create_arc = "AcDbArc"
entity_type_for create_text = "AcDbText"
entity_type_for create_centerline = "AcDbLine"
entity_type_for create_centermark = "AcDbPoint"
entity_type_for create_linear_dimension = "AcDbRotatedDimension"
entity_type_for create_aligned_dimension = "AcDbAlignedDimension"
entity_type_for create_diameter_dimension = "AcDbDiametricDimension"
entity_type_for create_radius_dimension = "AcDbRadialDimension"
entity_type_for create_angular_dimension = "AcDb2LineAngularDimension"
entity_type_for create_hatch = "AcDbHatch"
entity_type_for update_entity = "AcDbEntity"
entity_type_for delete_entity = "AcDbEntity"

-- A digit of a number, as the formats "X" and "d" write it.
abbrev digit_of : ℕ → List String → String
digit_of n [] = ""
digit_of zero (d ∷ ds) = d
digit_of (suc n) (d ∷ ds) = digit_of n ds

abbrev digits : List String
digits =
    "0" ∷ "1" ∷ "2" ∷ "3" ∷ "4" ∷ "5" ∷ "6" ∷ "7" ∷ "8" ∷ "9" ∷ "A" ∷ "B" ∷ "C" ∷ "D" ∷ "E" ∷ "F"
    ∷ []

-- The number's digits in a base, before a text; a number has fewer digits than itself, or one.
unfoldable pub write_digits : ℕ → ℕ → ℕ → String → String
write_digits zero base n rest = rest
write_digits (suc fuel) base n rest =
    let text = digit_of (n % base) digits <> rest in
    elim (nat_eq (n / base) 0) [ true ↦ text | false ↦ write_digits fuel base (n / base) text ]

unfoldable pub number_text : ℕ → ℕ → String
unfolding write_digits
number_text base n = write_digits (suc n) base n ""

-- d[key] = value, in a dict that is a value.
unfoldable pub put_field : String → Value → Fields → Fields
put_field k v end = field k v end
put_field k v (field j w fs) =
    let rest = put_field k v fs in if j == k then field j v fs else field j w rest

-- {**existing, **properties}
unfoldable pub merge_fields : Fields → Fields → Fields
unfolding put_field
merge_fields existing end = existing
merge_fields existing (field k v fs) = merge_fields (put_field k v existing) fs

abbrev pub properties_of : Option Value → Option Fields
properties_of none = some end
properties_of (some (dict fs)) = some fs
properties_of (some _) = none

-- `existing if isinstance(existing, dict) else {}`
abbrev own_properties : Option Value → Fields
own_properties (some (dict fs)) = fs
own_properties _ = end

-- What measuring gives for one circle: the geometry and the measurements of the entity, and the
-- measurements of the result.
pub record Circle : Type 0 where
  pub geometry : Dict Value
  pub measurements : Dict Value
  pub measured : Dict Value

abbrev pub Built : Type 0
Built = FakeEntity × EntityResult

-- A staged document: its entities, and the counter of references.
pub record Staged : Type 0 where
  pub entities : Dict FakeEntity
  pub counter : ℕ

-- _next_ref, for the counter after its increment.
unfoldable pub ref_of : ℕ → String
unfolding number_text
ref_of counter = "fake:handle:" <> number_text 16 counter

abbrev result_of : Operation → String → String → Dict Value → EntityResult
result_of o entity_ref entity_type measurements = record {
  operation_id = o.operation_id;
  feature_id = o.feature_id;
  entity_ref = entity_ref;
  entity_type = entity_type;
  measurements = measurements;
}

unfoldable pub target_entity : Operation → Dict FakeEntity → Result FakeEntity
target_entity o entities = elim o.target_entity_ref [
  | none ↦ err com_call_failed
  | some entity_ref ↦
      if entity_ref == ""
      then err com_call_failed
      else or_raise (Dict.get entities entity_ref) com_call_failed
]

unfoldable pub updated_entity : Operation → FakeEntity → Fields → FakeEntity
unfolding merge_fields
updated_entity o e properties = record e {
  layer = o.layer;
  geometry =
      Dict.put e.geometry "properties"
        (dict (merge_fields (own_properties (Dict.get e.geometry "properties")) properties));
}

-- One entity per circle, each with the next reference.
unfoldable pub build_circles : Operation → List Circle → ℕ → List Built
unfolding ref_of entity_type_for
build_circles o [] counter = []
build_circles o (c ∷ cs) counter =
    let entity_ref = ref_of (suc counter) in
    (
      record {
        entity_ref = entity_ref;
        entity_type = entity_type_for o.type;
        layer = o.layer;
        feature_id = o.feature_id;
        operation_id = o.operation_id;
        geometry = c.geometry;
        measurements = c.measurements;
      },
      result_of o entity_ref (entity_type_for o.type) c.measured,
    )
    ∷ build_circles o cs (suc counter)

unfoldable pub build_entity : Operation → Dict Value → ℕ → Built
unfolding ref_of entity_type_for
build_entity o measurements counter =
    let entity_ref = ref_of (suc counter) in
    (
      record {
        entity_ref = entity_ref;
        entity_type = entity_type_for o.type;
        layer = o.layer;
        feature_id = o.feature_id;
        operation_id = o.operation_id;
        geometry = o.geometry;
        measurements = measurements;
      },
      result_of o entity_ref (entity_type_for o.type) measurements,
    )

-- UPDATE_ENTITY: the staged entity is changed in place.
unfoldable pub execute_update : Operation → Staged → Result (List Built × Staged)
unfolding target_entity updated_entity
execute_update o s = do
  e ← target_entity o s.entities
  properties ← or_raise (properties_of (Dict.get o.geometry "properties")) com_call_failed
  let changed = updated_entity o e properties
  ok (
    (changed, result_of o e.entity_ref e.entity_type (Dict.put Dict.empty "layer" (str o.layer)))
        ∷ [],
    record s { entities = Dict.put s.entities e.entity_ref changed },
  )

unfoldable pub execute_delete : Operation → Staged → Result (List Built × Staged)
unfolding target_entity
execute_delete o s = do
  e ← target_entity o s.entities
  ok (
    (e, result_of o e.entity_ref e.entity_type (Dict.put Dict.empty "deleted" (bool true))) ∷ [],
    record s { entities = Dict.pop s.entities e.entity_ref },
  )

unfoldable pub count_circles : List Circle → ℕ
count_circles [] = 0
count_circles (c ∷ cs) = suc (count_circles cs)

-- working_entities[entity.entity_ref] = entity, for what was built.
unfoldable pub keep_built : List Built → Dict FakeEntity → Dict FakeEntity
keep_built [] entities = entities
keep_built ((e, r) ∷ bs) entities = keep_built bs (Dict.put entities e.entity_ref e)

abbrev results_of : List Built → List EntityResult
results_of [] = []
results_of ((e, r) ∷ bs) = r ∷ results_of bs

module _ (circles : Operation → Result (List Circle))
    (measure : Operation → Result (Dict Value)) where
  unfoldable pub execute_circles : Operation → Staged → Result (List Built × Staged)
  unfolding build_circles count_circles
  execute_circles o s = do
    cs ← circles o
    ok (build_circles o cs s.counter, record s { counter = s.counter + count_circles cs })

  unfoldable pub execute_create : Operation → Staged → Result (List Built × Staged)
  unfolding build_entity
  execute_create o s = do
    measurements ← measure o
    ok (build_entity o measurements s.counter ∷ [], record s { counter = suc s.counter })

  -- _execute_operation, which a dispatch on the operation's type ends in one of these.
  abbrev pub execute_as : OperationType → Operation → Staged → Result (List Built × Staged)
  execute_as update_entity o s = execute_update o s
  execute_as delete_entity o s = execute_delete o s
  execute_as create_circles o s = execute_circles o s
  execute_as _ o s = execute_create o s

  unfoldable pub execute_operation : Operation → Staged → Result (List Built × Staged)
  unfolding execute_update execute_delete execute_circles execute_create
  execute_operation o s = execute_as o.type o s

  -- The loop over the plan's operations, with the results so far.
  unfoldable pub stage :
      List Operation → Staged → List EntityResult → Result (Staged × List EntityResult)
  unfolding execute_operation keep_built
  stage [] s results = ok (s, results)
  stage (o ∷ os) s results = do
    (built, s') ← execute_operation o s
    let kept = if is_delete o.type then s'.entities else keep_built built s'.entities
    stage os (record s' { entities = kept }) (results ++ results_of built)

-- _apply_entities: entities that are not staged go; the others keep their reference and take the rest.
unfoldable pub retained : Dict FakeEntity → List (String × FakeEntity) → List (String × FakeEntity)
retained working [] = []
retained working ((entity_ref, e) ∷ es) =
    let rest = retained working es in
    if is_some (Dict.get working entity_ref) then (entity_ref, e) ∷ rest else rest

abbrev overwrite : Option FakeEntity → FakeEntity → FakeEntity
overwrite none staged = staged
overwrite (some existing) staged = record staged { entity_ref = existing.entity_ref }

unfoldable pub apply_staged : List (String × FakeEntity) → Dict FakeEntity → Dict FakeEntity
apply_staged [] entities = entities
apply_staged ((entity_ref, staged) ∷ es) entities =
    apply_staged es (Dict.put entities entity_ref (overwrite (Dict.get entities entity_ref) staged))

unfoldable pub apply_entities : Dict FakeEntity → Dict FakeEntity → Dict FakeEntity
unfolding retained apply_staged
apply_entities working entities =
    apply_staged working.items (record { items = retained working entities.items })
