-- ===== src/Harness/Styles.antt =====
-- HarnessService._missing_live_style_findings: the resources that a plan needs and the live drawing
-- lacks, each a blocking finding. A set of texts is a sorted list without repetitions.
use Prim.Native.Nat.{Ordering}
use Prim.Native.String.{compare}
use autocad_mechanical_harne.Base.{
  ◌<>◌, String, ◌==◌, Option, none, some, List, [], ◌∷◌, ◌++◌, map, if◌then◌else◌,
}
use autocad_mechanical_harne.Base.Dict
use autocad_mechanical_harne.Base.Dict.{Dict}
use autocad_mechanical_harne.Value.{str, array, values_of}
use autocad_mechanical_harne.Plan.{Operation, OperationPlan}
use autocad_mechanical_harne.Validation.{Finding, CompanyProfile, blocking, contains}
use autocad_mechanical_harne.Outcome.{DocumentSnapshot}

-- dict.setdefault
unfoldable pub setdefault : Dict String → String → String → Dict String
setdefault d k v = elim (Dict.get d k) [ some present ↦ d | none ↦ Dict.put d k v ]

-- The geometry's text under a field, if it is one and not empty.
unfoldable pub style_of : Operation → String → Option String
style_of o field_name = elim (Dict.get o.geometry field_name) [
  | some (str s) ↦ if s == "" then none else some s
  | _ ↦ none
]

unfoldable pub required_styles : String → List Operation → Dict String → Dict String
unfolding style_of setdefault
required_styles field_name [] d = d
required_styles field_name (o ∷ os) d = elim (style_of o field_name) [
  | some value ↦ required_styles field_name os (setdefault d value o.operation_id)
  | none ↦ required_styles field_name os d
]

unfoldable pub required_layers : List Operation → Dict String → Dict String
unfolding setdefault
required_layers [] d = d
required_layers (o ∷ os) d = required_layers os (setdefault d o.layer o.operation_id)

unfoldable pub insert_item : String × String → List (String × String) → List (String × String)
insert_item (k, v) [] = (k, v) ∷ []
insert_item (k, v) ((j, u) ∷ m) =
    let rest = insert_item (k, v) m in
    elim (compare k j) [ Ordering.gt ↦ (j, u) ∷ rest | _ ↦ (k, v) ∷ (j, u) ∷ m ]

-- sorted(d.items())
unfoldable pub sorted_items : List (String × String) → List (String × String)
unfolding insert_item
sorted_items [] = []
sorted_items (p ∷ m) = insert_item p (sorted_items m)

unfoldable pub insert_text : String → List String → List String
insert_text s [] = s ∷ []
insert_text s (t ∷ ts) =
    let rest = insert_text s ts in
    elim (compare s t) [ Ordering.gt ↦ t ∷ rest | Ordering.eq ↦ t ∷ ts | Ordering.lt ↦ s ∷ t ∷ ts ]

-- sorted(set(...))
unfoldable pub sorted_set : List String → List String
unfolding insert_text
sorted_set [] = []
sorted_set (s ∷ ss) = insert_text s (sorted_set ss)

-- What a loop writes into its findings.
pub record MissingRule : Type 0 where
  pub rule_id : String
  pub message : String
  pub suggested_fix : String

abbrev missing_layer : MissingRule
missing_layer = record {
  rule_id = "LIVE_LAYER_MISSING";
  message = "Required layer is not present in the live drawing.";
  suggested_fix =
      "Load the approved DWT/DWS layers, then inspect, preview, " <> "validate and approve again.";
}

abbrev missing_style : String → String → MissingRule
missing_style rule_id label = record {
  rule_id = rule_id;
  message = "Required " <> label <> " is not present in the live drawing.";
  suggested_fix =
      "Load the approved DWT/DWS styles, then inspect, preview, " <> "validate and approve again.";
}

-- One loop over the required names: a finding for each that is not available.
unfoldable pub missing_findings : MissingRule → List (String × String) → List String → List Finding
unfolding sorted_set
missing_findings rule [] available = []
missing_findings rule ((name, operation_id) ∷ required) available =
    let rest = missing_findings rule required available in
    if contains available name
    then rest
    else record {
      rule_id = rule.rule_id;
      severity = blocking;
      message = rule.message;
      feature_id = none;
      entity_ref = none;
      operation_id = some operation_id;
      expected = str name;
      actual = array (values_of (map str (sorted_set available)));
      tolerance = none;
      suggested_fix = some rule.suggested_fix;
      measurement = Dict.empty;
    }
      ∷ rest

unfoldable pub units_findings : String → String → List Finding
units_findings observed canonical =
    if observed == canonical
    then []
    else record {
      rule_id = "LIVE_DOCUMENT_UNITS_MISMATCH";
      severity = blocking;
      message = "Live drawing units do not match the company profile.";
      feature_id = none;
      entity_ref = none;
      operation_id = none;
      expected = str canonical;
      actual = str observed;
      tolerance = none;
      suggested_fix = some (
          "Set the disposable drawing units from the approved template, "
          <> "then inspect, preview, validate and approve again.");
      measurement = Dict.empty;
    }
      ∷ []

unfoldable pub missing_live_style_findings :
    CompanyProfile → OperationPlan → DocumentSnapshot → List Finding
unfolding missing_findings units_findings required_layers required_styles sorted_items
missing_live_style_findings profile plan snapshot =
    missing_findings missing_layer (sorted_items (required_layers plan.operations Dict.empty).items)
      snapshot.layers
    ++ units_findings snapshot.units profile.canonical_unit
    ++ missing_findings (missing_style "LIVE_DIMSTYLE_MISSING" "dimension style")
        (sorted_items (required_styles "dimstyle" plan.operations Dict.empty).items)
        snapshot.dimension_styles
    ++ missing_findings (missing_style "LIVE_TEXTSTYLE_MISSING" "text style")
        (sorted_items (required_styles "textstyle" plan.operations Dict.empty).items)
        snapshot.text_styles
