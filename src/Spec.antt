-- ===== src/Spec.antt =====
-- The part of cad_harness/domain/models/drawing_spec.py that the workflow reads, and the redaction of
-- raster acceptance tokens in cad_harness/application/services/harness_service.py. What the workflow
-- only passes on (modifiers, annotations and so on) is carried as one value.
pub mod Redaction
mod Examples
use autocad_mechanical_harne.Base.{
  String, ◌==◌, Bool, true, false, ◌&&◌, ◌||◌, not, Option, some, none, List, [], ◌∷◌, is_some,
  if◌then◌else◌,
}
use autocad_mechanical_harne.Base.Dict
use autocad_mechanical_harne.Base.Dict.{Dict}
use autocad_mechanical_harne.Value.{Value, bool}

-- A tuple of child features: the first one's identifier, type, parameters, modifiers and own children,
-- and the others.
pub data Children : Type 0 where
  childless : Children
  child : String → String → Dict Value → Value → Children → Children → Children

pub record FeatureSpec : Type 0 where
  pub feature_id : String
  pub type : String
  pub parameters : Dict Value
  pub modifiers : Value
  pub children : Children

pub record DrawingSpec : Type 0 where
  pub schema_version : String
  pub spec_id : String
  pub document_id : String
  pub features : List FeatureSpec
  pub rest : Value

-- _ACCEPTED_RASTER_FEATURE
abbrev pub accepted_raster_feature : String
accepted_raster_feature = "_accepted_raster_trace"

-- The negation of the loop's test, by which a feature is rewritten.
abbrev pub carries_token : FeatureSpec → Bool
carries_token f =
    f.type == accepted_raster_feature && is_some (Dict.get f.parameters "acceptance_token")

-- The body of the loop for one feature.
unfoldable pub redact_feature : FeatureSpec → FeatureSpec
redact_feature f =
    if carries_token f
    then record f {
      parameters =
          Dict.put (Dict.pop f.parameters "acceptance_token") "acceptance_token_redacted"
            (bool true);
    }
    else f

unfoldable pub redact_features : List FeatureSpec → List FeatureSpec
unfolding redact_feature
redact_features [] = []
redact_features (f ∷ fs) = redact_feature f ∷ redact_features fs

-- `changed` after the loop.
unfoldable pub any_token : List FeatureSpec → Bool
any_token [] = false
any_token (f ∷ fs) = carries_token f || any_token fs

-- _redact_raster_acceptance_tokens
unfoldable pub redact_raster_acceptance_tokens : DrawingSpec → DrawingSpec
unfolding redact_features any_token
redact_raster_acceptance_tokens spec =
    if any_token spec.features
    then record spec { features = redact_features spec.features }
    else spec
