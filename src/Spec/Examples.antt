-- ===== src/Spec/Examples.antt =====
-- The theorems of Spec at concrete specifications.
use autocad_mechanical_harne.Base.{String, ◌≡◌, ◌≢◌, false, [], ◌∷◌, arith, eq_iff}
use autocad_mechanical_harne.Base.Dict
use autocad_mechanical_harne.Value.{null, str}
use autocad_mechanical_harne.Spec.{
  FeatureSpec, DrawingSpec, childless, child, accepted_raster_feature, any_token,
  redact_raster_acceptance_tokens,
}
use autocad_mechanical_harne.Spec.Redaction.{token, AllRedacted, redact-clean}

abbrev pub trace : FeatureSpec
trace = record {
  feature_id = "f1";
  type = accepted_raster_feature;
  parameters = Dict.put (Dict.put Dict.empty "report" (str "r")) token (str "secret");
  modifiers = null;
  children =
      child "f2" "hole" (Dict.put Dict.empty "diameter_mm" (str "4")) null childless childless;
}

abbrev pub traced_spec : DrawingSpec
traced_spec = record {
  schema_version = "1.13";
  spec_id = "spec_1";
  document_id = "doc_1";
  features = trace ∷ [];
  rest = null;
}

redact-clean_example :
    (any_token (redact_raster_acceptance_tokens traced_spec).features ≡ false)
    × (redact_raster_acceptance_tokens (redact_raster_acceptance_tokens traced_spec)
        ≡ redact_raster_acceptance_tokens traced_spec)
    × AllRedacted traced_spec.features (redact_raster_acceptance_tokens traced_spec).features
    × (redact_raster_acceptance_tokens traced_spec
        ≡ record traced_spec { features = (redact_raster_acceptance_tokens traced_spec).features })
redact-clean_example = redact-clean traced_spec

token_ne_report : ◌≢◌ {A = String} token "report"
token_ne_report = ground (arith, eq_iff token "report")

marker_ne_report : ◌≢◌ {A = String} "acceptance_token_redacted" "report"
marker_ne_report = ground (arith, eq_iff "acceptance_token_redacted" "report")
