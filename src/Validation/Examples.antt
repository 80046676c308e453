-- ===== src/Validation/Examples.antt =====
-- The theorems of Validation at concrete reports and rules.
use autocad_mechanical_harne.Base.{
  ◌≡◌, ◌↔◌, refl, arith, true, false, none, some, List, [], ◌∷◌, All,
}
use autocad_mechanical_harne.Base.Dict
use autocad_mechanical_harne.Value.{null}
use autocad_mechanical_harne.Errors.{ok}
use autocad_mechanical_harne.Validation.{
  Severity, warning, error, pre_commit, Finding, ValidationReport, CompanyProfile, RuleContext,
  ValidationRule, gate_allows_commit, derive_severity_counts, as_ref, run, rules_for, collect,
  count,
}
use autocad_mechanical_harne.Validation.Gate.{Tolerable, gate_allows_commit-Tolerable, run-blocks}

abbrev found : Severity → Finding
found s = record {
  rule_id = "geometry";
  severity = s;
  message = "The radius is off.";
  feature_id = none;
  entity_ref = none;
  operation_id = none;
  expected = null;
  actual = null;
  tolerance = none;
  suggested_fix = none;
  measurement = Dict.empty;
}

abbrev profile : CompanyProfile
profile = record {
  profile_id = "demo";
  version = "1.0";
  company_approved = true;
  canonical_unit = "mm";
}

abbrev report_of : List Finding → ValidationReport
report_of fs = record {
  schema_version = "1.13";
  validation_id = "validation_1";
  job_id = "job_1";
  stage = pre_commit;
  plan_hash = none;
  findings = fs;
  entities_examined = 0;
  company_approved = true;
  profile_ref = some (as_ref profile);
  blocking_count = 0;
  error_count = 0;
  warning_count = 0;
  info_count = 0;
}

gate_allows_commit-Tolerable_example :
    (gate_allows_commit (derive_severity_counts (report_of (found warning ∷ []))) true ≡ true)
    ↔ All (λ f. Tolerable f.severity) (found warning ∷ [])
gate_allows_commit-Tolerable_example = gate_allows_commit-Tolerable (report_of (found warning ∷ []))

abbrev quiet : ValidationRule
quiet = record { rule_id = "quiet"; stages = pre_commit ∷ []; evaluate = λ c. ok [] }

abbrev strict : ValidationRule
strict = record {
  rule_id = "strict";
  stages = pre_commit ∷ [];
  evaluate = λ c. ok (found error ∷ []);
}

abbrev context : RuleContext
context = record { profile = profile; plan = none; commit_result = none }

abbrev blocked : ValidationReport
blocked = derive_severity_counts (report_of (found error ∷ []))

run-blocks_example : gate_allows_commit blocked true ≡ false
unfolding run rules_for collect count derive_severity_counts
run-blocks_example =
    run-blocks (quiet ∷ []) (quiet ∷ []) strict pre_commit context "1.13" "job_1" "validation_1"
      (found error ∷ []) blocked refl refl (omega arith) refl
