-- ===== src/Validation.antt =====
-- cad_harness/domain/models/validation.py: findings, reports and the commit gate, and the engine of
-- cad_harness/validation/engine.py that collects them. A rule is what it declares and one pure
-- evaluation, as in the source's protocol.
pub mod Gate
mod Examples
use autocad_mechanical_harne.Base.{
  ℕ, zero, suc, String, ◌==◌, Bool, true, false, ◌&&◌, ◌||◌, not, Option, none, some, List, [], ◌∷◌,
  ◌++◌, nat_eq, ltb, length, ◌<>◌, if◌then◌else◌,
}
use autocad_mechanical_harne.Errors.{Result, ok, err, guard, value_error, ◌>>=◌, ◌>>◌}
use autocad_mechanical_harne.Base.Dict.{Dict}
use autocad_mechanical_harne.Value.{Value}
use autocad_mechanical_harne.Plan.{OperationPlan}
use autocad_mechanical_harne.Outcome.{CommitResult}

pub data Severity : Type 0 where
  info : Severity
  warning : Severity
  error : Severity
  blocking : Severity

abbrev severity_ordinal : Severity → ℕ
severity_ordinal info = 0
severity_ordinal warning = 1
severity_ordinal error = 2
severity_ordinal blocking = 3

abbrev pub is_severity : Severity → Severity → Bool
is_severity a b = nat_eq (severity_ordinal a) (severity_ordinal b)

pub data ValidationStage : Type 0 where
  schema : ValidationStage
  semantic_input : ValidationStage
  plan : ValidationStage
  preview_geometry : ValidationStage
  company_standard : ValidationStage
  pre_commit : ValidationStage
  post_commit : ValidationStage
  drawing_audit : ValidationStage
  drawing_standard : ValidationStage

abbrev stage_ordinal : ValidationStage → ℕ
stage_ordinal schema = 0
stage_ordinal semantic_input = 1
stage_ordinal plan = 2
stage_ordinal preview_geometry = 3
stage_ordinal company_standard = 4
stage_ordinal pre_commit = 5
stage_ordinal post_commit = 6
stage_ordinal drawing_audit = 7
stage_ordinal drawing_standard = 8

abbrev pub is_stage : ValidationStage → ValidationStage → Bool
is_stage a b = nat_eq (stage_ordinal a) (stage_ordinal b)

-- A tolerance is a float's bit pattern.
pub record Finding : Type 0 where
  pub rule_id : String
  pub severity : Severity
  pub message : String
  pub feature_id : Option String
  pub entity_ref : Option String
  pub operation_id : Option String
  pub expected : Value
  pub actual : Value
  pub tolerance : Option ℕ
  pub suggested_fix : Option String
  pub measurement : Dict Value

pub record ValidationReport : Type 0 where
  pub schema_version : String
  pub validation_id : String
  pub job_id : String
  pub stage : ValidationStage
  pub plan_hash : Option String
  pub findings : List Finding
  pub entities_examined : ℕ
  pub company_approved : Bool
  pub profile_ref : Option String
  pub blocking_count : ℕ
  pub error_count : ℕ
  pub warning_count : ℕ
  pub info_count : ℕ

-- sum(1 for f in self.findings if f.severity is severity)
unfoldable pub count : Severity → List Finding → ℕ
count s [] = 0
count s (f ∷ fs) = if is_severity f.severity s then suc (count s fs) else count s fs

-- The validator `_derive_severity_counts`, which runs whenever a report is built.
unfoldable pub derive_severity_counts : ValidationReport → ValidationReport
unfolding count
derive_severity_counts r = record r {
  blocking_count = count blocking r.findings;
  error_count = count error r.findings;
  warning_count = count warning r.findings;
  info_count = count info r.findings;
}

unfoldable pub has_blocking : ValidationReport → Bool
has_blocking r = ltb 0 r.blocking_count

-- `block_on_error` is the keyword argument; callers leave it at True.
unfoldable pub gate_allows_commit : ValidationReport → Bool → Bool
unfolding has_blocking
gate_allows_commit r block_on_error =
    if has_blocking r then false else not (block_on_error && ltb 0 r.error_count)

-- {finding.rule_id for finding in report.findings if finding.severity is Severity.WARNING}
unfoldable pub warning_rule_ids : List Finding → List String
warning_rule_ids [] = []
warning_rule_ids (f ∷ fs) =
    let rest = warning_rule_ids fs in
    if is_severity f.severity warning then f.rule_id ∷ rest else rest

-- Membership in a collection of texts, and `issubset` of two.
abbrev pub contains : List String → String → Bool
contains [] s = false
contains (t ∷ ts) s = t == s || contains ts s

unfoldable pub issubset : List String → List String → Bool
issubset [] ts = true
issubset (s ∷ ss) ts = contains ts s && issubset ss ts

-- The company profile's part that the workflow reads.
pub record CompanyProfile : Type 0 where
  pub profile_id : String
  pub version : String
  pub company_approved : Bool
  pub canonical_unit : String

-- f"{self.profile_id}@{self.version}"
unfoldable pub as_ref : CompanyProfile → String
as_ref p = p.profile_id <> "@" <> p.version

pub record RuleContext : Type 0 where
  pub profile : CompanyProfile
  pub plan : Option OperationPlan
  pub commit_result : Option CommitResult

pub record ValidationRule : Type 0 where
  pub rule_id : String
  pub stages : List ValidationStage
  pub evaluate : RuleContext → Result (List Finding)

abbrev pub in_stages : ValidationStage → List ValidationStage → Bool
in_stages s [] = false
in_stages s (t ∷ ts) = is_stage s t || in_stages s ts

abbrev registered : String → List ValidationRule → Bool
registered id [] = false
registered id (r ∷ rs) = r.rule_id == id || registered id rs

-- ValidationEngine.register, over the list of rules.
unfoldable pub register : List ValidationRule → ValidationRule → Result (List ValidationRule)
register rules rule = do
  guard (not (registered rule.rule_id rules)) value_error
  ok (rules ++ rule ∷ [])

unfoldable pub rules_for : List ValidationRule → ValidationStage → List ValidationRule
rules_for [] stage = []
rules_for (r ∷ rs) stage =
    let rest = rules_for rs stage in if in_stages stage r.stages then r ∷ rest else rest

-- The loop that extends the findings by each rule's; a rule that raises stops it.
unfoldable pub collect : List ValidationRule → RuleContext → List Finding → Result (List Finding)
collect [] context findings = ok findings
collect (r ∷ rs) context findings = do
  found ← r.evaluate context
  collect rs context (findings ++ found)

abbrev pub plan_size : Option OperationPlan → ℕ
plan_size none = 0
plan_size (some p) = length p.operations

abbrev pub plan_hash_of : Option OperationPlan → Option String
plan_hash_of none = none
plan_hash_of (some p) = p.plan_hash

-- ValidationEngine.run without `entities_examined`. `validation_id` is the new identifier, and
-- `schema_version` the contract's constant.
unfoldable pub run :
    List ValidationRule
    → String
    → ValidationStage
    → RuleContext
    → String
    → String
    → Result ValidationReport
unfolding rules_for collect derive_severity_counts
run rules schema_version stage context job_id validation_id = do
  findings ← collect (rules_for rules stage) context []
  ok (
      derive_severity_counts (record {
        schema_version = schema_version;
        validation_id = validation_id;
        job_id = job_id;
        stage = stage;
        plan_hash = plan_hash_of context.plan;
        findings = findings;
        entities_examined = plan_size context.plan;
        company_approved = context.profile.company_approved;
        profile_ref = some (as_ref context.profile);
        blocking_count = 0;
        error_count = 0;
        warning_count = 0;
        info_count = 0;
      }))
