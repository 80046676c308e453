-- ===== src/Validation/Gate.antt =====
-- What the commit gate of cad_harness/domain/models/validation.py and the engine of
-- cad_harness/validation/engine.py promise together.
use autocad_mechanical_harne.Base.{
  ◌+◌, ◌<◌, ◌≤◌, ◌≡◌, ◌↔◌, refl, String, true, false, List, [], ◌∷◌, ◌++◌, arith, All,
}
use autocad_mechanical_harne.Errors.{ok, >>=-eq-ok}
use autocad_mechanical_harne.Validation.{
  Severity, info, warning, error, blocking, ValidationStage, Finding, ValidationReport, RuleContext,
  ValidationRule, count, derive_severity_counts, gate_allows_commit, rules_for, in_stages, collect,
  run,
}

-- Neither an error nor a blocking finding.
abbrev pub Tolerable : Severity → Type 0
Tolerable info = Unit {0}
Tolerable warning = Unit {0}
Tolerable error = ⊥
Tolerable blocking = ⊥

count-Tolerable :
    (fs : List Finding)
    → ((count blocking fs ≡ 0) × (count error fs ≡ 0)) ↔ All (λ f. Tolerable f.severity) fs
unfolding count
count-Tolerable [] = (λ _. tt, λ _. (refl, refl))
count-Tolerable (f ∷ fs) = go f.severity (count-Tolerable fs)
  where
    go :
        (s : Severity)
        → ((count blocking fs ≡ 0) × (count error fs ≡ 0)) ↔ All (λ g. Tolerable g.severity) fs
        → ((count blocking (record f { severity = s } ∷ fs) ≡ 0)
            × (count error (record f { severity = s } ∷ fs) ≡ 0))
          ↔ (Tolerable s × All (λ g. Tolerable g.severity) fs)
    go info ih = (λ h. (tt, ih.0 h), λ h. ih.1 h.1)
    go warning ih = (λ h. (tt, ih.0 h), λ h. ih.1 h.1)
    go error ih = (λ h. absurd (omega (arith, h.1)), λ h. absurd h.0)
    go blocking ih = (λ h. absurd (omega (arith, h.0)), λ h. absurd h.0)

-- Under the default policy a report, its counts derived as they are whenever one is built, lets a
-- commit through exactly if none of its findings is an error or blocking.
pub gate_allows_commit-Tolerable :
    (r : ValidationReport)
    → (gate_allows_commit (derive_severity_counts r) true ≡ true)
      ↔ All (λ f. Tolerable f.severity) r.findings
unfolding gate_allows_commit derive_severity_counts
gate_allows_commit-Tolerable r = (
  λ h. (count-Tolerable r.findings).0 (ground arith, ground arith),
  λ h. let (b, e) = (count-Tolerable r.findings).1 h in ground arith,
)

count-append : (s : Severity) (xs ys : List Finding) → count s (xs ++ ys) ≡ count s xs + count s ys
unfolding count
count-append s [] ys = omega arith
count-append s (f ∷ xs) ys = ground (arith, count-append s xs ys)

collect-keeps :
    (s : Severity) (rules : List ValidationRule) (c : RuleContext) (acc out : List Finding)
    → collect rules c acc ≡ ok out
    → count s acc ≤ count s out
unfolding collect
collect-keeps s [] c acc out e = ground arith
collect-keeps s (r ∷ rs) c acc out e =
    let (found, _, rest) = >>=-eq-ok (r.evaluate c) _ e in
    omega (arith, count-append s acc found, collect-keeps s rs c (acc ++ found) out rest)

collect-counts :
    (s : Severity) (before after : List ValidationRule) (r : ValidationRule) (c : RuleContext)
    (acc out fs : List Finding)
    → r.evaluate c ≡ ok fs
    → collect (before ++ r ∷ after) c acc ≡ ok out
    → count s fs ≤ count s out
unfolding collect
collect-counts s [] after r c acc out fs found e =
    let (gs, same, rest) = >>=-eq-ok (r.evaluate c) _ e in
    let equal : fs ≡ gs = ground (arith, found, same) in
    rw equal (omega (arith, count-append s acc gs, collect-keeps s after c (acc ++ gs) out rest))
collect-counts s (b ∷ before) after r c acc out fs found e =
    let (gs, same, rest) = >>=-eq-ok (b.evaluate c) _ e in
    collect-counts s before after r c (acc ++ gs) out fs found rest

rules_for-append :
    (xs ys : List ValidationRule) (stage : ValidationStage)
    → rules_for (xs ++ ys) stage ≡ rules_for xs stage ++ rules_for ys stage
unfolding rules_for
rules_for-append [] ys stage = refl
rules_for-append (r ∷ xs) ys stage = ground (arith, rules_for-append xs ys stage)

rules_for-cons :
    (r : ValidationRule) (rs : List ValidationRule) (stage : ValidationStage)
    → in_stages stage r.stages ≡ true
    → rules_for (r ∷ rs) stage ≡ r ∷ rules_for rs stage
unfolding rules_for
rules_for-cons r rs stage h = rw h

-- Wherever a rule stands among the engine's rules: if it is registered for the stage and finds an
-- error or a blocking finding, then a run that completes gives a report that blocks the commit. No
-- other rule, and no order of the rules, can hide what it found.
pub run-blocks :
    (before after : List ValidationRule) (r : ValidationRule) (stage : ValidationStage)
    (c : RuleContext) (version job_id id : String) (fs : List Finding) (report : ValidationReport)
    → in_stages stage r.stages ≡ true
    → r.evaluate c ≡ ok fs
    → 0 < count blocking fs + count error fs
    → run (before ++ r ∷ after) version stage c job_id id ≡ ok report
    → gate_allows_commit report true ≡ false
unfolding run gate_allows_commit
run-blocks before after r stage c version job_id id fs report applies found bad e =
    let (out, collected, built) =
      >>=-eq-ok (collect (rules_for (before ++ r ∷ after) stage) c []) _ e in
    let split : collect (rules_for before stage ++ r ∷ rules_for after stage) c [] ≡ ok out =
      rw (← rules_for-cons r after stage applies, ← rules_for-append before (r ∷ after) stage)
        collected in
    let blocks =
      collect-counts blocking (rules_for before stage) (rules_for after stage) r c [] out fs found
        split in
    let errors =
      collect-counts error (rules_for before stage) (rules_for after stage) r c [] out fs found
        split in
    ground (arith, blocks, errors, built)
