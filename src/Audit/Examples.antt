-- ===== src/Audit/Examples.antt =====
-- The theorems of Audit at concrete trails.
use autocad_mechanical_harne.Base.{String, ◌≡◌, refl, ◌↔◌, true, Option, none, some, List, [], ◌∷◌}
use autocad_mechanical_harne.Value.{Value, null, str}
use autocad_mechanical_harne.Audit.{AuditEvent, Entry, append, verify_chain}
use autocad_mechanical_harne.Audit.Chain.{
  Linked, verify_chain-Linked, append-verify_chain, verify_chain_edited,
}

abbrev event : String → Option String → String → Value → AuditEvent
event id previous hash payload = record {
  event_id = id;
  event_type = "COMMIT_STARTED";
  job_id = some "job_1";
  actor_type = "system";
  actor_id = "harness";
  payload = payload;
  created_at = 10;
  previous_event_hash = previous;
  event_hash = hash;
}

abbrev trail : List AuditEvent
trail =
    event "event_1" none "sha256:1" null ∷ event "event_2" (some "sha256:1") "sha256:2" null ∷ []

abbrev edited : List AuditEvent
edited =
    event "event_1" none "sha256:1" (str "edited")
    ∷ event "event_2" (some "sha256:1") "sha256:2" null
    ∷ []

abbrev entry : Entry
entry = record {
  event_type = "COMMIT_SUCCEEDED";
  job_id = some "job_1";
  actor_type = "system";
  actor_id = "harness";
  payload = null;
}

verify_chain-Linked_example : (verify_chain trail ≡ true) ↔ Linked none trail
verify_chain-Linked_example = verify_chain-Linked trail

append-verify_chain_example :
    verify_chain (append (λ v. "sha256:3") (λ t. "") (λ v. v) entry "event_3" 11 trail) ≡ true
unfolding verify_chain
append-verify_chain_example =
    append-verify_chain (λ v. "sha256:3") (λ t. "") (λ v. v) entry "event_3" 11 trail refl

verify_chain_edited_example : verify_chain edited ≡ verify_chain trail
verify_chain_edited_example = verify_chain_edited edited trail refl
