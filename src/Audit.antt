-- ===== src/Audit.antt =====
-- cad_harness/observability/audit.py: the audit trail that is kept in memory. The digest of a canonical
-- text, the text of a time and the redaction of a payload are parameters; the clock's time and the new
-- identifier are arguments.
pub mod Chain
mod Examples
use autocad_mechanical_harne.Base.{
  ℕ, String, Bool, true, false, ◌&&◌, Option, none, some, List, [], ◌∷◌, ◌++◌, option_eq,
}
use autocad_mechanical_harne.Value.{Value, str, dict, option_str, fields_of}

pub record AuditEvent : Type 0 where
  pub event_id : String
  pub event_type : String
  pub job_id : Option String
  pub actor_type : String
  pub actor_id : String
  pub payload : Value
  pub created_at : ℕ
  pub previous_event_hash : Option String
  pub event_hash : String

-- self.events[-1].event_hash if self.events else None
unfoldable pub last_hash : Option String → List AuditEvent → Option String
last_hash before [] = before
last_hash before (e ∷ es) = last_hash (some e.event_hash) es

-- The arguments of `append`.
pub record Entry : Type 0 where
  pub event_type : String
  pub job_id : Option String
  pub actor_type : String
  pub actor_id : String
  pub payload : Value

module _ (sha256_of : Value → String) (isoformat : ℕ → String)
    (redact_payload : Value → Value) where
  -- The dict that an event's hash covers.
  unfoldable pub hashed_fields : Entry → String → ℕ → Option String → Value
  hashed_fields e event_id created_at previous_hash = dict (
      fields_of (
        ("event_id", str event_id)
        ∷ ("event_type", str e.event_type)
        ∷ ("job_id", option_str e.job_id)
        ∷ ("actor_type", str e.actor_type)
        ∷ ("actor_id", str e.actor_id)
        ∷ ("payload", redact_payload e.payload)
        ∷ ("created_at", str (isoformat created_at))
        ∷ ("previous_event_hash", option_str previous_hash)
        ∷ []))

  unfoldable pub append : Entry → String → ℕ → List AuditEvent → List AuditEvent
  unfolding hashed_fields last_hash
  append e event_id created_at events =
      events
      ++ record {
        event_id = event_id;
        event_type = e.event_type;
        job_id = e.job_id;
        actor_type = e.actor_type;
        actor_id = e.actor_id;
        payload = redact_payload e.payload;
        created_at = created_at;
        previous_event_hash = last_hash none events;
        event_hash = sha256_of (hashed_fields e event_id created_at (last_hash none events));
      }
        ∷ []

-- The loop of `verify_chain`, from the hash that it expects on.
unfoldable pub verify_from : Option String → List AuditEvent → Bool
verify_from expected [] = true
verify_from expected (e ∷ es) =
    option_eq e.previous_event_hash expected && verify_from (some e.event_hash) es

unfoldable pub verify_chain : List AuditEvent → Bool
unfolding verify_from
verify_chain events = verify_from none events
