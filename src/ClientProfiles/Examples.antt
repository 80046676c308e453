-- ===== src/ClientProfiles/Examples.antt =====
-- Two configured clients, and what they may call, for cad_harness/security/client_profiles.py.
use autocad_mechanical_harne.Base.{◌≡◌, refl, ◌↔◌, true, some, [], ◌∷◌}
use autocad_mechanical_harne.Base.Dict
use autocad_mechanical_harne.Base.Dict.{Dict}
use autocad_mechanical_harne.Canonical.{contains}
use autocad_mechanical_harne.ClientProfiles.{
  ClientProfileSettings, approval_required, planning, resolve_profile, resolved_client_id,
  configured_tools, intersection, tools_for_mode,
}
use autocad_mechanical_harne.ClientProfiles.Mutations.{Permits, resolve_profile-Permits}

abbrev clients : Dict ClientProfileSettings
clients = record {
  items =
      ("desktop", record { mode = approval_required; allowed_tools = "cad_commit" ∷ [] })
      ∷ ("planner", record { mode = planning; allowed_tools = "cad_commit" ∷ "cad_preview" ∷ [] })
      ∷ [];
}

desktop_tools : (resolve_profile (some "desktop") clients).allowed_tools ≡ "cad_commit" ∷ []
unfolding resolve_profile resolved_client_id configured_tools intersection tools_for_mode Dict.get
    Dict.lookup_items
desktop_tools = refl

planner_tools : (resolve_profile (some "planner") clients).allowed_tools ≡ "cad_preview" ∷ []
unfolding resolve_profile resolved_client_id configured_tools intersection tools_for_mode Dict.get
    Dict.lookup_items
planner_tools = refl

resolve_profile-Permits_example :
    (contains "cad_commit" (resolve_profile (some "desktop") clients).allowed_tools ≡ true) ↔ (
      (s : ClientProfileSettings) × (Dict.get clients (resolved_client_id (some "desktop"))
        ≡ some s)
      × Permits s "cad_commit")
resolve_profile-Permits_example = resolve_profile-Permits (some "desktop") clients "cad_commit" refl
