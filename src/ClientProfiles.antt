-- ===== src/ClientProfiles.antt =====
-- cad_harness/security/client_profiles.py: which tools an MCP client may call. A profile's settings are
-- those of cad_harness/config.py; a set of tools is a list, read by membership.
pub mod Mutations
mod Examples
use autocad_mechanical_harne.Base.{
  String, ◌==◌, Bool, true, false, ◌&&◌, not, Option, none, some, List, [], ◌∷◌, ◌++◌,
  if◌then◌else◌,
}
use autocad_mechanical_harne.Base.Dict
use autocad_mechanical_harne.Base.Dict.{Dict}
use autocad_mechanical_harne.Canonical.{contains}

pub data PermissionMode : Type 0 where
  read_only : PermissionMode
  planning : PermissionMode
  approval_required : PermissionMode
  full : PermissionMode

pub record ClientProfileSettings : Type 0 where
  pub mode : PermissionMode
  pub allowed_tools : List String

pub record ClientPermissionProfile : Type 0 where
  pub client_id : String
  pub mode : PermissionMode
  pub allowed_tools : List String

abbrev pub tool_names : List String
tool_names =
    "cad_status" ∷ "cad_document_inspect" ∷ "cad_selection_inspect" ∷ "cad_feature_catalog_search"
    ∷ "cad_job_create" ∷ "cad_spec_submit" ∷ "cad_change_submit" ∷ "cad_change_prepare"
    ∷ "cad_preview" ∷ "cad_validate" ∷ "cad_diff_get" ∷ "cad_commit" ∷ "cad_rollback" ∷ "cad_export"
    ∷ "cad_drawing_read" ∷ "cad_feature_recognize" ∷ "cad_takeoff" ∷ "cad_takeoff_export"
    ∷ "cad_audit" ∷ "cad_measure" ∷ "cad_image_inspect" ∷ "cad_image_trace" ∷ "cad_image_draft" ∷ []

abbrev pub read_only_tools : List String
read_only_tools =
    "cad_status" ∷ "cad_document_inspect" ∷ "cad_selection_inspect" ∷ "cad_feature_catalog_search"
    ∷ "cad_validate" ∷ "cad_diff_get" ∷ "cad_drawing_read" ∷ "cad_feature_recognize" ∷ "cad_takeoff"
    ∷ "cad_audit" ∷ "cad_measure" ∷ "cad_image_inspect" ∷ "cad_image_trace" ∷ "cad_image_draft" ∷ []

abbrev pub dwg_mutating_tools : List String
dwg_mutating_tools = "cad_commit" ∷ "cad_rollback" ∷ []

abbrev pub planning_tools : List String
planning_tools =
    read_only_tools
    ++ "cad_job_create" ∷ "cad_spec_submit" ∷ "cad_change_submit" ∷ "cad_change_prepare"
      ∷ "cad_preview" ∷ []

-- _tools_for_mode
unfoldable pub tools_for_mode : PermissionMode → List String
tools_for_mode read_only = read_only_tools
tools_for_mode planning = planning_tools
tools_for_mode approval_required = tool_names
tools_for_mode full = tool_names

-- implied.intersection(allowed)
unfoldable pub intersection : List String → List String → List String
intersection [] allowed = []
intersection (t ∷ ts) allowed =
    let rest = intersection ts allowed in if contains t allowed then t ∷ rest else rest

abbrev pub is_empty : List String → Bool
is_empty [] = true
is_empty (t ∷ ts) = false

abbrev is_read_only : PermissionMode → Bool
is_read_only read_only = true
is_read_only _ = false

-- client_id or "anonymous"
unfoldable pub resolved_client_id : Option String → String
resolved_client_id none = "anonymous"
resolved_client_id (some id) = if id == "" then "anonymous" else id

-- The tools of a configured client.
unfoldable pub configured_tools : ClientProfileSettings → List String
unfolding tools_for_mode intersection
configured_tools s =
    if not (is_read_only s.mode) && not (is_empty s.allowed_tools)
    then intersection (tools_for_mode s.mode) s.allowed_tools
    else tools_for_mode s.mode

unfoldable pub resolve_profile :
    Option String → Dict ClientProfileSettings → ClientPermissionProfile
unfolding configured_tools resolved_client_id
resolve_profile client_id clients = elim (Dict.get clients (resolved_client_id client_id)) [
  | none ↦ record {
    client_id = resolved_client_id client_id;
    mode = read_only;
    allowed_tools = read_only_tools;
  }
  | some s ↦ record {
    client_id = resolved_client_id client_id;
    mode = s.mode;
    allowed_tools = configured_tools s;
  }
]
