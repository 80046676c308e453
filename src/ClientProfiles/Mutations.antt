-- ===== src/ClientProfiles/Mutations.antt =====
-- Which clients of cad_harness/security/client_profiles.py reach the tools that change a drawing.
use autocad_mechanical_harne.Base.{
  String, ◌≡◌, refl, sym, ◌∙◌, ap, subst, Bool, true, false, ◌&&◌, ◌||◌, Option, some, List, [],
  ◌∷◌, arith, eq_iff, ◌↔◌, ◌⊎◌, inl, inr, Option-cases, some-eq,
}
use autocad_mechanical_harne.Base.Dict
use autocad_mechanical_harne.Base.Dict.{Dict}
use autocad_mechanical_harne.Canonical.{contains}
use autocad_mechanical_harne.ClientProfiles.{
  PermissionMode, read_only, planning, approval_required, full, ClientProfileSettings,
  dwg_mutating_tools, tools_for_mode, intersection, configured_tools, is_empty, resolved_client_id,
  resolve_profile,
}

-- The modes in which a client may reach a write at all.
abbrev pub may_write : PermissionMode → Bool
may_write read_only = false
may_write planning = false
may_write approval_required = true
may_write full = true

contains-intersection :
    (t : String) (ts allowed : List String)
    → contains t (intersection ts allowed) ≡ (contains t ts && contains t allowed)
unfolding intersection
contains-intersection t [] allowed = refl
contains-intersection t (x ∷ xs) allowed =
    ground (arith, eq_iff t x, ap (λ s. contains s allowed), contains-intersection t xs allowed)

mutating-cases :
    (t : String) → contains t dwg_mutating_tools ≡ true → (t ≡ "cad_commit") ⊎ (t ≡ "cad_rollback")
mutating-cases t h = ground (arith, h, eq_iff t "cad_commit", eq_iff t "cad_rollback")

-- A mode gives a tool that changes a drawing exactly where it may write.
mutating-mode :
    (t : String) (m : PermissionMode)
    → contains t dwg_mutating_tools ≡ true
    → contains t (tools_for_mode m) ≡ may_write m
unfolding tools_for_mode
mutating-mode t m h = elim (mutating-cases t h) [
  | inl e ↦ subst (λ s. contains s (tools_for_mode m) ≡ may_write m) (sym e) (at_commit m)
  | inr e ↦ subst (λ s. contains s (tools_for_mode m) ≡ may_write m) (sym e) (at_rollback m)
]
  where
    at_commit : (m : PermissionMode) → contains "cad_commit" (tools_for_mode m) ≡ may_write m
    at_commit read_only = refl
    at_commit planning = refl
    at_commit approval_required = refl
    at_commit full = refl

    at_rollback : (m : PermissionMode) → contains "cad_rollback" (tools_for_mode m) ≡ may_write m
    at_rollback read_only = refl
    at_rollback planning = refl
    at_rollback approval_required = refl
    at_rollback full = refl

-- What a configured client's settings say of a tool: the mode may write, and the list of tools, where
-- there is one, names it.
abbrev pub Permits : ClientProfileSettings → String → Type 0
Permits s t =
    (may_write s.mode ≡ true) × ((s.allowed_tools ≡ []) ⊎ (contains t s.allowed_tools ≡ true))

configured-contains :
    (m : PermissionMode) (tools : List String) (t : String)
    → contains t dwg_mutating_tools ≡ true
    → contains t (configured_tools (record { mode = m; allowed_tools = tools }))
      ≡ (may_write m && (is_empty tools || contains t tools))
unfolding configured_tools
configured-contains m [] t h = ground (arith, mutating-mode t m h)
configured-contains m (x ∷ xs) t h =
    ground (arith, mutating-mode t m h, contains-intersection t (tools_for_mode m) (x ∷ xs))

both :
    (m : PermissionMode) (tools : List String) (t : String)
    → ((may_write m && (is_empty tools || contains t tools)) ≡ true)
      ↔ Permits (record { mode = m; allowed_tools = tools }) t
both m [] t = (λ h. (ground (arith, h), inl refl), λ h. ground (arith, h.0))
both m (x ∷ xs) t = (
  λ h. (ground (arith, h), inr (ground (arith, h))),
  λ h. elim h.1 [ inl e ↦ absurd (ground (arith, e)) | inr c ↦ ground (arith, h.0, c) ],
)

configured-Permits :
    (s : ClientProfileSettings) (t : String)
    → contains t dwg_mutating_tools ≡ true
    → (contains t (configured_tools s) ≡ true) ↔ Permits s t
configured-Permits s t h =
    let same = configured-contains s.mode s.allowed_tools t h in
    let way = both s.mode s.allowed_tools t in (λ e. way.0 (sym same ∙ e), λ p. same ∙ way.1 p)

-- A client reaches a tool that changes a drawing exactly if it is configured by its name (that of an
-- anonymous client is "anonymous"), in a mode that may write, and with no list of tools or one that
-- names the tool: every other client, unknown ones among them, cannot call it.
pub resolve_profile-Permits :
    (client_id : Option String) (clients : Dict ClientProfileSettings) (t : String)
    → contains t dwg_mutating_tools ≡ true
    → (contains t (resolve_profile client_id clients).allowed_tools ≡ true) ↔ (
        (s : ClientProfileSettings) × (Dict.get clients (resolved_client_id client_id) ≡ some s)
        × Permits s t)
unfolding resolve_profile tools_for_mode
resolve_profile-Permits client_id clients t h =
    elim (Option-cases (Dict.get clients (resolved_client_id client_id))) [
      | inl unknown ↦ (
        λ e. absurd (ground (arith, e, unknown, mutating-mode t read_only h)),
        λ p. absurd (ground (arith, unknown, p.1)),
      )
      | inr (s, known) ↦
          let way = configured-Permits s t h in
          (
            λ e. (s, known, way.0 (ground (arith, e, known))),
            λ p.
                let same : s ≡ p.0 = some-eq (sym known ∙ p.1) in
                ground (arith, known, way.1 (subst (λ x. Permits x t) (sym same) p.2)),
          )
    ]
