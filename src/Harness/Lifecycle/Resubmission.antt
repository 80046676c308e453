-- ===== src/Harness/Lifecycle/Resubmission.antt =====
-- What HarnessService.submit_spec makes of a job that had been compiled, validated or approved.
use autocad_mechanical_harne.Base.{String, ◌≡◌, true, none, some, [], ◌∷◌}
use autocad_mechanical_harne.Base.Dict
use autocad_mechanical_harne.Base.Dict.{Dict}
use autocad_mechanical_harne.Value.{Value}
use autocad_mechanical_harne.Job.{CadJob, spec_accepted, planned, is_in}
use autocad_mechanical_harne.Store.{JobStore, get_job}
use autocad_mechanical_harne.Harness.World.{Harness, World}

-- The job of a store has no approval, and must be validated anew.
abbrev pub Unapproved : String → JobStore → Type 0
Unapproved id s =
    (j : CadJob) × (get_job s id ≡ some j)
    × (j.approval_id ≡ none)
    × (is_in j.state (spec_accepted ∷ planned ∷ []) ≡ true)
