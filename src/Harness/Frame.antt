-- ===== src/Harness/Frame.antt =====
-- What the methods of the workflow leave alone: none but the adapter's own calls touch the drawing.
use autocad_mechanical_harne.Base.{String, ◌≡◌, Bool, Option, arith}
use autocad_mechanical_harne.Job.{CadJob}
use autocad_mechanical_harne.Validation.{ValidationStage, ValidationReport}
use autocad_mechanical_harne.Harness.World.{Harness, World}
use autocad_mechanical_harne.Harness.Act.{Keeps}
use autocad_mechanical_harne.Harness.Lifecycle.{inspect_document, validate_plan, advance_validated}
use autocad_mechanical_harne.Harness.Lock.{let_go, take}

abbrev pub drawing : {S : Type 0} → World S → S
drawing w = w.drawing

module _ {S : Type 0} (h : Harness S) where
  pub inspect_document-drawing : (d : Option String) → Keeps drawing (inspect_document h d)
  unfolding inspect_document
  inspect_document-drawing d w = ground arith

  advance_validated-drawing :
      (job : CadJob) (stage : ValidationStage) (r : ValidationReport)
      → Keeps drawing (advance_validated h job stage r)
  unfolding advance_validated
  advance_validated-drawing job stage r w = ground arith

  pub validate_plan-drawing :
      (job_id : String) (stage : ValidationStage) (allow : Bool)
      → Keeps drawing (validate_plan h job_id stage allow)
  unfolding validate_plan
  validate_plan-drawing job_id stage allow w = grind (arith, advance_validated-drawing)

  pub let_go-drawing : (w : World S) → (let_go h w).drawing ≡ w.drawing
  unfolding let_go
  let_go-drawing w = ground arith

  pub take-drawing : (d o : String) → Keeps drawing (take h d o)
  unfolding take
  take-drawing d o w = ground arith
