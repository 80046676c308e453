-- ===== src/Harness/Lifecycle/Redacts.antt =====
-- What submit_spec stores of a specification.
use autocad_mechanical_harne.Base.{List}
use autocad_mechanical_harne.Base.Dict
use autocad_mechanical_harne.Base.Dict.{Dict}
use autocad_mechanical_harne.Value.{Value}
use autocad_mechanical_harne.Spec.{DrawingSpec}
use autocad_mechanical_harne.Harness.World.{Harness, World}

abbrev specs : {S : Type 0} → World S → Dict (List DrawingSpec)
specs w = w.store.specs
