-- ===== src/Canonical/Examples.antt =====
-- The theorems of Canonical at concrete values.
use autocad_mechanical_harne.Base.{◌≡◌, ◌↔◌}
use autocad_mechanical_harne.Value.{Value, str, dict, end, field}
use autocad_mechanical_harne.Canonical.{strip_volatile, volatile_fields}
use autocad_mechanical_harne.Canonical.Strip.{Avoids, strip_volatile-Avoids}

abbrev traced : Value
traced =
    dict (field "layer" (dict (field "trace_id" (str "t1") end)) (field "plan_hash" (str "h") end))

strip_volatile-Avoids_example :
    Avoids volatile_fields (strip_volatile volatile_fields traced)
    × (Avoids volatile_fields traced ↔ (strip_volatile volatile_fields traced ≡ traced))
    × (strip_volatile volatile_fields (strip_volatile volatile_fields traced)
        ≡ strip_volatile volatile_fields traced)
strip_volatile-Avoids_example = strip_volatile-Avoids volatile_fields traced
