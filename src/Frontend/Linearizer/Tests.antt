-- ===== src/Frontend/Linearizer/Tests.antt =====
-- The diamond: D extends B with C, and both extend A.
use mathlib.Core.List.{reverse}
use proto_scala.Common.{◌≡◌, refl, List, [], ◌∷◌, Bytes, codes}
use proto_scala.Frontend.Linearizer.{contains, linearize}
use proto_scala.Frontend.Linearizer.Spec.{sls, some_contains}
use proto_scala.Frontend.Linearizer.Laws.{linearize-sls}

abbrev b_order : List Bytes
b_order = codes "B" ∷ codes "A" ∷ codes "AnyRef" ∷ codes "Any" ∷ []

abbrev c_order : List Bytes
c_order = codes "C" ∷ codes "A" ∷ codes "AnyRef" ∷ codes "Any" ∷ []

diamond :
    linearize (codes "D") (b_order ∷ c_order ∷ [])
    ≡ codes "D" ∷ codes "C" ∷ codes "B" ∷ codes "A" ∷ codes "AnyRef" ∷ codes "Any" ∷ []
unfolding linearize
diamond = refl

linearize-sls_example :
    linearize (codes "D") (b_order ∷ c_order ∷ [])
    ≡ codes "D" ∷ sls (reverse (b_order ∷ c_order ∷ []))
unfolding some_contains contains
linearize-sls_example = linearize-sls (codes "D") (b_order ∷ c_order ∷ []) refl
