-- ===== src/Frontend/Linearizer/Spec.antt =====
-- The linearization of the Scala language specification, 5.1.2, and frontend/Linearizer.cpp
-- against it.
use proto_scala.Common.{
  ◌≡◌, refl, sym, ap, ◌∙◌, Bool, true, false, ◌&&◌, ◌||◌, not, if◌then◌else◌, List, [], ◌∷◌, ◌++◌,
  Bytes, arith,
}
use mathlib.Core.List.{reverse, reverse-append}
use proto_scala.Frontend.Linearizer.{contains, merge_parent, merge_parents, merged}

-- `X +: Y` of the specification: the elements of X that are not in Y, followed by Y.
infixr 66 ◌+:◌
unfoldable pub ◌+:◌ : List Bytes → List Bytes → List Bytes
[] +: ys = ys
(x ∷ xs) +: ys = let rest = xs +: ys in if contains x ys then rest else x ∷ rest

-- The linearizations put one by one in front of `ys`.
unfoldable pub sls_onto : List Bytes → List (List Bytes) → List Bytes
unfolding ◌+:◌
sls_onto ys [] = ys
sls_onto ys (p ∷ ps) = p +: sls_onto ys ps

-- `L(Pn) +: ... +: L(P1)`, from the linearizations in the order Pn, ..., P1.
unfoldable pub sls : List (List Bytes) → List Bytes
unfolding sls_onto
sls ps = sls_onto [] ps

-- Whether some parent's linearization holds the key.
unfoldable pub some_contains : Bytes → List (List Bytes) → Bool
some_contains x [] = false
some_contains x (p ∷ ps) = contains x p || some_contains x ps

-- No key occurs twice.
unfoldable pub distinct : List Bytes → Bool
distinct [] = true
distinct (x ∷ xs) = not (contains x xs) && distinct xs

unfoldable pub all_distinct : List (List Bytes) → Bool
all_distinct [] = true
all_distinct (p ∷ ps) = distinct p && all_distinct ps

pub merge_parent-+: : (acc p : List Bytes) → merge_parent acc p ≡ p +: acc
unfolding merge_parent ◌+:◌
merge_parent-+: acc [] = refl
merge_parent-+: acc (x ∷ p) = ground (arith, merge_parent-+: acc p)

+:-nil : (p : List Bytes) → p +: [] ≡ p
unfolding ◌+:◌ contains
+:-nil [] = refl
+:-nil (x ∷ p) = ap (◌∷◌ x) (+:-nil p)

sls_onto-append :
    (ps qs : List (List Bytes)) (ys : List Bytes)
    → sls_onto ys (ps ++ qs) ≡ sls_onto (sls_onto ys qs) ps
unfolding sls_onto
sls_onto-append [] qs ys = refl
sls_onto-append (p ∷ ps) qs ys = ap (◌+:◌ p) (sls_onto-append ps qs ys)

-- The loop, which goes from the first parent on, builds the right-nested sum.
merge_parents-sls_onto :
    (ps : List (List Bytes)) (acc : List Bytes) → merge_parents acc ps ≡ sls_onto acc (reverse ps)
unfolding merge_parents sls_onto
merge_parents-sls_onto [] acc = refl
merge_parents-sls_onto (p ∷ ps) acc =
    ap (λ a. merge_parents a ps) (merge_parent-+: acc p)
    ∙ merge_parents-sls_onto ps (p +: acc)
    ∙ sym
        (ap (sls_onto acc) (reverse-append (p ∷ []) ps) ∙ sls_onto-append (reverse ps) (p ∷ []) acc)

pub merged-sls : (ps : List (List Bytes)) → merged ps ≡ sls (reverse ps)
unfolding merged sls
merged-sls [] = refl
merged-sls (p ∷ ps) =
    merge_parents-sls_onto ps p
    ∙ sym (
        ap (sls_onto []) (reverse-append (p ∷ []) ps)
        ∙ sls_onto-append (reverse ps) (p ∷ []) []
        ∙ ap (λ a. sls_onto a (reverse ps)) (+:-nil p))
