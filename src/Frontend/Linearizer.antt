-- ===== src/Frontend/Linearizer.antt =====
-- frontend/Linearizer.cpp: Scala's class linearization on type keys.
pub mod Spec
pub mod Laws
mod Tests
use proto_scala.Common.{
  Bool, true, false, ◌||◌, not, if◌then◌else◌, List, [], ◌∷◌, ◌++◌, Bytes, bytes_eq,
}

-- `std::unordered_set::count`
unfoldable pub contains : Bytes → List Bytes → Bool
unfolding bytes_eq
contains x [] = false
contains x (y ∷ ys) = bytes_eq x y || contains x ys

-- The elements that pass the test, in order.
unfoldable pub keep : (Bytes → Bool) → List Bytes → List Bytes
keep p [] = []
keep p (x ∷ xs) = let rest = keep p xs in if p x then x ∷ rest else rest

-- One round of the loop: what the parent adds stands in front.
unfoldable pub merge_parent : List Bytes → List Bytes → List Bytes
unfolding contains keep
merge_parent acc parent = keep (λ x. not (contains x acc)) parent ++ acc

unfoldable pub merge_parents : List Bytes → List (List Bytes) → List Bytes
unfolding merge_parent
merge_parents acc [] = acc
merge_parents acc (p ∷ ps) = merge_parents (merge_parent acc p) ps

-- `acc` after the loop: it starts with the first parent's linearization.
unfoldable pub merged : List (List Bytes) → List Bytes
unfolding merge_parents
merged [] = []
merged (p ∷ ps) = merge_parents p ps

unfoldable pub linearize : Bytes → List (List Bytes) → List Bytes
unfolding merged bytes_eq keep
linearize self parents = self ∷ keep (λ x. not (bytes_eq x self)) (merged parents)
