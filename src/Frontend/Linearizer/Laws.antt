-- ===== src/Frontend/Linearizer/Laws.antt =====
-- frontend/Linearizer.cpp: the members of a linearization and their order.
use proto_scala.Common.{
  ◌≡◌, refl, sym, ap, ◌∙◌, Bool, true, false, ◌&&◌, ◌||◌, not, List, [], ◌∷◌, ◌++◌, append_assoc,
  Bytes, bytes_eq, bytes_eq_iff, arith,
}
use mathlib.Core.List.{reverse}
use proto_scala.Frontend.Linearizer.{contains, keep, merge_parent, merge_parents, merged, linearize}
use proto_scala.Frontend.Linearizer.Spec.{
  ◌+:◌, sls, some_contains, distinct, all_distinct, merge_parent-+:, merged-sls,
}

contains-+: :
    (x : Bytes) (p ys : List Bytes) → contains x (p +: ys) ≡ (contains x p || contains x ys)
unfolding ◌+:◌ contains
contains-+: x [] ys = refl
contains-+: x (y ∷ p) ys = ground (arith, contains-+: x p ys, bytes_eq_iff x y)

contains-append :
    (x : Bytes) (p ys : List Bytes) → contains x (p ++ ys) ≡ (contains x p || contains x ys)
unfolding contains
contains-append x [] ys = refl
contains-append x (y ∷ p) ys = ground (arith, contains-append x p ys)

contains-keep :
    (x self : Bytes) (xs : List Bytes)
    → contains x (keep (λ y. not (bytes_eq y self)) xs) ≡ (contains x xs && not (bytes_eq x self))
unfolding contains keep
contains-keep x self [] = refl
contains-keep x self (y ∷ xs) = ground (arith, contains-keep x self xs, bytes_eq_iff x y)

keep-all :
    (self : Bytes) (xs : List Bytes)
    → contains self xs ≡ false
    → keep (λ y. not (bytes_eq y self)) xs ≡ xs
unfolding contains keep
keep-all self [] h = refl
keep-all self (y ∷ xs) h =
    ground (arith, keep-all self xs, bytes_eq_iff self y, bytes_eq_iff y self)

distinct-+: :
    (p ys : List Bytes) → distinct p ≡ true → distinct ys ≡ true → distinct (p +: ys) ≡ true
unfolding ◌+:◌ distinct
distinct-+: [] ys h k = k
distinct-+: (x ∷ p) ys h k = ground (arith, distinct-+: p ys, contains-+: x p ys)

distinct-keep :
    (self : Bytes) (xs : List Bytes)
    → distinct xs ≡ true
    → distinct (keep (λ y. not (bytes_eq y self)) xs) ≡ true
unfolding keep distinct
distinct-keep self [] h = refl
distinct-keep self (x ∷ xs) h = ground (arith, distinct-keep self xs, contains-keep x self xs)

contains-merge_parent :
    (x : Bytes) (acc p : List Bytes)
    → contains x (merge_parent acc p) ≡ (contains x p || contains x acc)
contains-merge_parent x acc p = ap (contains x) (merge_parent-+: acc p) ∙ contains-+: x p acc

contains-merge_parents :
    (x : Bytes) (ps : List (List Bytes)) (acc : List Bytes)
    → contains x (merge_parents acc ps) ≡ (contains x acc || some_contains x ps)
unfolding merge_parents some_contains
contains-merge_parents x [] acc = ground arith
contains-merge_parents x (p ∷ ps) acc =
    ground (arith, contains-merge_parents x ps (merge_parent acc p), contains-merge_parent x acc p)

contains-merged : (x : Bytes) (ps : List (List Bytes)) → contains x (merged ps) ≡ some_contains x ps
unfolding merged some_contains contains
contains-merged x [] = refl
contains-merged x (p ∷ ps) = contains-merge_parents x ps p

distinct-merge_parents :
    (ps : List (List Bytes)) (acc : List Bytes)
    → distinct acc ≡ true
    → all_distinct ps ≡ true
    → distinct (merge_parents acc ps) ≡ true
unfolding merge_parents all_distinct
distinct-merge_parents [] acc h k = h
distinct-merge_parents (p ∷ ps) acc h k = ground (
  arith,
  distinct-merge_parents ps (merge_parent acc p),
  distinct-+: p acc,
  merge_parent-+: acc p,
)

distinct-merged : (ps : List (List Bytes)) → all_distinct ps ≡ true → distinct (merged ps) ≡ true
unfolding merged all_distinct distinct
distinct-merged [] h = refl
distinct-merged (p ∷ ps) h = ground (arith, distinct-merge_parents ps p)

-- Where the class is in no parent's linearization, the result is the class followed by the
-- specification's sum of the parents' linearizations, the last parent's first.
pub linearize-sls :
    (self : Bytes) (ps : List (List Bytes))
    → some_contains self ps ≡ false
    → linearize self ps ≡ self ∷ sls (reverse ps)
unfolding linearize
linearize-sls self ps h =
    ap (◌∷◌ self) (keep-all self (merged ps) (contains-merged self ps ∙ h) ∙ merged-sls ps)

-- The result holds the class and the members of the parents' linearizations, and no other key.
contains-linearize :
    (x self : Bytes) (ps : List (List Bytes))
    → contains x (linearize self ps) ≡ (bytes_eq x self || some_contains x ps)
unfolding linearize contains
contains-linearize x self ps =
    ground (arith, contains-keep x self (merged ps), contains-merged x ps)

-- Where no parent's linearization holds a key twice, the result holds no key twice.
distinct-linearize :
    (self : Bytes) (ps : List (List Bytes))
    → all_distinct ps ≡ true
    → distinct (linearize self ps) ≡ true
unfolding linearize distinct
distinct-linearize self ps h = ground (
  arith,
  distinct-keep self (merged ps),
  distinct-merged ps,
  contains-keep self self (merged ps),
  bytes_eq_iff self self,
)

keep-append : (q : Bytes → Bool) (xs ys : List Bytes) → keep q (xs ++ ys) ≡ keep q xs ++ keep q ys
unfolding keep
keep-append q [] ys = refl
keep-append q (x ∷ xs) ys = ground (arith, keep-append q xs ys)

merge_parents-suffix :
    (ps : List (List Bytes)) (acc : List Bytes)
    → (front : List Bytes) × (merge_parents acc ps ≡ front ++ acc)
unfolding merge_parents merge_parent
merge_parents-suffix [] acc = ([], refl)
merge_parents-suffix (p ∷ ps) acc =
    let (front, e) = merge_parents-suffix ps (merge_parent acc p) in
    (front ++ keep (λ x. not (contains x acc)) p, e ∙ sym (append_assoc front _ acc))

-- Where the class is not in its superclass's linearization, that one stands at the end of the result,
-- in its own order.
linearize-suffix :
    (self : Bytes) (p : List Bytes) (ps : List (List Bytes))
    → contains self p ≡ false
    → (front : List Bytes) × (linearize self (p ∷ ps) ≡ front ++ p)
unfolding linearize merged
linearize-suffix self p ps h =
    let (front, e) = merge_parents-suffix ps p in
    let q = λ (x : Bytes). not (bytes_eq x self) in
    (
      self ∷ keep q front,
      ap (λ l. self ∷ keep q l) e
          ∙ ap (◌∷◌ self) (keep-append q front p ∙ ap (λ l. keep q front ++ l) (keep-all self p h)),
    )
