-- ===== src/Umd/Selector.antt =====
-- umd/SmalltalkSelector.h and umd/Prefixes.h. A refusal is `none`; its message is left out.
use proto_scala.Common.{
  ℕ, zero, suc, ◌≡◌, refl, ◌+◌, Bool, true, false, not, ◌&&◌, ◌||◌, ltb, ◌==◌, if◌then◌else◌,
  Bool-cases, inl, inr, List, [], ◌∷◌, ◌++◌, Option, none, some, some-injective, subst, length,
  drop, every, Bytes, codes, bytes_eq, is_alpha, begins_with, arith,
}

unfoldable pub count_char : ℕ → Bytes → ℕ
count_char b [] = 0
count_char b (c ∷ cs) = (if c == b then 1 else 0) + count_char b cs

-- The loop that cuts the name at each underscore; `part` is what was read of the current part.
unfoldable pub parts_from : Bytes → Bytes → List Bytes
parts_from part [] = part ∷ []
parts_from part (c ∷ cs) = elim (c == 95) [
  | true ↦ part ∷ parts_from [] cs
  | false ↦ parts_from (part ++ c ∷ []) cs
]

abbrev pub is_nonempty : Bytes → Bool
is_nonempty [] = false
is_nonempty (c ∷ cs) = true

unfoldable pub well_formed : ℕ → List Bytes → Bool
well_formed argc parts = (length parts == argc) && every is_nonempty parts

-- `for (p : parts) sel += p + ":";`
unfoldable pub keywords_of : List Bytes → Bytes
keywords_of [] = []
keywords_of (p ∷ ps) = p ++ (58 ∷ keywords_of ps)

abbrev pub keyword_selector : Bytes → ℕ → List Bytes → Option Bytes
keyword_selector n argc parts =
    if well_formed argc parts
    then some (keywords_of parts)
    else if argc == 1
    then some (n ++ 58 ∷ [])
    else none

abbrev pub word_selector : Bytes → ℕ → Option Bytes
word_selector n argc = if argc == 0 then some n else keyword_selector n argc (parts_from [] n)

unfoldable pub smalltalk_selector : Bytes → ℕ → Option Bytes
unfolding count_char parts_from well_formed keywords_of
smalltalk_selector [] argc = none
smalltalk_selector (first ∷ more) argc =
    let n = first ∷ more in
    let colons = count_char 58 n in
    if ltb 0 colons
    then (if colons == argc then some n else none)
    else if not (is_alpha first) && not (first == 95)
    then (if argc == 1 then some n else none)
    else word_selector n argc

-- How many arguments a Smalltalk selector takes: one for each colon, and one for a binary selector.
abbrev pub arity_of : Bytes → ℕ
arity_of [] = 0
arity_of (first ∷ more) =
    let colons = count_char 58 (first ∷ more) in
    if ltb 0 colons then colons else if not (is_alpha first) && not (first == 95) then 1 else 0

count_char-append : (b : ℕ) (x y : Bytes) → count_char b (x ++ y) ≡ count_char b x + count_char b y
unfolding count_char
count_char-append b [] y = ground arith
count_char-append b (c ∷ x) y = ground (arith, count_char-append b x y)

no_colons : List Bytes → ℕ
unfolding count_char
no_colons [] = 0
no_colons (p ∷ ps) = count_char 58 p + no_colons ps

parts-colons :
    (part cs : Bytes) → no_colons (parts_from part cs) ≡ count_char 58 part + count_char 58 cs
unfolding parts_from no_colons count_char
parts-colons part [] = ground arith
parts-colons part (c ∷ cs) = elim (Bool-cases (c == 95)) [
  | inl cut ↦ rw (cut, parts_from) (ground (arith, parts-colons [] cs))
  | inr keep ↦
      rw (keep, parts_from)
        (ground (arith, parts-colons (part ++ c ∷ []) cs, count_char-append 58 part (c ∷ [])))
]

keywords-colons : (ps : List Bytes) → count_char 58 (keywords_of ps) ≡ length ps + no_colons ps
unfolding keywords_of no_colons count_char
keywords-colons [] = refl
keywords-colons (p ∷ ps) =
    ground (arith, count_char-append 58 p (58 ∷ keywords_of ps), keywords-colons ps)

no_colon_empty : count_char 58 [] ≡ 0
unfolding count_char
no_colon_empty = refl

colon_alone : count_char 58 (58 ∷ []) ≡ 1
unfolding count_char
colon_alone = refl

arity_of-colons : (s : Bytes) (n : ℕ) → count_char 58 s ≡ suc n → arity_of s ≡ suc n
unfolding count_char
arity_of-colons [] n h = cc
arity_of-colons (c ∷ cs) n h = rw h (ground arith)

-- A word of as many parts as there are arguments.
keyword_arity :
    (n : Bytes) (k : ℕ) (ps : List Bytes) (sel : Bytes)
    → count_char 58 n ≡ 0
    → no_colons ps ≡ 0
    → keyword_selector n (suc k) ps ≡ some sel
    → arity_of sel ≡ suc k
unfolding well_formed
keyword_arity n k ps sel plain none_in h = elim (Bool-cases (well_formed (suc k) ps)) [
  | inl good ↦
      let e = some-injective _ _ (rw good at h) in
      subst (λ s. arity_of s ≡ suc k) e
        (arity_of-colons (keywords_of ps) k (ground (arith, keywords-colons ps)))
  | inr bad ↦ elim (Bool-cases (suc k == 1)) [
    | inl one ↦
        let e = some-injective _ _ (rw (bad, one) at h) in
        subst (λ s. arity_of s ≡ suc k) e
          (arity_of-colons (n ++ 58 ∷ []) k
            (ground (arith, count_char-append 58 n (58 ∷ []), colon_alone)))
    | inr more ↦ cc (rw (bad, more) at h)
  ]
]

suc_not_zero : (k : ℕ) → (suc k == 0) ≡ false
suc_not_zero k = ground arith

word_arity :
    (first : ℕ) (more : Bytes) (argc : ℕ) (sel : Bytes)
    → ltb 0 (count_char 58 (first ∷ more)) ≡ false
    → (not (is_alpha first) && not (first == 95)) ≡ false
    → word_selector (first ∷ more) argc ≡ some sel
    → arity_of sel ≡ argc
word_arity first more zero sel c w h =
    subst (λ s. arity_of s ≡ 0) (some-injective _ _ h) (rw (c, w) refl)
word_arity first more (suc k) sel c w h =
    keyword_arity (first ∷ more) k (parts_from [] (first ∷ more)) sel (ground arith)
      (ground (arith, parts-colons [] (first ∷ more), no_colon_empty)) (rw (suc_not_zero k) at h)

-- The Smalltalk selector that a call with some arguments is mapped to takes that many arguments.
pub arity_of-smalltalk_selector :
    (n : Bytes) (argc : ℕ) (sel : Bytes)
    → smalltalk_selector n argc ≡ some sel
    → arity_of sel ≡ argc
unfolding smalltalk_selector
arity_of-smalltalk_selector [] argc sel h = cc
arity_of-smalltalk_selector (first ∷ more) argc sel h =
    elim (Bool-cases (ltb 0 (count_char 58 (first ∷ more)))) [
      | inl colons ↦ elim (Bool-cases (count_char 58 (first ∷ more) == argc)) [
        | inl same ↦
            subst (λ s. arity_of s ≡ argc) (some-injective _ _ (rw (colons, same) at h))
              (rw colons (ground arith))
        | inr other ↦ cc (rw (colons, other) at h)
      ]
      | inr plain ↦ elim (Bool-cases (not (is_alpha first) && not (first == 95))) [
        | inl binary ↦ elim (Bool-cases (argc == 1)) [
          | inl one ↦
              subst (λ s. arity_of s ≡ argc) (some-injective _ _ (rw (plain, binary, one) at h))
                (rw (plain, binary) (ground arith))
          | inr more_args ↦ cc (rw (plain, binary, more_args) at h)
        ]
        | inr alpha ↦ word_arity first more argc sel plain alpha (rw (plain, alpha) at h)
      ]
    ]

-- `kFamilyPrefixes`
abbrev pub family_prefixes : List Bytes
family_prefixes = codes "py" ∷ codes "js" ∷ codes "st" ∷ codes "clj" ∷ []

abbrev pub holds : Bytes → List Bytes → Bool
holds s [] = false
holds s (p ∷ ps) = bytes_eq s p || holds s ps

unfoldable pub is_family_prefix : Bytes → Bool
unfolding bytes_eq
is_family_prefix s = holds s family_prefixes

unfoldable pub provider_spec_for : Bytes → Bytes
provider_spec_for prefix = codes "provider:" ++ prefix

-- The alias in a `provider:` spec.
unfoldable pub alias_of_spec : Bytes → Bytes
unfolding bytes_eq
alias_of_spec spec = if begins_with (codes "provider:") spec then drop 9 spec else spec
