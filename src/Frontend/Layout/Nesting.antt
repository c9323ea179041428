-- ===== src/Frontend/Layout/Nesting.antt =====
-- frontend/Layout.cpp: what the pass puts out, read by a bracket machine; the vocabulary of the
-- theorems on the layout.
use proto_scala.Common.{
  ◌≡◌, refl, sym, ap, ◌∙◌, Bool, true, false, if◌then◌else◌, List, [], ◌∷◌, ◌++◌, map, Option, none,
  some, some-injective, Option-cases, inl, inr, All, append-nil, append_assoc, subst, ok, err,
  ◌>>=◌, arith,
}
use proto_scala.Frontend.Token.{
  TokenKind, Token, l_paren, r_paren, l_bracket, r_bracket, l_brace, r_brace, colon_eol, newline,
  indent, outdent, end_marker,
}
use proto_scala.Frontend.Layout.State.{
  RegionKind, top_level, braces, parens, brackets, indented, region_kind_eq, LayoutError, Layout,
  LayoutPass,
}

-- Closes the innermost region, which must be of the kind given.
unfoldable pub shut_region : RegionKind → List RegionKind → Option (List RegionKind)
unfolding region_kind_eq
shut_region k [] = none
shut_region k (r ∷ rs) = if region_kind_eq r k then some rs else none

-- One token read by the machine whose state is the open regions.
unfoldable pub nest : List RegionKind → TokenKind → Option (List RegionKind)
unfolding shut_region
nest rs l_paren = some (parens ∷ rs)
nest rs l_bracket = some (brackets ∷ rs)
nest rs l_brace = some (braces ∷ rs)
nest rs indent = some (indented ∷ rs)
nest rs r_paren = shut_region parens rs
nest rs r_bracket = shut_region brackets rs
nest rs r_brace = shut_region braces rs
nest rs outdent = shut_region indented rs
nest rs _ = some rs

unfoldable pub run_nest : List RegionKind → List Token → Option (List RegionKind)
unfolding nest
run_nest rs [] = some rs
run_nest rs (t ∷ ts) = elim (nest rs t.kind) [ none ↦ none | some rs' ↦ run_nest rs' ts ]

abbrev pub kinds : LayoutPass → List RegionKind
kinds s = s.region.kind ∷ map (λ r. r.kind) s.outer

-- The outermost region is the top level.
abbrev pub Grounded : List RegionKind → Type 0
Grounded [] = ⊥
Grounded (k ∷ []) = k ≡ top_level
Grounded (k ∷ (k' ∷ ks)) = Grounded (k' ∷ ks)

-- The kinds that only the layout makes.
unfoldable pub is_layout_kind : TokenKind → Bool
is_layout_kind colon_eol = true
is_layout_kind newline = true
is_layout_kind indent = true
is_layout_kind outdent = true
is_layout_kind end_marker = true
is_layout_kind _ = false

-- A token of the lexer.
abbrev pub IsRaw : Token → Type 0
IsRaw t = is_layout_kind t.kind ≡ false

-- A token that the layout inserts.
unfoldable pub is_inserted_kind : TokenKind → Bool
is_inserted_kind newline = true
is_inserted_kind indent = true
is_inserted_kind outdent = true
is_inserted_kind _ = false

abbrev pub IsInserted : Token → Type 0
IsInserted t = is_inserted_kind t.kind ≡ true

-- What holds of a result: the predicate of a value, and it is no fault.
pub data Post {A : Type 0} (P : A → Type 0) : Layout A → Type 0 where
  returns : {a : A} → P a → Post P (ok a)
  raises : {e : LayoutError} → Post P (err e)

pub Post-bind :
    {A B : Type 0} {P : A → Type 0} (Q : B → Type 0) {m : Layout A} {f : A → Layout B}
    → Post P m
    → ((a : A) → P a → Post Q (f a))
    → Post Q (m >>= f)
Post-bind Q (returns h) k = k _ h
Post-bind Q raises k = raises

pub Post-map :
    {A : Type 0} {P Q : A → Type 0} {m : Layout A} → ((a : A) → P a → Q a) → Post P m → Post Q m
Post-map f (returns h) = returns (f _ h)
Post-map f raises = raises

-- A conditional satisfies what both branches satisfy.
pub Post-if :
    {A : Type 0} {P : A → Type 0} (b : Bool) {x y : Layout A}
    → (b ≡ true → Post P x)
    → (b ≡ false → Post P y)
    → Post P (if b then x else y)
Post-if true h k = h refl
Post-if false h k = k refl

pub if_both :
    {A : Type 0} (P : A → Type 0) (b : Bool) {x y : A} → P x → P y → P (if b then x else y)
if_both P true hx hy = hx
if_both P false hx hy = hy

pub run_nest-append :
    (ts us : List Token) (rs : List RegionKind) {rs' : List RegionKind}
    → run_nest rs ts ≡ some rs'
    → run_nest rs (ts ++ us) ≡ run_nest rs' us
unfolding run_nest
run_nest-append [] us rs h = ground arith
run_nest-append (t ∷ ts) us rs h = elim (Option-cases (nest rs t.kind)) [
  | inl e ↦ cc (rw (e, run_nest) at h)
  | inr (rs'', e) ↦ rw (e, run_nest) (run_nest-append ts us rs'' (rw (e, run_nest) at h))
]

-- The machine never closes the top level.
shut_region-Grounded :
    (k : RegionKind) (rs : List RegionKind) {rs' : List RegionKind}
    → region_kind_eq top_level k ≡ false
    → Grounded rs
    → shut_region k rs ≡ some rs'
    → Grounded rs'
unfolding shut_region
shut_region-Grounded k [] ne g h = absurd g
shut_region-Grounded k (r ∷ []) ne g h = ground arith
shut_region-Grounded k (r ∷ (r' ∷ rs)) ne g h = ground arith

push-Grounded : (k : RegionKind) (rs : List RegionKind) → Grounded rs → Grounded (k ∷ rs)
push-Grounded k [] g = absurd g
push-Grounded k (r ∷ rs) g = g

nest-Grounded :
    (k : TokenKind) (rs : List RegionKind) {rs' : List RegionKind}
    → Grounded rs
    → nest rs k ≡ some rs'
    → Grounded rs'
unfolding nest
nest-Grounded l_paren rs g h = subst Grounded (some-injective _ _ h) (push-Grounded parens rs g)
nest-Grounded l_bracket rs g h = subst Grounded (some-injective _ _ h) (push-Grounded brackets rs g)
nest-Grounded l_brace rs g h = subst Grounded (some-injective _ _ h) (push-Grounded braces rs g)
nest-Grounded indent rs g h = subst Grounded (some-injective _ _ h) (push-Grounded indented rs g)
nest-Grounded r_paren rs g h = shut_region-Grounded parens rs refl g h
nest-Grounded r_bracket rs g h = shut_region-Grounded brackets rs refl g h
nest-Grounded r_brace rs g h = shut_region-Grounded braces rs refl g h
nest-Grounded outdent rs g h = shut_region-Grounded indented rs refl g h
nest-Grounded _ rs g h = subst Grounded (some-injective _ _ h) g

pub run_nest-Grounded :
    (ts : List Token) (rs : List RegionKind) {rs' : List RegionKind}
    → Grounded rs
    → run_nest rs ts ≡ some rs'
    → Grounded rs'
unfolding run_nest
run_nest-Grounded [] rs g h = subst Grounded (some-injective _ _ h) g
run_nest-Grounded (t ∷ ts) rs g h = elim (Option-cases (nest rs t.kind)) [
  | inl e ↦ cc (rw (e, run_nest) at h)
  | inr (rs'', e) ↦ run_nest-Grounded ts rs'' (nest-Grounded t.kind rs g e) (rw (e, run_nest) at h)
]

-- Tokens inserted between two states of the pass.
pub record Inserts (s s' : LayoutPass) : Type 0 where
  pub tokens : List Token
  pub are_inserted : All IsInserted tokens
  pub appended : s'.out ≡ s.out ++ tokens
  pub nested : run_nest (kinds s) tokens ≡ some (kinds s')

pub All-append :
    (ts us : List Token) → All IsInserted ts → All IsInserted us → All IsInserted (ts ++ us)
All-append [] us h k = k
All-append (t ∷ ts) us (h, hs) k = (h, All-append ts us hs k)

-- A state with the same output and the same open regions.
pub Inserts-same : (s s' : LayoutPass) → s'.out ≡ s.out → kinds s' ≡ kinds s → Inserts s s'
unfolding run_nest
Inserts-same s s' o k = record {
  tokens = [];
  are_inserted = tt;
  appended = o ∙ sym (append-nil s.out);
  nested = ap some (sym k);
}

pub Inserts-trans : (s s' s'' : LayoutPass) → Inserts s s' → Inserts s' s'' → Inserts s s''
Inserts-trans s s' s'' a b = record {
  tokens = a.tokens ++ b.tokens;
  are_inserted = All-append a.tokens b.tokens a.are_inserted b.are_inserted;
  appended = rw (b.appended, a.appended) (append_assoc s.out a.tokens b.tokens);
  nested = run_nest-append a.tokens b.tokens (kinds s) a.nested ∙ b.nested;
}

pub Inserts-Grounded : (s s' : LayoutPass) → Inserts s s' → Grounded (kinds s) → Grounded (kinds s')
Inserts-Grounded s s' a g = run_nest-Grounded a.tokens (kinds s) g a.nested
