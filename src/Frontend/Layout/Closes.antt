-- ===== src/Frontend/Layout/Closes.antt =====
-- frontend/Layout.cpp: closing brackets. The regions inside are closed first, and the bracket meets
-- its partner or the code throws.
use proto_scala.Common.{
  ◌≡◌, refl, sym, ap, ◌∙◌, Bool, true, false, not, List, [], ◌∷◌, ◌++◌, some, subst, ok, arith, All,
  append-nil, ◌>>=◌,
}
use proto_scala.Frontend.Token.{TokenKind, Token, r_paren, r_bracket}
use proto_scala.Frontend.Layout.State.{
  RegionKind, top_level, parens, brackets, braces, indented, region_kind_eq, Region, is_indented,
  LayoutPass, pop_onto, condition_closed,
}
use proto_scala.Frontend.Layout.Pass.{bracket_region, close_bracket, close}
use proto_scala.Frontend.Layout.Nesting.{
  shut_region, nest, run_nest, kinds, Grounded, IsInserted, Post, returns, raises, Post-bind,
  Post-if, Inserts, Inserts-Grounded,
}
use proto_scala.Frontend.Layout.Inserts.{Grounded-end, outdent_while-Inserts, pop_onto-cons}

-- Inserted tokens, and then a token of kind `k` that the machine can read.
pub record Dispatched (k : TokenKind) (s s' : LayoutPass) : Type 0 where
  pub tokens : List Token
  pub are_inserted : All IsInserted tokens
  pub appended : s'.out ≡ s.out ++ tokens
  pub open_regions : List RegionKind
  pub nested : run_nest (kinds s) tokens ≡ some open_regions
  pub stepped : nest open_regions k ≡ some (kinds s')

pub Dispatched-same :
    (k : TokenKind) (s s' s'' : LayoutPass)
    → s''.out ≡ s'.out
    → kinds s'' ≡ kinds s'
    → Dispatched k s s'
    → Dispatched k s s''
Dispatched-same k s s' s'' o e d = record {
  tokens = d.tokens;
  are_inserted = d.are_inserted;
  appended = o ∙ d.appended;
  open_regions = d.open_regions;
  nested = d.nested;
  stepped = d.stepped ∙ ap some (sym e);
}

-- A step that inserts nothing itself.
pub Dispatched-plain :
    (k : TokenKind) (s s' : LayoutPass)
    → s'.out ≡ s.out
    → nest (kinds s) k ≡ some (kinds s')
    → Dispatched k s s'
unfolding run_nest
Dispatched-plain k s s' o e = record {
  tokens = [];
  are_inserted = tt;
  appended = o ∙ sym (append-nil s.out);
  open_regions = kinds s;
  nested = refl;
  stepped = e;
}

region_kind_eq→≡ : (a b : RegionKind) → region_kind_eq a b ≡ true → a ≡ b
unfolding region_kind_eq
region_kind_eq→≡ top_level top_level h = refl
region_kind_eq→≡ braces braces h = refl
region_kind_eq→≡ parens parens h = refl
region_kind_eq→≡ brackets brackets h = refl
region_kind_eq→≡ indented indented h = refl
region_kind_eq→≡ _ _ h = cc

region_kind_eq_refl : (a : RegionKind) → region_kind_eq a a ≡ true
unfolding region_kind_eq
region_kind_eq_refl top_level = refl
region_kind_eq_refl _ = refl

bracket_region-ne-top : (k : TokenKind) → bracket_region k ≡ top_level → ⊥
unfolding bracket_region
bracket_region-ne-top r_paren h = cc
bracket_region-ne-top r_bracket h = cc
bracket_region-ne-top _ h = cc

-- The kinds of token that close a bracket.
abbrev pub IsBracketEnd : TokenKind → Type 0
IsBracketEnd k = (rs : List RegionKind) → nest rs k ≡ shut_region (bracket_region k) rs

pop-Dispatched :
    (k : TokenKind) (s s' : LayoutPass) (rs : List Region) (b : Bool)
    → IsBracketEnd k
    → Inserts s s'
    → Grounded (kinds s')
    → s'.outer ≡ rs
    → s'.region.kind ≡ bracket_region k
    → Post {A = LayoutPass × Bool}
        (λ p. Dispatched k s p.0)
        (pop_onto s'.outer s' >>= λ s''. ok (s'', b))
unfolding shut_region
pop-Dispatched k s s' [] b ends a g e h =
    absurd (bracket_region-ne-top k (sym h ∙ Grounded-end s' e g))
pop-Dispatched k s s' (r ∷ rs) b ends a g e h = rw (pop_onto-cons s' e) (
    returns (record {
      tokens = a.tokens;
      are_inserted = a.are_inserted;
      appended = a.appended;
      open_regions = kinds s';
      nested = a.nested;
      stepped = ends (kinds s') ∙ rw (h, e) (rw (region_kind_eq_refl (bracket_region k)));
    }))

pub not-eq-false : (b : Bool) → not b ≡ false → b ≡ true
not-eq-false b h = ground arith

close_bracket-Dispatched :
    (t : Token) (s : LayoutPass)
    → IsBracketEnd t.kind
    → Grounded (kinds s)
    → Post {A = LayoutPass × Bool} (λ p. Dispatched t.kind s p.0) (close_bracket t s)
unfolding close_bracket
close_bracket-Dispatched t s ends g =
    Post-bind {B = LayoutPass × Bool} (λ p. Dispatched t.kind s p.0)
      (outdent_while-Inserts is_indented t s.outer s (λ r h. h) g refl)
      (λ s' a.
        Post-if (not (region_kind_eq s'.region.kind (bracket_region t.kind))) (λ _. raises)
          (λ h.
            pop-Dispatched t.kind s s' s'.outer s'.region.condition ends a
              (Inserts-Grounded s s' a g) refl (region_kind_eq→≡ _ _ (not-eq-false _ h))))

pub close-Dispatched :
    (t n : Token) (s : LayoutPass)
    → IsBracketEnd t.kind
    → Grounded (kinds s)
    → Post {A = LayoutPass × Bool} (λ p. Dispatched t.kind s p.0) (close t n s)
unfolding close condition_closed
close-Dispatched t n s ends g =
    Post-bind {B = LayoutPass × Bool} (λ p. Dispatched t.kind s p.0)
      (close_bracket-Dispatched t s ends g)
      (λ p d. returns (Dispatched-same t.kind s p.0 _ (ground arith) (ground arith) d))

pub close_kind-Dispatched :
    (k : TokenKind) (t n : Token) (s : LayoutPass)
    → t.kind ≡ k
    → IsBracketEnd k
    → Grounded (kinds s)
    → Post {A = LayoutPass × Bool} (λ p. Dispatched k s p.0) (close t n s)
close_kind-Dispatched k t n s e ends g =
    subst (λ k. Post {A = LayoutPass × Bool} (λ p. Dispatched k s p.0) (close t n s)) e
      (close-Dispatched t n s (subst IsBracketEnd (sym e) ends) g)
