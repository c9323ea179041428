-- ===== src/Frontend/Layout/Inserts.antt =====
-- frontend/Layout.cpp: what happens at a line break and at a closing keyword. Each operation
-- inserts layout tokens that match the regions which it opens and closes, and never faults.
use proto_scala.Common.{
  ◌≡◌, refl, ap, Bool, true, ◌&&◌, Option-cases, some-injective, subst, inl, inr, List, [], ◌∷◌,
  Option, none, some, ok, arith,
}
use proto_scala.Frontend.Token.{TokenKind, Token, newline, outdent}
use proto_scala.Frontend.Layout.Rules.{continues_statement, closes_region_opened_by}
use proto_scala.Frontend.Layout.State.{
  top_level, region_kind_eq, Region, is_indented, LayoutPass, pop_onto, set_pending, synth,
  outdent_while, satisfy, satisfy_pending, or_same, close_indented, close_by_keyword,
}
use proto_scala.Frontend.Layout.LineBreak.{
  settle_width, dedents, settle_dedent, dedent, continue_line, open_indented, break_line,
  line_break,
}
use proto_scala.Frontend.Layout.Nesting.{
  shut_region, nest, run_nest, kinds, Grounded, is_inserted_kind, Post, returns, raises, Post-bind,
  Post-map, Post-if, if_both, Inserts, Inserts-same, Inserts-trans, Inserts-Grounded,
}

pub and_parts : (a b : Bool) → (a && b) ≡ true → (a ≡ true) × (b ≡ true)
and_parts a b h = ground arith

synth-outer : (k : TokenKind) (t : Token) (s : LayoutPass) → (synth k t s).outer ≡ s.outer
unfolding synth
synth-outer newline t s = refl
synth-outer _ t s = refl

synth-newline_Inserts : (t : Token) (s : LayoutPass) → Inserts s (synth newline t s)
unfolding synth run_nest nest is_inserted_kind
synth-newline_Inserts t s = record {
  tokens = _;
  are_inserted = (refl, tt);
  appended = refl;
  nested = refl;
}

open_indented-Inserts : (c : Bool) (t : Token) (s : LayoutPass) → Inserts s (open_indented c t s)
unfolding open_indented run_nest nest is_inserted_kind
open_indented-Inserts c t s = record {
  tokens = _;
  are_inserted = (refl, tt);
  appended = refl;
  nested = refl;
}

-- An Outdent closes the innermost region.
outdent-Inserts :
    (t : Token) (s : LayoutPass) (r : Region) (rs : List Region)
    → is_indented s.region ≡ true
    → s.outer ≡ r ∷ rs
    → Inserts s (synth outdent t (record s { region = r; outer = rs }))
unfolding synth run_nest nest is_inserted_kind shut_region
outdent-Inserts t s r rs h e = record {
  tokens = _;
  are_inserted = (refl, tt);
  appended = refl;
  nested = rw (e, run_nest, nest, shut_region) (rw h);
}

-- The innermost region is the top level where no other is around it.
pub Grounded-end : (s : LayoutPass) → s.outer ≡ [] → Grounded (kinds s) → s.region.kind ≡ top_level
Grounded-end s e g = rw e at g

not_indented : (s : LayoutPass) → s.region.kind ≡ top_level → is_indented s.region ≡ true → ⊥
unfolding region_kind_eq
not_indented s k h = cc (rw k at h)

pub Inserts-refl : (s : LayoutPass) → Inserts s s
Inserts-refl s = Inserts-same s s refl refl

pub outdent_while-Inserts :
    (test : Region → Bool) (t : Token) (rs : List Region) (s : LayoutPass)
    → ((r : Region) → test r ≡ true → is_indented r ≡ true)
    → Grounded (kinds s)
    → s.outer ≡ rs
    → Post (Inserts s) (outdent_while test t rs s)
unfolding outdent_while
outdent_while-Inserts test t [] s only g e =
    Post-if (test s.region) (λ h. absurd (not_indented s (Grounded-end s e g) (only s.region h)))
      (λ _. returns (Inserts-refl s))
outdent_while-Inserts test t (r ∷ rs) s only g e =
    let s' = synth outdent t (record s { region = r; outer = rs }) in
    Post-if (test s.region)
      (λ h.
        let first = outdent-Inserts t s r rs (only s.region h) e in
        Post-map (λ s''. Inserts-trans s s' s'' first)
          (outdent_while-Inserts test t rs s' only (Inserts-Grounded s s' first g)
            (synth-outer outdent t _)))
      (λ _. returns (Inserts-refl s))

settle_width-Inserts : (w : _) (c : Bool) (s : LayoutPass) → Inserts s (settle_width w c s)
unfolding settle_width
settle_width-Inserts w c s = Inserts-same s (settle_width w c s) (ground arith) (ground arith)

settle_dedent-Inserts :
    (p : Bool) (t n : Token) (s : LayoutPass) → Post (Inserts s) (settle_dedent p t n s)
unfolding settle_dedent
settle_dedent-Inserts p t n s =
    search (Post-if, returns, raises, synth-newline_Inserts, Inserts-refl)

dedent-Inserts :
    (t n : Token) (s : LayoutPass) → Grounded (kinds s) → Post (Inserts s) (dedent t n s)
unfolding dedent
dedent-Inserts t n s g =
    Post-if (continues_statement s.prev_kind) (λ _. raises)
      (λ _.
        Post-bind (Inserts s)
          (outdent_while-Inserts (dedents t.line_indent) t s.outer s (λ r h. (and_parts _ _ h).0) g
            refl)
          (λ s' a. Post-map (λ s''. Inserts-trans s s' s'' a) (settle_dedent-Inserts _ t n s')))

continue_line-Inserts : (t n : Token) (s : LayoutPass) → Inserts s (continue_line t n s)
unfolding continue_line
continue_line-Inserts t n s =
    if_both (Inserts s) _ (synth-newline_Inserts t s)
      (if_both (Inserts s) _ (synth-newline_Inserts t s) (Inserts-refl s))

break_line-Inserts :
    (c : Bool) (t n : Token) (s : LayoutPass)
    → Grounded (kinds s)
    → Post (Inserts s) (break_line c t n s)
unfolding break_line
break_line-Inserts c t n s g =
    search (Post-if, returns, open_indented-Inserts, dedent-Inserts, continue_line-Inserts)

break_settled-Inserts :
    (c : Bool) (t n : Token) (s : LayoutPass)
    → Grounded (kinds s)
    → Post (Inserts s) (break_line c t n (settle_width t.line_indent c s))
break_settled-Inserts c t n s g =
    let first = settle_width-Inserts t.line_indent c s in
    Post-map (λ s''. Inserts-trans s _ s'' first)
      (break_line-Inserts c t n _ (Inserts-Grounded s _ first g))

-- A line break inserts layout tokens that match the regions, or throws; it never faults.
pub line_break-Inserts :
    (t n : Token) (s : LayoutPass) → Grounded (kinds s) → Post (Inserts s) (line_break t n s)
unfolding line_break
line_break-Inserts t n s g = search (Post-if, returns, Inserts-refl, break_settled-Inserts)

-- The partner keyword's search through the pending constructs inserts nothing.
set_pending-Inserts : (ps : _) (s : LayoutPass) → Inserts s (set_pending ps s)
set_pending-Inserts ps s = Inserts-same s (set_pending ps s) refl refl

satisfy_pending-Inserts :
    (k : TokenKind) (s s' : LayoutPass) → satisfy_pending k s ≡ some s' → Inserts s s'
unfolding satisfy_pending
satisfy_pending-Inserts k s s' h = elim (Option-cases (satisfy k s.region.pending)) [
  | inl e ↦ cc (rw (e, satisfy_pending) at h)
  | inr (ps, e) ↦
      subst (Inserts s) (some-injective _ _ (rw (e, satisfy_pending) at h))
        (set_pending-Inserts ps s)
]

or_same-Inserts :
    (o : Option LayoutPass) (s : LayoutPass)
    → ((s' : LayoutPass) → o ≡ some s' → Inserts s s')
    → Inserts s (or_same o s)
or_same-Inserts none s h = Inserts-refl s
or_same-Inserts (some s') s h = h s' refl

pub pop_onto-cons :
    (s : LayoutPass) {r : Region} {rs : List Region}
    → s.outer ≡ r ∷ rs
    → pop_onto s.outer s ≡ ok (record s { region = r; outer = rs })
unfolding pop_onto
pop_onto-cons s e = ap (λ l. pop_onto l s) e

close_indented-Inserts :
    (t : Token) (rs : List Region) (s : LayoutPass)
    → s.outer ≡ rs
    → is_indented s.region ≡ true
    → Grounded (kinds s)
    → Post (Inserts s) (close_indented t s)
unfolding close_indented
close_indented-Inserts t [] s e h g = absurd (not_indented s (Grounded-end s e g) h)
close_indented-Inserts t (r ∷ rs) s e h g =
    let s' = synth outdent t (record s { region = r; outer = rs }) in
    rw (pop_onto-cons s e) (
      returns (
        Inserts-trans s s' _ (outdent-Inserts t s r rs h e)
          (or_same-Inserts _ s' (satisfy_pending-Inserts t.kind s'))))

-- A closing keyword inserts at most one Outdent, for the region that it closes.
pub close_by_keyword-Inserts :
    (t : Token) (s : LayoutPass) → Grounded (kinds s) → Post (Inserts s) (close_by_keyword t s)
unfolding close_by_keyword
close_by_keyword-Inserts t s g = elim (Option-cases (satisfy_pending t.kind s)) [
  | inl e ↦
      rw (e, close_by_keyword)
        (Post-if t.first_on_line (λ _. returns (Inserts-refl s))
          (λ _.
            Post-if (is_indented s.region && closes_region_opened_by t.kind s.region.opener)
              (λ h. close_indented-Inserts t s.outer s refl (and_parts _ _ h).0 g)
              (λ _. returns (Inserts-refl s))))
  | inr (s', e) ↦ rw (e, close_by_keyword) (returns (satisfy_pending-Inserts t.kind s s' e))
]
