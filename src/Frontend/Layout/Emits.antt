-- ===== src/Frontend/Layout/Emits.antt =====
-- frontend/Layout.cpp: one round of the loop. The round puts out inserted tokens and then the
-- raw token itself or an end marker, and the bracket machine follows its regions.
use proto_scala.Common.{
  ◌≡◌, refl, sym, ap, ◌∙◌, Bool, true, false, not, ◌&&◌, if◌then◌else◌, List, [], ◌∷◌, ◌++◌, Option,
  none, some, arith, All, append_assoc,
}
use proto_scala.Frontend.Token.{
  TokenKind, Token, l_paren, r_paren, l_bracket, r_bracket, l_brace, r_brace, colon, colon_eol,
  kind_eq, semicolon, kw_if, kw_try, kw_while, kw_for, indent, outdent,
}
use proto_scala.Frontend.Layout.State.{RegionKind, LayoutPass}
use proto_scala.Frontend.Layout.Rules.{is_end_designator}
use proto_scala.Frontend.Layout.Pass.{
  bracket_region, dispatch, note_extension, laid_token, put_out, marker_token, try_end_marker,
  place, is_end_word, mark_or_place, is_empty, step,
}
use proto_scala.Frontend.Layout.Nesting.{
  nest, run_nest, run_nest-append, kinds, Grounded, is_layout_kind, IsRaw, IsInserted, Post,
  returns, Post-bind, Post-if, Inserts, Inserts-same, Inserts-Grounded, All-append,
}
use proto_scala.Frontend.Layout.Closes.{Dispatched, Dispatched-plain, close_kind-Dispatched}
use proto_scala.Frontend.Layout.Inserts.{line_break-Inserts, close_by_keyword-Inserts}

-- Inserted tokens, and then the token given.
pub record Emits (token : Token) (s s' : LayoutPass) : Type 0 where
  pub tokens : List Token
  pub are_inserted : All IsInserted tokens
  pub appended : s'.out ≡ s.out ++ (tokens ++ token ∷ [])
  pub nested : run_nest (kinds s) (tokens ++ token ∷ []) ≡ some (kinds s')

nest-laid_kind :
    (k : TokenKind) (b : Bool) (rs : List RegionKind)
    → nest rs (if kind_eq k colon && b then colon_eol else k) ≡ nest rs k
unfolding nest kind_eq
nest-laid_kind colon true rs = refl
nest-laid_kind colon false rs = refl
nest-laid_kind _ b rs = refl

dispatch-Dispatched :
    (k : TokenKind) (t n : Token) (s : LayoutPass)
    → t.kind ≡ k
    → is_layout_kind k ≡ false
    → Grounded (kinds s)
    → Post {A = LayoutPass × Bool} (λ p. Dispatched k s p.0) (dispatch k t n s)
unfolding dispatch nest is_layout_kind bracket_region
dispatch-Dispatched l_paren t n s e raw g = returns (Dispatched-plain l_paren s _ refl refl)
dispatch-Dispatched l_bracket t n s e raw g = returns (Dispatched-plain l_bracket s _ refl refl)
dispatch-Dispatched l_brace t n s e raw g = returns (Dispatched-plain l_brace s _ refl refl)
dispatch-Dispatched r_paren t n s e raw g = close_kind-Dispatched r_paren t n s e (λ rs. refl) g
dispatch-Dispatched r_bracket t n s e raw g = close_kind-Dispatched r_bracket t n s e (λ rs. refl) g
dispatch-Dispatched r_brace t n s e raw g = close_kind-Dispatched r_brace t n s e (λ rs. refl) g
dispatch-Dispatched semicolon t n s e raw g = returns (Dispatched-plain semicolon s _ refl refl)
dispatch-Dispatched kw_if t n s e raw g = returns (Dispatched-plain kw_if s _ refl refl)
dispatch-Dispatched kw_try t n s e raw g = returns (Dispatched-plain kw_try s _ refl refl)
dispatch-Dispatched kw_while t n s e raw g = returns (Dispatched-plain kw_while s _ refl refl)
dispatch-Dispatched kw_for t n s e raw g = returns (Dispatched-plain kw_for s _ refl refl)
dispatch-Dispatched indent t n s e raw g = cc
dispatch-Dispatched outdent t n s e raw g = cc
dispatch-Dispatched _ t n s e raw g = returns (Dispatched-plain _ s _ refl refl)

nest-laid_token :
    (t n : Token) (rs : List RegionKind) → nest rs (laid_token t n).kind ≡ nest rs t.kind
unfolding laid_token kind_eq
nest-laid_token t n rs = nest-laid_kind t.kind n.first_on_line rs

Emits-intro :
    (token : Token) (k : TokenKind) (s s₁ s₂ s₃ : LayoutPass)
    → ((rs : List RegionKind) → nest rs token.kind ≡ nest rs k)
    → s₃.out ≡ s₂.out ++ token ∷ []
    → kinds s₃ ≡ kinds s₂
    → Inserts s s₁
    → Dispatched k s₁ s₂
    → Emits token s s₃
unfolding run_nest
Emits-intro token k s s₁ s₂ s₃ same o e a d = record {
  tokens = a.tokens ++ d.tokens;
  are_inserted = All-append a.tokens d.tokens a.are_inserted d.are_inserted;
  appended =
      o
      ∙ rw (d.appended, a.appended)
          (append_assoc (s.out ++ a.tokens) d.tokens (token ∷ [])
            ∙ append_assoc s.out a.tokens (d.tokens ++ token ∷ [])
            ∙ ap (λ l. s.out ++ l) (sym (append_assoc a.tokens d.tokens (token ∷ []))));
  nested = rw append_assoc (
      run_nest-append a.tokens (d.tokens ++ token ∷ []) (kinds s) a.nested
      ∙ run_nest-append d.tokens (token ∷ []) (kinds s₁) d.nested
      ∙ rw (same, run_nest) (rw (d.stepped, run_nest) (ap some (sym e))));
}

place-Emits :
    (t n : Token) (s : LayoutPass)
    → IsRaw t
    → Grounded (kinds s)
    → Post (Emits (laid_token t n) s) (place t n s)
unfolding place put_out note_extension
place-Emits t n s raw g =
    Post-bind (Emits (laid_token t n) s) (close_by_keyword-Inserts t s g) (λ s' a.
      Post-bind {A = LayoutPass × Bool} (Emits (laid_token t n) s)
        (dispatch-Dispatched t.kind t n s' refl raw (Inserts-Grounded s s' a g))
        (λ p d. returns (
          Emits-intro (laid_token t n) t.kind s s' p.0 _ (nest-laid_token t n) (ground arith)
            (ground arith) a d)))

-- What a round puts out behind the inserted tokens.
abbrev pub round_token : Token → Token → Bool → Token
round_token t n true = marker_token t n
round_token t n false = laid_token t n

-- A round that skips a token has read `end` and a designator.
abbrev pub SkipsMarker : Token → Token → Bool → Type 0
SkipsMarker t n true = (is_end_word t ≡ true) × (is_end_designator n.kind ≡ true)
SkipsMarker t n false = Unit

-- What a round does: the flag says whether the next token is skipped.
pub record Round (t n : Token) (s : LayoutPass) (r : Bool × LayoutPass) : Type 0 where
  pub emits : Emits (round_token t n r.0) s r.1
  pub skips : SkipsMarker t n r.0

Emits-trans :
    (token : Token) (s s₁ s₂ : LayoutPass) → Inserts s s₁ → Emits token s₁ s₂ → Emits token s s₂
Emits-trans token s s₁ s₂ a e = record {
  tokens = a.tokens ++ e.tokens;
  are_inserted = All-append a.tokens e.tokens a.are_inserted e.are_inserted;
  appended =
      rw (e.appended, a.appended)
        (append_assoc s.out a.tokens (e.tokens ++ token ∷ [])
          ∙ ap (λ l. s.out ++ l) (sym (append_assoc a.tokens e.tokens (token ∷ []))));
  nested =
      rw append_assoc
        (run_nest-append a.tokens (e.tokens ++ token ∷ []) (kinds s) a.nested ∙ e.nested);
}

-- A raw end marker leaves the regions as they are.
try_end_marker_lem :
    (t n : Token) (rest : List Token) (s s' : LayoutPass)
    → try_end_marker t n rest s ≡ some s'
    → (s'.out ≡ s.out ++ marker_token t n ∷ [])
      × (kinds s' ≡ kinds s)
      × (is_end_designator n.kind ≡ true)
unfolding try_end_marker
try_end_marker_lem t n rest s s' h = ground arith

marker-Emits :
    (t n : Token) (rest : List Token) (s s' : LayoutPass)
    → try_end_marker t n rest s ≡ some s'
    → Emits (marker_token t n) s s'
unfolding run_nest nest
marker-Emits t n rest s s' h = record {
  tokens = [];
  are_inserted = tt;
  appended = (try_end_marker_lem t n rest s s' h).0;
  nested = ap some (sym (try_end_marker_lem t n rest s s' h).1);
}

mark_or_place-Round :
    (t n : Token) (rest : List Token) (s s₁ : LayoutPass) (b : Bool) (o : Option LayoutPass)
    → Inserts s s₁
    → Post (Emits (laid_token t n) s₁) (place t n s₁)
    → is_end_word t ≡ b
    → (if b then try_end_marker t n rest s₁ else none) ≡ o
    → Post (Round t n s) (mark_or_place o (place t n s₁))
mark_or_place-Round t n rest s s₁ b none a p w e =
    Post-bind (Round t n s) p
      (λ s₂ m. returns (record { emits = Emits-trans _ s s₁ s₂ a m; skips = tt }))
mark_or_place-Round t n rest s s₁ false (some s₂) a p w e = cc
mark_or_place-Round t n rest s s₁ true (some s₂) a p w e = returns (record {
  emits = Emits-trans _ s s₁ s₂ a (marker-Emits t n rest s₁ s₂ e);
  skips = (w, (try_end_marker_lem t n rest s₁ s₂ e).2);
})

pub step-Round :
    (t n : Token) (rest : List Token) (s : LayoutPass)
    → IsRaw t
    → Grounded (kinds s)
    → Post (Round t n s) (step t n rest s)
unfolding step
step-Round t n rest s raw g =
    Post-bind (Round t n s)
      (Post-if (t.first_on_line && not (is_empty s.out)) (λ _. line_break-Inserts t n s g)
        (λ _. returns (Inserts-same s s refl refl)))
      (λ s₁ a.
        mark_or_place-Round t n rest s s₁ (is_end_word t) _ a
          (place-Emits t n s₁ raw (Inserts-Grounded s s₁ a g)) refl refl)
