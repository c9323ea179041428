-- ===== src/Frontend/Layout/Correct.antt =====
-- frontend/Layout.cpp: what `applyLayout` guarantees of every token vector of the lexer.
use proto_scala.Common.{
  ◌≡◌, ◌≢◌, refl, sym, ap, ◌∙◌, Bool, true, false, not, ◌&&◌, if◌then◌else◌, Bool-cases, inl, inr,
  List, [], ◌∷◌, ◌++◌, some, subst, ok, ok-injective, fault, arith, All, append_assoc, ◌>>=◌,
}
use proto_scala.Frontend.Token
use proto_scala.Frontend.Token.{
  TokenKind, Token, int_lit, colon, colon_eol, kind_eq, kind_eq_iff, end_of_file, default_token,
}
use proto_scala.Frontend.Layout.Rules.{is_end_designator}
use proto_scala.Frontend.Layout.State.{top_level, Region, is_indented, Layout, LayoutPass}
use proto_scala.Frontend.Layout.Pass.{
  laid_token, marker_token, is_end_word, step_on, finish_at, finish, layout_loop, initial_pass,
  ends_input, last_token, apply_layout,
}
use proto_scala.Frontend.Layout.Nesting.{
  nest, run_nest, run_nest-append, kinds, Grounded, IsRaw, IsInserted, Post, returns, raises,
  Post-bind, Post-map, Post-if, Inserts, Inserts-Grounded, run_nest-Grounded,
}
use proto_scala.Frontend.Layout.Closes.{not-eq-false}
use proto_scala.Frontend.Layout.Inserts.{Grounded-end, and_parts, outdent_while-Inserts}
use proto_scala.Frontend.Layout.Emits.{Emits, Round, step-Round}

-- `out` is `raw`, up to the end of the file, with layout tokens put in between: a colon at the end
-- of its line becomes `colon_eol`, and `end` with its designator becomes one end marker.
pub data Lays : List Token → List Token → Type 0 where
  ends : {t : Token} {raw : List Token} → t.kind ≡ end_of_file → Lays (t ∷ raw) (t ∷ [])
  inserts : {t : Token} {raw out : List Token} → IsInserted t → Lays raw out → Lays raw (t ∷ out)
  keeps :
      {t n : Token} {raw out : List Token}
      → (t.kind ≡ colon → n.first_on_line ≡ false)
      → Lays (n ∷ raw) out
      → Lays (t ∷ (n ∷ raw)) (t ∷ out)
  opens :
      {t n : Token} {raw out : List Token}
      → t.kind ≡ colon
      → n.first_on_line ≡ true
      → Lays (n ∷ raw) out
      → Lays (t ∷ (n ∷ raw)) (record t { kind = colon_eol } ∷ out)
  marks :
      {t n : Token} {raw out : List Token}
      → is_end_word t ≡ true
      → is_end_designator n.kind ≡ true
      → Lays raw out
      → Lays (t ∷ (n ∷ raw)) (marker_token t n ∷ out)

Lays-inserts : (ts raw out : List Token) → All IsInserted ts → Lays raw out → Lays raw (ts ++ out)
Lays-inserts [] raw out h l = l
Lays-inserts (t ∷ ts) raw out (h, hs) l = inserts h (Lays-inserts ts raw out hs l)

if_true : {A : Type 0} (b : Bool) (x y : A) → b ≡ true → (if b then x else y) ≡ x
if_true b x y e = rw e

if_false : {A : Type 0} (b : Bool) (x y : A) → b ≡ false → (if b then x else y) ≡ y
if_false b x y e = rw e

and_first : (a b : Bool) → a ≡ true → (a && b) ≡ false → b ≡ false
and_first a b h e = ground arith

Lays-laid :
    (t n : Token) (raw out : List Token)
    → Lays (n ∷ raw) out
    → Lays (t ∷ (n ∷ raw)) (laid_token t n ∷ out)
unfolding laid_token
Lays-laid t n raw out l = elim (Bool-cases (kind_eq t.kind colon && n.first_on_line)) [
  | inl e ↦
      subst (λ k. Lays (t ∷ (n ∷ raw)) (record t { kind = k } ∷ out)) (sym (if_true _ _ _ e))
        (opens ((kind_eq_iff t.kind colon).0 (and_parts _ _ e).0) (and_parts _ _ e).1 l)
  | inr e ↦
      subst (λ k. Lays (t ∷ (n ∷ raw)) (record t { kind = k } ∷ out)) (sym (if_false _ _ _ e))
        (keeps (λ c. and_first _ _ ((kind_eq_iff t.kind colon).1 c) e) l)
]

-- The rest of the output from state `s` on, for the raw tokens left.
record Laid (s : LayoutPass) (raw res : List Token) : Type 0 where
  out : List Token
  appended : res ≡ s.out ++ out
  lays : Lays raw out
  nested : run_nest (kinds s) out ≡ some (top_level ∷ [])

Grounded-kinds : (s : LayoutPass) → s.outer ≡ [] → Grounded (kinds s) → kinds s ≡ top_level ∷ []
Grounded-kinds s e g = rw e (rw (Grounded-end s e g))

finish_at-Laid :
    (t : Token) (raw : List Token) (s s' : LayoutPass) (rs : List Region)
    → t.kind ≡ end_of_file
    → Inserts s s'
    → Grounded (kinds s')
    → s'.outer ≡ rs
    → Post (Laid s (t ∷ raw)) (finish_at t rs s')
unfolding run_nest nest
finish_at-Laid t raw s s' [] k a g e = returns (record {
  out = a.tokens ++ t ∷ [];
  appended = rw a.appended (append_assoc s.out a.tokens (t ∷ []));
  lays = Lays-inserts a.tokens (t ∷ raw) (t ∷ []) a.are_inserted (ends k);
  nested =
      run_nest-append a.tokens (t ∷ []) (kinds s) a.nested
      ∙ rw (k, run_nest, nest) (ap some (Grounded-kinds s' e g));
})
finish_at-Laid t raw s s' (r ∷ rs) k a g e = raises

finish-Laid :
    (t : Token) (raw : List Token) (s : LayoutPass)
    → t.kind ≡ end_of_file
    → Grounded (kinds s)
    → Post (Laid s (t ∷ raw)) (finish t s)
unfolding finish
finish-Laid t raw s k g =
    Post-bind (Laid s (t ∷ raw)) (outdent_while-Inserts is_indented t s.outer s (λ r h. h) g refl)
      (λ s' a. finish_at-Laid t raw s s' s'.outer k a (Inserts-Grounded s s' a g) refl)

designator_ends_not : (k : TokenKind) → is_end_designator k ≡ true → ends_input k ≡ true → ⊥
unfolding is_end_designator ends_input
designator_ends_not int_lit h e = cc
designator_ends_not _ h e = ground arith

Laid-after :
    (token : Token) (s s' : LayoutPass) (raw raw' res : List Token)
    → Emits token s s'
    → ((out : List Token) → Lays raw' out → Lays raw (token ∷ out))
    → Laid s' raw' res
    → Laid s raw res
Laid-after token s s' raw raw' res e lay l = record {
  out = e.tokens ++ (token ∷ l.out);
  appended =
      l.appended
      ∙ rw e.appended (
          append_assoc s.out (e.tokens ++ token ∷ []) l.out
          ∙ ap (λ u. s.out ++ u) (append_assoc e.tokens (token ∷ []) l.out));
  lays = Lays-inserts e.tokens raw (token ∷ l.out) e.are_inserted (lay l.out l.lays);
  nested =
      rw (← append_assoc e.tokens (token ∷ []) l.out)
        (run_nest-append (e.tokens ++ token ∷ []) l.out (kinds s) e.nested ∙ l.nested);
}

-- After a round, the loop goes on behind the token that was read, or behind the next one.
Round-Laid :
    (t n : Token) (rest : List Token) (s : LayoutPass) (b : Bool) (s' : LayoutPass)
    → Round t n s (b, s')
    → Post (Laid s' (n ∷ rest)) (layout_loop false s' (n ∷ rest))
    → Post (Laid s' rest) (layout_loop false s' rest)
    → Post (Laid s (t ∷ (n ∷ rest))) (layout_loop b s' (n ∷ rest))
unfolding layout_loop
Round-Laid t n rest s true s' r next after =
    Post-map
      (λ res.
        Laid-after (marker_token t n) s s' (t ∷ (n ∷ rest)) rest res r.emits
          (λ out. marks r.skips.0 r.skips.1))
      after
Round-Laid t n rest s false s' r next after =
    Post-map
      (λ res.
        Laid-after (laid_token t n) s s' (t ∷ (n ∷ rest)) (n ∷ rest) res r.emits
          (λ out. Lays-laid t n rest out))
      next

last-Round-Laid :
    (t n : Token) (s : LayoutPass) (b : Bool) (s' : LayoutPass)
    → ends_input n.kind ≡ true
    → Round t n s (b, s')
    → Post (Laid s' (n ∷ [])) (layout_loop false s' (n ∷ []))
    → Post (Laid s (t ∷ (n ∷ []))) (layout_loop b s' (n ∷ []))
last-Round-Laid t n s true s' l r next = absurd (designator_ends_not n.kind r.skips.1 l)
last-Round-Laid t n s false s' l r next =
    Post-map
      (λ res.
        Laid-after (laid_token t n) s s' (t ∷ (n ∷ [])) (n ∷ []) res r.emits
          (λ out. Lays-laid t n [] out))
      next

Round-Grounded :
    (t n : Token) (s : LayoutPass) (r : Bool × LayoutPass)
    → Round t n s r
    → Grounded (kinds s)
    → Grounded (kinds r.1)
Round-Grounded t n s r m g = run_nest-Grounded _ (kinds s) g m.emits.nested

-- One turn of the loop: an error, the end of the file, or a round.
turn-Laid :
    (t : Token) (rest : List Token) (s : LayoutPass)
    → Grounded (kinds s)
    → (kind_eq t.kind Token.error ≡ false
        → kind_eq t.kind end_of_file ≡ false
        → Post (Laid s (t ∷ rest)) (step_on t rest s >>= λ r. layout_loop r.0 r.1 rest))
    → Post (Laid s (t ∷ rest)) (layout_loop false s (t ∷ rest))
unfolding layout_loop
turn-Laid t rest s g round =
    Post-if (kind_eq t.kind Token.error) (λ _. raises)
      (λ ne.
        Post-if (kind_eq t.kind end_of_file)
          (λ h. finish-Laid t rest s ((kind_eq_iff t.kind end_of_file).0 h) g) (λ nf. round ne nf))

last_ends :
    (k : TokenKind)
    → ends_input k ≡ true
    → kind_eq k Token.error ≡ false
    → kind_eq k end_of_file ≡ false
    → ⊥
unfolding ends_input
last_ends k l e f = ground arith

layout_loop-Laid :
    (t : Token) (rest : List Token) (s : LayoutPass)
    → All IsRaw (t ∷ rest)
    → ends_input (last_token t rest).kind ≡ true
    → Grounded (kinds s)
    → Post (Laid s (t ∷ rest)) (layout_loop false s (t ∷ rest))
unfolding last_token
layout_loop-Laid t [] s raw l g = turn-Laid t [] s g (λ e f. absurd (last_ends t.kind l e f))
layout_loop-Laid t (n ∷ []) s raw l g = turn-Laid t (n ∷ []) s g (λ _ _.
    Post-bind {A = Bool × LayoutPass} (Laid s (t ∷ (n ∷ []))) (step-Round t n [] s raw.0 g) (λ r m.
      last-Round-Laid t n s r.0 r.1 l m
        (layout_loop-Laid n [] r.1 raw.1 l (Round-Grounded t n s r m g))))
layout_loop-Laid t (n ∷ (u ∷ us)) s raw l g = turn-Laid t (n ∷ (u ∷ us)) s g (λ _ _.
    Post-bind {A = Bool × LayoutPass} (Laid s (t ∷ (n ∷ (u ∷ us))))
      (step-Round t n (u ∷ us) s raw.0 g)
      (λ r m.
        Round-Laid t n (u ∷ us) s r.0 r.1 m
          (layout_loop-Laid n (u ∷ us) r.1 raw.1 l (Round-Grounded t n s r m g))
          (layout_loop-Laid u us r.1 raw.1.1 l (Round-Grounded t n s r m g))))

initial-Grounded : (t : Token) → Grounded (kinds (initial_pass t))
initial-Grounded t = refl

apply_layout-Laid :
    (t : Token) (ts : List Token)
    → All IsRaw (t ∷ ts)
    → Post (Laid (initial_pass t) (t ∷ ts)) (apply_layout (t ∷ ts))
unfolding apply_layout
apply_layout-Laid t ts raw =
    Post-if (not (ends_input (last_token t ts).kind)) (λ _. raises)
      (λ e. layout_loop-Laid t ts (initial_pass t) raw (not-eq-false _ e) (initial-Grounded t))

Post-eq-ok : {A : Type 0} {P : A → Type 0} {m : Layout A} {a : A} → Post P m → m ≡ ok a → P a
Post-eq-ok {P} (returns h) e = subst P (ok-injective e) h
Post-eq-ok raises e = cc

Post-ne-fault : {A : Type 0} {P : A → Type 0} {m : Layout A} → Post P m → m ≢ fault
Post-ne-fault (returns h) e = cc
Post-ne-fault raises e = cc

-- Where the layout of a lexer's tokens succeeds, its output is those tokens up to the end of the
-- file, in order, none lost or doubled, with only Newline, Indent and Outdent put in between; a
-- colon at the end of a line is renamed, and an end marker stands for `end` and its designator.
pub apply_layout-Lays :
    (t : Token) (ts : List Token) {out : List Token}
    → All IsRaw (t ∷ ts)
    → apply_layout (t ∷ ts) ≡ ok out
    → Lays (t ∷ ts) out
apply_layout-Lays t ts raw e =
    let l = Post-eq-ok (apply_layout-Laid t ts raw) e in
    subst (Lays (t ∷ ts)) (sym l.appended) l.lays

-- Where the layout of a lexer's tokens succeeds, the parentheses, brackets, braces, Indents and
-- Outdents of its output are properly nested, and all of them are closed at the end.
pub apply_layout-nested :
    (raw : List Token) {out : List Token}
    → All IsRaw raw
    → apply_layout raw ≡ ok out
    → run_nest (top_level ∷ []) out ≡ some (top_level ∷ [])
unfolding apply_layout run_nest nest
apply_layout-nested [] h e = rw (← ok-injective e)
apply_layout-nested (t ∷ ts) h e =
    let l = Post-eq-ok (apply_layout-Laid t ts h) e in
    subst (λ u. run_nest (top_level ∷ []) u ≡ some (top_level ∷ [])) (sym l.appended) l.nested

-- The layout of a lexer's tokens ends, with a result or an error: it never pops the last region
-- and never reads behind the last token.
pub apply_layout-ne-fault : (raw : List Token) → All IsRaw raw → apply_layout raw ≢ fault
unfolding apply_layout
apply_layout-ne-fault [] h e = cc
apply_layout-ne-fault (t ∷ ts) h e = Post-ne-fault (apply_layout-Laid t ts h) e
