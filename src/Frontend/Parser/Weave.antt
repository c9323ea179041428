-- ===== src/Frontend/Parser/Weave.antt =====
-- frontend/Parser.cpp: parseInterpolation loses no text.
use proto_scala.Common.{
  ℕ, zero, suc, ◌≡◌, refl, sym, ap, subst, ◌∙◌, Bool, true, false, ◌&&◌, if◌then◌else◌, Option,
  none, some, List, [], ◌∷◌, ◌++◌, map, append-nil, append_assoc, length, length-append, take, drop,
  Bytes, Outcome, ok, ◌>>=◌, bind-eq-ok, ok-injective, arith, inl, inr, ◌⊎◌,
}
use proto_scala.Frontend.Token.{InterpolationPart, SourcePos}
use proto_scala.Frontend.Parser.Interpolation.{
  set_last, Interp, no_parts, with_text, with_hole, add_part, add_parts, parse_interpolation,
}

abbrev pub marks : Bytes → List (Option ℕ)
marks s = map (λ c. some c) s

-- The text of a string, with a mark for each hole
abbrev pub parts_text : List InterpolationPart → List (Option ℕ)
parts_text [] = []
parts_text (part ∷ parts) =
    (if part.is_hole then none ∷ [] else marks part.text) ++ parts_text parts

-- The literals, each with a hole and its specifier behind it as long as there are specifiers
abbrev pub weave : List Bytes → List Bytes → List (Option ℕ)
weave [] ss = []
weave (l ∷ ls) [] = marks l ++ weave ls []
weave (l ∷ ls) (s ∷ ss) = marks l ++ none ∷ (marks s ++ weave ls ss)

marks-append : (s t : Bytes) → marks (s ++ t) ≡ marks s ++ marks t
marks-append [] t = refl
marks-append (c ∷ cs) t = ap (λ l. some c ∷ l) (marks-append cs t)

take-drop : (n : ℕ) (s : Bytes) → take n s ++ drop n s ≡ s
take-drop zero s = refl
take-drop (suc n) [] = refl
take-drop (suc n) (c ∷ cs) = ap (λ l. c ∷ l) (take-drop n cs)

marks-take : (n : ℕ) (s : Bytes) → marks (take n s) ++ marks (drop n s) ≡ marks s
marks-take n s = sym (marks-append (take n s) (drop n s)) ∙ ap (λ l. marks l) (take-drop n s)

weave-end :
    (ls ss : List Bytes) (p : Bytes)
    → length ls ≡ length ss
    → weave (ls ++ p ∷ []) ss ≡ weave ls ss ++ marks p
weave-end [] [] p e = append-nil (marks p)
weave-end [] (s ∷ ss) p e = ground (arith, e)
weave-end (l ∷ ls) [] p e = ground (arith, e)
weave-end (l ∷ ls) (s ∷ ss) p e = simp (weave-end ls ss p (omega (arith, e)), append_assoc)

weave-pair :
    (ls ss : List Bytes) (p s : Bytes)
    → length ls ≡ length ss
    → weave (ls ++ p ∷ []) (ss ++ s ∷ []) ≡ weave ls ss ++ (marks p ++ none ∷ marks s)
weave-pair [] [] p s e = ap (λ l. marks p ++ none ∷ l) (append-nil (marks s))
weave-pair [] (t ∷ ss) p s e = ground (arith, e)
weave-pair (l ∷ ls) [] p s e = ground (arith, e)
weave-pair (l ∷ ls) (t ∷ ss) p s e = simp (weave-pair ls ss p s (omega (arith, e)), append_assoc)

set_last-end : (ss : List Bytes) (s spec : Bytes) → set_last spec (ss ++ s ∷ []) ≡ ss ++ spec ∷ []
unfolding set_last
set_last-end [] s spec = refl
set_last-end (t ∷ []) s spec = refl
set_last-end (t ∷ u ∷ us) s spec = ap (λ l. t ∷ l) (set_last-end (u ∷ us) s spec)

module _ {A : Type 0} where
  -- Directly behind a hole
  record IsBehindHole (s : Interp A) : Type 0 where
    front : List Bytes
    literal : Bytes
    specs : List Bytes
    is_literals : s.literals ≡ front ++ literal ∷ []
    is_specs : s.specs ≡ specs ++ [] ∷ []
    aligned : length front ≡ length specs
    is_pending : s.pending ≡ []

  record Kept (s : Interp A) (text : List (Option ℕ)) : Type 0 where
    whole : weave s.literals s.specs ++ marks s.pending ≡ text
    aligned : length s.literals ≡ length s.specs
    counted : length s.args ≡ length s.specs
    behind : s.after_hole ≡ true → IsBehindHole s

  no_parts-Kept : Kept no_parts []
  no_parts-Kept = record { whole = refl; aligned = refl; counted = refl; behind = λ e. cc }

  Kept-hole :
      {s : Interp A} {text : List (Option ℕ)} (a : A)
      → Kept s text
      → Kept (with_hole s a) (text ++ none ∷ [])
  Kept-hole {s} {text} a k = record {
    whole = simp (
      weave-pair s.literals s.specs s.pending [] k.aligned,
      sym k.whole,
      append_assoc,
      append-nil,
    );
    aligned = omega (
      arith,
      length-append s.literals (s.pending ∷ []),
      length-append s.specs ([] ∷ []),
      k.aligned,
    );
    counted =
        omega (arith, length-append s.args (a ∷ []), length-append s.specs ([] ∷ []), k.counted);
    behind = λ e. record {
      front = s.literals;
      literal = s.pending;
      specs = s.specs;
      is_literals = refl;
      is_specs = refl;
      aligned = k.aligned;
      is_pending = refl;
    };
  }

  Kept-text :
      {s : Interp A} {text : List (Option ℕ)} (n : ℕ) (t : Bytes)
      → (n ≡ 0 ⊎ s.after_hole ≡ true)
      → Kept s text
      → Kept (with_text n t s) (text ++ marks t)
  Kept-text {s} {text} zero t c k = record {
    whole = simp (marks-append s.pending t, sym k.whole, append_assoc);
    aligned = k.aligned;
    counted = k.counted;
    behind = λ e. cc;
  }
  Kept-text {s} {text} (suc n) t (inl z) k = ground (arith, z)
  Kept-text {s} {text} (suc n) t (inr after) k =
      let b = k.behind after in
      record {
        whole = simp (
          b.is_literals,
          b.is_specs,
          b.is_pending,
          set_last-end b.specs [] (take (suc n) t),
          sym k.whole,
          weave-pair b.front b.specs b.literal (take (suc n) t) b.aligned,
          weave-pair b.front b.specs b.literal [] b.aligned,
          marks-take (suc n) t,
          append_assoc,
          append-nil,
        );
        aligned =
            rw (b.is_literals, b.is_specs, set_last-end b.specs [] (take (suc n) t))
              (omega (
                arith,
                length-append b.front (b.literal ∷ []),
                length-append b.specs (take (suc n) t ∷ []),
                b.aligned,
              ));
        counted =
            rw (b.is_specs, set_last-end b.specs [] (take (suc n) t))
              (omega (
                arith,
                k.counted,
                ap (λ l. length l) b.is_specs,
                length-append b.specs ([] ∷ []),
                length-append b.specs (take (suc n) t ∷ []),
              ));
        behind = λ e. cc;
      }

taken-after : (b c : Bool) (n : ℕ) → ((if b && c then n else 0) ≡ 0) ⊎ (c ≡ true)
taken-after true true n = inr refl
taken-after true false n = inl refl
taken-after false c n = inl refl

module _ {A E : Type 0} (parse_hole : Bytes → SourcePos → Outcome E A) where
  add_part-Kept :
      (is_f : Bool) (s : Interp A) (part : InterpolationPart) {r : Interp A}
      {text : List (Option ℕ)}
      → add_part parse_hole is_f s part ≡ ok r
      → Kept s text
      → Kept r (text ++ (if part.is_hole then none ∷ [] else marks part.text))
  unfolding add_part
  add_part-Kept is_f s part {r} {text} e k = by_kind part.is_hole _ e
    where
      by_kind :
          (hole : Bool) (n : ℕ)
          → (if hole
              then (parse_hole part.text part.pos >>= λ a. ok (with_hole s a))
              else ok (with_text (if is_f && s.after_hole then n else 0) part.text s))
            ≡ ok r
          → Kept r (text ++ (if hole then none ∷ [] else marks part.text))
      by_kind true n h =
          let (a, was, now) = bind-eq-ok (parse_hole part.text part.pos) _ h in
          subst (λ x. Kept x (text ++ none ∷ [])) (ok-injective now) (Kept-hole a k)
      by_kind false n h =
          subst (λ x. Kept x (text ++ marks part.text)) (ok-injective h)
            (Kept-text _ part.text (taken-after is_f s.after_hole n) k)

  add_parts-Kept :
      (is_f : Bool) (s : Interp A) (parts : List InterpolationPart) {r : Interp A}
      {text : List (Option ℕ)}
      → add_parts parse_hole is_f s parts ≡ ok r
      → Kept s text
      → Kept r (text ++ parts_text parts)
  unfolding add_parts
  add_parts-Kept is_f s [] {text = text} e k =
      rw (append-nil text) (subst (λ x. Kept x text) (ok-injective e) k)
  add_parts-Kept is_f s (part ∷ parts) {r} {text} e k =
      let (t, was, now) = bind-eq-ok (add_part parse_hole is_f s part) _ e in
      subst (λ x. Kept r x)
        (append_assoc text (if part.is_hole then none ∷ [] else marks part.text) (parts_text parts))
        (add_parts-Kept is_f t parts now (add_part-Kept is_f s part was k))

  -- Where every hole is parsed, the literals are one more than the trees, the specifiers as many as the
  -- trees, and the literals and the specifiers put together again around the holes are the parts of the
  -- string: no text is lost, and none is moved behind another hole.
  pub parse_interpolation-weave :
      (is_f : Bool) (parts : List InterpolationPart) (ls : List Bytes) (xs : List A)
      (ss : List Bytes)
      → parse_interpolation parse_hole is_f parts ≡ ok (ls, (xs, ss))
      → (weave ls ss ≡ parts_text parts) × ((length ls ≡ suc (length xs)) × (length ss ≡ length xs))
  unfolding parse_interpolation
  parse_interpolation-weave is_f parts ls xs ss e =
      let (s, was, now) = bind-eq-ok (add_parts parse_hole is_f no_parts parts) _ e in
      let k = add_parts-Kept is_f no_parts parts was no_parts-Kept in
      subst
        (λ x.
          (weave x.0 x.1.1 ≡ parts_text parts)
          × ((length x.0 ≡ suc (length x.1.0)) × (length x.1.1 ≡ length x.1.0)))
        (ok-injective now)
        (
          weave-end s.literals s.specs s.pending k.aligned ∙ k.whole,
          (
            omega (arith, length-append s.literals (s.pending ∷ []), k.aligned, k.counted),
            omega (arith, k.counted),
          ),
        )
