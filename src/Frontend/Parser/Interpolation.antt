-- ===== src/Frontend/Parser/Interpolation.antt =====
-- frontend/Parser.cpp: formatSpecLength and parseInterpolation. What a hole is parsed to, by the lexer, the
-- layout and the parser, is a parameter.
use proto_scala.Common.{
  ℕ, zero, suc, ◌-◌, Bool, true, false, not, ◌&&◌, ◌==◌, if◌then◌else◌, List, [], ◌∷◌, ◌++◌, length,
  take, drop, Bytes, Outcome, ok, ◌>>=◌,
}
use proto_scala.Frontend.Token.{InterpolationPart, SourcePos}
use proto_scala.Support.FormatSpec.{is_flag, is_digit}

unfoldable pub skip_while : (ℕ → Bool) → Bytes → Bytes
skip_while p [] = []
skip_while p (c ∷ cs) = let behind = skip_while p cs in if p c then behind else c ∷ cs

unfoldable pub skip_precision : Bytes → Bytes
unfolding skip_while
skip_precision [] = []
skip_precision (c ∷ cs) = let behind = skip_while is_digit cs in if c == 46 then behind else c ∷ cs

abbrev pub length_with : ℕ → Bytes → ℕ
length_with n [] = 0
length_with n (c ∷ cs) = suc (n - length (c ∷ cs))

-- `formatSpecLength`
unfoldable pub format_spec_length : Bytes → ℕ
unfolding skip_precision skip_while
format_spec_length [] = 0
format_spec_length (c ∷ []) = 0
format_spec_length (c ∷ d ∷ ds) =
    if c == 37 && not (d == 37)
    then length_with (length (c ∷ d ∷ ds))
        (skip_precision (skip_while is_digit (skip_while is_flag (d ∷ ds))))
    else 0

-- `specs.back() = spec`
unfoldable pub set_last : Bytes → List Bytes → List Bytes
set_last spec [] = []
set_last spec (s ∷ []) = spec ∷ []
set_last spec (s ∷ t ∷ ts) = s ∷ set_last spec (t ∷ ts)

-- The members of the node, and the locals of the loop.
pub record Interp (A : Type 0) : Type 0 where
  pub literals : List Bytes
  pub args : List A
  pub specs : List Bytes
  pub pending : Bytes
  pub after_hole : Bool

module _ {A : Type 0} where
  abbrev pub no_parts : Interp A
  no_parts = record { literals = []; args = []; specs = []; pending = []; after_hole = false }

  -- Literal text, of which a specifier takes a part.
  abbrev pub with_text : ℕ → Bytes → Interp A → Interp A
  with_text zero text s = record s { pending = s.pending ++ text; after_hole = false }
  with_text (suc n) text s = record s {
    specs = set_last (take (suc n) text) s.specs;
    pending = s.pending ++ drop (suc n) text;
    after_hole = false;
  }

  abbrev pub with_hole : Interp A → A → Interp A
  with_hole s a = record s {
    literals = s.literals ++ s.pending ∷ [];
    args = s.args ++ a ∷ [];
    specs = s.specs ++ [] ∷ [];
    pending = [];
    after_hole = true;
  }

  module _ {E : Type 0} (parse_hole : Bytes → SourcePos → Outcome E A) where
    unfoldable pub add_part : Bool → Interp A → InterpolationPart → Outcome E (Interp A)
    unfolding format_spec_length set_last
    add_part is_f s part =
        if part.is_hole
        then (parse_hole part.text part.pos >>= λ a. ok (with_hole s a))
        else ok (
            with_text (if is_f && s.after_hole then format_spec_length part.text else 0) part.text
              s)

    unfoldable pub add_parts : Bool → Interp A → List InterpolationPart → Outcome E (Interp A)
    unfolding add_part
    add_parts is_f s [] = ok s
    add_parts is_f s (part ∷ parts) = add_part is_f s part >>= λ t. add_parts is_f t parts

    -- `parseInterpolation`, its literals, trees and specifiers
    unfoldable pub parse_interpolation :
        Bool → List InterpolationPart → Outcome E (List Bytes × (List A × List Bytes))
    unfolding add_parts
    parse_interpolation is_f parts =
        add_parts is_f no_parts parts >>= λ s. ok (s.literals ++ s.pending ∷ [], (s.args, s.specs))
