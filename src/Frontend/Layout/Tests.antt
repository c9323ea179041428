-- ===== src/Frontend/Layout/Tests.antt =====
-- The layout of `if (x)` / `  y` / `end if`, and a bracket left open.
use proto_scala.Common.{
  ◌≡◌, ◌≢◌, refl, Bool, true, false, ℕ, List, [], ◌∷◌, some, Bytes, codes, ok, err, fault, All,
}
use proto_scala.Frontend.Token.{
  TokenKind, Token, default_token, identifier, kw_if, l_paren, r_paren, indent, outdent, newline,
  end_of_file,
}
use proto_scala.Frontend.Layout.State.{top_level, synth_token, lex_error, satisfy}
use proto_scala.Frontend.Layout.Rules.{closes_region_opened_by}
use proto_scala.Frontend.Layout.Pass.{apply_layout, marker_token}
use proto_scala.Frontend.Layout.Nesting.{run_nest, is_layout_kind, IsRaw}
use proto_scala.Frontend.Layout.Correct.{
  Lays, apply_layout-Lays, apply_layout-nested, apply_layout-ne-fault,
}

abbrev at : TokenKind → Bytes → ℕ → ℕ → ℕ → Bool → Token
at k s l c w first = record default_token {
  kind = k;
  text = s;
  pos = record { line = l; column = c };
  end = record { line = l; column = c };
  line_indent = w;
  first_on_line = first;
}

abbrev if_token : Token
if_token = at kw_if (codes "if") 1 1 0 true

abbrev open_token : Token
open_token = at l_paren (codes "(") 1 4 0 false

abbrev x_token : Token
x_token = at identifier (codes "x") 1 5 0 false

abbrev close_token : Token
close_token = at r_paren (codes ")") 1 6 0 false

abbrev y_token : Token
y_token = at identifier (codes "y") 2 3 2 true

abbrev end_token : Token
end_token = at identifier (codes "end") 3 1 0 true

abbrev word_token : Token
word_token = at kw_if (codes "if") 3 5 0 false

abbrev eof_token : Token
eof_token = at end_of_file [] 4 1 0 true

abbrev sample_rest : List Token
sample_rest = open_token ∷ x_token ∷ close_token ∷ y_token ∷ end_token ∷ word_token ∷ eof_token ∷ []

abbrev sample_out : List Token
sample_out =
    if_token
    ∷ open_token
    ∷ x_token
    ∷ close_token
    ∷ synth_token indent y_token
    ∷ y_token
    ∷ synth_token outdent end_token
    ∷ synth_token newline end_token
    ∷ marker_token end_token word_token
    ∷ eof_token
    ∷ []

sample-IsRaw : All IsRaw (if_token ∷ sample_rest)
unfolding is_layout_kind
sample-IsRaw = (refl, (refl, (refl, (refl, (refl, (refl, (refl, (refl, tt))))))))

sample_lays : apply_layout (if_token ∷ sample_rest) ≡ ok sample_out
unfolding apply_layout satisfy closes_region_opened_by
sample_lays = refl

-- The end of the input inside a parenthesis asks for more lines.
open_at_eof :
    apply_layout (open_token ∷ eof_token ∷ [])
    ≡ err (lex_error (codes "unclosed '('") eof_token.pos true)
unfolding apply_layout satisfy
open_at_eof = refl

apply_layout-Lays_example : Lays (if_token ∷ sample_rest) sample_out
apply_layout-Lays_example = apply_layout-Lays if_token sample_rest sample-IsRaw sample_lays

apply_layout-nested_example : run_nest (top_level ∷ []) sample_out ≡ some (top_level ∷ [])
apply_layout-nested_example = apply_layout-nested (if_token ∷ sample_rest) sample-IsRaw sample_lays

apply_layout-ne-fault_example : apply_layout (if_token ∷ sample_rest) ≢ fault
apply_layout-ne-fault_example = apply_layout-ne-fault (if_token ∷ sample_rest) sample-IsRaw
