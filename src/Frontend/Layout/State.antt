-- ===== src/Frontend/Layout/State.antt =====
-- frontend/Layout.cpp: the regions and the state of the pass, and the operations on the stack of
-- regions. The stack is never empty, so its innermost region is a field; `pending` and `outer`
-- have their innermost element first. `out` grows at its end.
use proto_scala.Common.{
  ℕ, Bool, true, false, ◌&&◌, if◌then◌else◌, List, [], ◌∷◌, ◌++◌, Option, none, some, Bytes,
  Outcome, ok, fault, ◌>>=◌,
}
use proto_scala.Frontend.Token.{
  TokenKind, Token, SourcePos, default_token, newline, outdent, r_paren, kw_then, kw_catch,
  end_of_file,
}
use proto_scala.Frontend.Layout.Rules.{closes_region_opened_by, is_condition_keyword}

pub data RegionKind : Type 0 where
  top_level braces parens brackets indented : RegionKind

unfoldable pub region_kind_eq : RegionKind → RegionKind → Bool
region_kind_eq top_level top_level = true
region_kind_eq braces braces = true
region_kind_eq parens parens = true
region_kind_eq brackets brackets = true
region_kind_eq indented indented = true
region_kind_eq _ _ = false

pub record Region : Type 0 where
  pub kind : RegionKind
  pub width : ℕ
  pub width_known : Bool
  pub opener : TokenKind
  pub condition : Bool
  pub provisional : Bool
  pub pending : List TokenKind

-- `Region{kind, width}`, the other members at their defaults.
abbrev pub region_of : RegionKind → ℕ → Region
region_of k w = record {
  kind = k;
  width = w;
  width_known = true;
  opener = end_of_file;
  condition = false;
  provisional = false;
  pending = [];
}

abbrev pub is_indented : Region → Bool
is_indented r = region_kind_eq r.kind indented

-- What the pass throws: a `LexError`, or `std::invalid_argument`.
pub data LayoutError : Type 0 where
  lex_error : Bytes → SourcePos → Bool → LayoutError
  invalid_argument : Bytes → LayoutError

abbrev pub Layout : Type 0 → Type 0
Layout A = Outcome LayoutError A

pub record LayoutPass : Type 0 where
  pub out : List Token
  pub region : Region
  pub outer : List Region
  pub prev_kind : TokenKind
  pub prev_closes_condition : Bool
  pub extension_header_line : Option ℕ

abbrev pub push_region : Region → LayoutPass → LayoutPass
push_region r s = record s { region = r; outer = s.region ∷ s.outer }

-- `regions_.pop_back()`; the code then reads `regions_.back()`.
unfoldable pub pop_onto : List Region → LayoutPass → Layout LayoutPass
pop_onto [] s = fault
pop_onto (r ∷ rs) s = ok (record s { region = r; outer = rs })

abbrev pub set_pending : List TokenKind → LayoutPass → LayoutPass
set_pending ps s = record s { region = record (s.region) { pending = ps } }

abbrev pub synth_token : TokenKind → Token → Token
synth_token k at = record default_token {
  kind = k;
  pos = at.pos;
  end = at.pos;
  line_indent = at.line_indent;
}

abbrev pub clear_at_newline : TokenKind → LayoutPass → LayoutPass
clear_at_newline newline s = set_pending [] s
clear_at_newline _ s = s

abbrev pub push_token : Token → LayoutPass → LayoutPass
push_token t s = record s { out = s.out ++ t ∷ [] }

unfoldable pub synth : TokenKind → Token → LayoutPass → LayoutPass
synth k at s = push_token (synth_token k at) (clear_at_newline k s)

-- `while (test(regions_.back())) { regions_.pop_back(); synth(Outdent, t); }`; the list is the
-- regions around the innermost one.
unfoldable pub outdent_while :
    (Region → Bool) → Token → List Region → LayoutPass → Layout LayoutPass
outdent_while test t [] s = if test s.region then fault else ok s
outdent_while test t (r ∷ rs) s =
    let popped = record s { region = r; outer = rs } in
    let rest = outdent_while test t rs (synth outdent t popped) in
    if test s.region then rest else ok s

-- What is left pending once the closer has met its partner.
abbrev pub leave_pending : TokenKind → List TokenKind → List TokenKind
leave_pending kw_then ps = kw_then ∷ ps
leave_pending kw_catch ps = kw_catch ∷ ps
leave_pending _ ps = ps

-- The pending partners after the closer has consumed the innermost that it closes.
unfoldable pub satisfy : TokenKind → List TokenKind → Option (List TokenKind)
satisfy closer [] = none
satisfy closer (p ∷ ps) =
    if closes_region_opened_by closer p then some (leave_pending closer ps) else satisfy closer ps

unfoldable pub satisfy_pending : TokenKind → LayoutPass → Option LayoutPass
satisfy_pending closer s = elim (satisfy closer s.region.pending) [
  | none ↦ none
  | some ps ↦ some (set_pending ps s)
]

abbrev pub or_same : Option LayoutPass → LayoutPass → LayoutPass
or_same none s = s
or_same (some s') s = s'

-- Pops the innermost region with an Outdent, and lets the keyword meet its partner outside.
unfoldable pub close_indented : Token → LayoutPass → Layout LayoutPass
unfolding pop_onto synth satisfy_pending
close_indented t s = do
  popped ← pop_onto s.outer s
  let outside = synth outdent t popped
  ok (or_same (satisfy_pending t.kind outside) outside)

unfoldable pub close_by_keyword : Token → LayoutPass → Layout LayoutPass
unfolding satisfy_pending close_indented region_kind_eq
close_by_keyword t s = elim (satisfy_pending t.kind s) [
  | some s' ↦ ok s'
  | none ↦
      if t.first_on_line
      then ok s
      else if is_indented s.region && closes_region_opened_by t.kind s.region.opener
      then close_indented t s
      else ok s
]

-- The keyword of an old-style condition that just closed now awaits the condition's partners.
abbrev pub closed_condition : List TokenKind → List TokenKind
closed_condition [] = []
closed_condition (p ∷ ps) = (if is_condition_keyword p then r_paren else p) ∷ ps

unfoldable pub condition_closed : LayoutPass → LayoutPass
condition_closed s = set_pending (closed_condition s.region.pending) s
