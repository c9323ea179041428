-- ===== src/Frontend/Layout/LineBreak.antt =====
-- frontend/Layout.cpp: `isLeadingInfix` and `lineBreak`, on the first token of a line. `n` is the
-- raw token behind `t`.
use proto_scala.Common.{
  ℕ, Bool, true, false, ◌&&◌, ◌||◌, not, ltb, leb, ◌==◌, if◌then◌else◌, ◌++◌, Bytes, codes, Outcome,
  ok, err, ◌>>=◌,
}
use proto_scala.Frontend.Token.{
  TokenKind, Token, SourcePos, kind_eq, identifier, kw_then, kw_do, kw_yield, r_paren, newline,
  indent, end_of_file,
}
use proto_scala.Frontend.Layout.Rules.{
  can_end_statement, can_begin_statement, opens_region, continues_statement, is_closer,
  token_kind_spelling,
}
use proto_scala.Frontend.Layout.State.{
  top_level, braces, parens, brackets, indented, region_kind_eq, Region, region_of, is_indented,
  LayoutError, lex_error, Layout, LayoutPass, push_region, synth, outdent_while,
}

abbrev pub lex_failure {ℓ} : {A : Type ℓ} → Bytes → SourcePos → Bool → Outcome LayoutError A
lex_failure msg pos at_eof = err (lex_error msg pos at_eof)

-- An operator that continues the expression of the line before.
unfoldable pub is_leading_infix : Token → Token → Bool
unfolding kind_eq can_begin_statement is_closer
is_leading_infix t n =
    if not (kind_eq t.kind identifier) || not t.is_operator || t.backquoted
    then false
    else if t.past_blank_line
    then false
    else if kind_eq n.kind end_of_file || n.first_on_line
    then false
    else if leb n.pos.column t.end.column
    then false
    else can_begin_statement n.kind && not (is_closer n.kind)

-- The width of a brace region, settled by the first line break inside.
unfoldable pub settle_width : ℕ → Bool → LayoutPass → LayoutPass
unfolding region_kind_eq opens_region
settle_width w condition_opener s =
    if region_kind_eq s.region.kind braces && not s.region.width_known
    then record s { region = record (s.region) { width = w; width_known = true } }
    else if s.region.provisional
    then record s {
      region = record (s.region) {
        provisional = false;
        width =
            if ltb s.region.width w && not (opens_region s.prev_kind) && not condition_opener
            then w
            else s.region.width;
      };
    }
    else s

abbrev pub indented_region : ℕ → TokenKind → Region
indented_region w opener = record (region_of indented w) { opener = opener }

abbrev pub dedents : ℕ → Region → Bool
dedents w r = is_indented r && ltb w r.width

-- After the pops, the line must sit on a width that encloses it.
unfoldable pub settle_dedent : Bool → Token → Token → LayoutPass → Layout LayoutPass
unfolding region_kind_eq is_closer can_end_statement can_begin_statement is_leading_infix synth
settle_dedent popped t n s =
    let w = t.line_indent in
    let between = popped && is_indented s.region && ltb s.region.width w in
    let below_top = region_kind_eq s.region.kind top_level && not (w == s.region.width) in
    let width_ok =
      w == s.region.width || (region_kind_eq s.region.kind braces && ltb w s.region.width) in
    if (between || below_top) && not (is_closer t.kind)
    then lex_failure (codes "unindent does not match any outer indentation level") t.pos false
    else if width_ok
        && (popped || can_end_statement s.prev_kind)
        && can_begin_statement t.kind
        && not (is_leading_infix t n)
    then ok (synth newline t s)
    else ok s

unfoldable pub dedent : Token → Token → LayoutPass → Layout LayoutPass
unfolding continues_statement token_kind_spelling outdent_while settle_dedent region_kind_eq
dedent t n s =
    if continues_statement s.prev_kind
    then lex_failure
        (codes "the line after '"
          ++ (token_kind_spelling s.prev_kind
              ++ codes "' is indented less than its enclosing block"))
        t.pos false
    else do
      s' ← outdent_while (dedents t.line_indent) t s.outer s
      settle_dedent (dedents t.line_indent s.region) t n s'

-- The same width as the region's, or a deeper continuation line.
unfoldable pub continue_line : Token → Token → LayoutPass → LayoutPass
unfolding can_end_statement can_begin_statement is_leading_infix synth
continue_line t n s =
    let w = t.line_indent in
    if w == s.region.width
      && can_end_statement s.prev_kind
      && can_begin_statement t.kind
      && not (is_leading_infix t n)
    then synth newline t s
    else if ltb s.region.width w
        && t.past_blank_line
        && can_end_statement s.prev_kind
        && can_begin_statement t.kind
    then synth newline t s
    else s

unfoldable pub open_indented : Bool → Token → LayoutPass → LayoutPass
unfolding synth
open_indented condition_opener t s =
    let opener = if condition_opener then r_paren else s.prev_kind in
    synth indent t (push_region (indented_region t.line_indent opener) s)

-- `lineBreak`, inside a region that has layout.
unfoldable pub break_line : Bool → Token → Token → LayoutPass → Layout LayoutPass
unfolding opens_region open_indented dedent continue_line
break_line condition_opener t n s =
    if (opens_region s.prev_kind || condition_opener) && ltb s.region.width t.line_indent
    then ok (open_indented condition_opener t s)
    else if ltb t.line_indent s.region.width
    then dedent t n s
    else ok (continue_line t n s)

abbrev pub is_condition_opener : Token → LayoutPass → Bool
is_condition_opener t s =
    s.prev_closes_condition
    && not (kind_eq t.kind kw_then)
    && not (kind_eq t.kind kw_do)
    && not (kind_eq t.kind kw_yield)

unfoldable pub line_break : Token → Token → LayoutPass → Layout LayoutPass
unfolding region_kind_eq kind_eq settle_width break_line
line_break t n s =
    if region_kind_eq s.region.kind parens || region_kind_eq s.region.kind brackets
    then ok s
    else let condition_opener = is_condition_opener t s in
      break_line condition_opener t n (settle_width t.line_indent condition_opener s)
