-- ===== src/Frontend/Layout/Pass.antt =====
-- frontend/Layout.cpp: `LayoutPass::run` and `applyLayout`. `n` is the raw token behind `t`; only
-- the last token has none, and it is an end of file or an error, which read no further.
use proto_scala.Common.{
  ℕ, Bool, true, false, ◌&&◌, ◌||◌, not, ◌==◌, if◌then◌else◌, List, [], ◌∷◌, ◌++◌, Option, none,
  some, Bytes, codes, bytes_eq, ok, err, fault, ◌>>=◌,
}
use proto_scala.Frontend.Token
use proto_scala.Frontend.Token.{
  TokenKind, Token, default_token, kind_eq, identifier, kw_for, kw_if, kw_try, kw_while, l_paren,
  r_paren, l_bracket, r_bracket, l_brace, r_brace, semicolon, colon, colon_eol, end_marker,
  end_of_file,
}
use proto_scala.Frontend.Layout.Rules.{is_end_designator, is_condition_keyword}
use proto_scala.Frontend.Layout.LineBreak.{lex_failure, line_break}
use proto_scala.Frontend.Layout.State.{
  RegionKind, top_level, braces, parens, brackets, region_kind_eq, Region, region_of, is_indented,
  invalid_argument, Layout, LayoutPass, push_region, pop_onto, push_token, set_pending,
  outdent_while, close_by_keyword, condition_closed,
}

unfoldable pub bracket_region : TokenKind → RegionKind
bracket_region r_paren = parens
bracket_region r_bracket = brackets
bracket_region _ = braces

-- Returns whether the closed bracket was an old-style condition.
unfoldable pub close_bracket : Token → LayoutPass → Layout (LayoutPass × Bool)
unfolding outdent_while region_kind_eq pop_onto bracket_region
close_bracket t s = do
  s' ← outdent_while is_indented t s.outer s
  if not (region_kind_eq s'.region.kind (bracket_region t.kind))
      then lex_failure (codes "unbalanced '" ++ (t.text ++ codes "'")) t.pos false
      else (pop_onto s'.outer s' >>= λ s''. ok (s'', s'.region.condition))

abbrev pub on_header_line : Option ℕ → ℕ → Bool
on_header_line none l = false
on_header_line (some h) l = l == h

-- A closing bracket, and the header of a collective extension.
unfoldable pub close : Token → Token → LayoutPass → Layout (LayoutPass × Bool)
unfolding close_bracket condition_closed
close t n s = do
  (s', condition) ← close_bracket t s
  let header =
      not condition && on_header_line s'.extension_header_line t.pos.line && n.first_on_line
  let s'' = if header then record s' { extension_header_line = none } else s'
  let closes = condition || header
  ok (if closes then condition_closed s'' else s'', closes)

abbrev pub brace_region : Token → Token → LayoutPass → Region
brace_region t n s =
    let same_line = not n.first_on_line in
    record (region_of braces (if same_line then t.line_indent else 0)) {
      width_known = same_line;
      condition = kind_eq s.prev_kind kw_for;
      provisional = same_line;
    }

abbrev pub begin_construct : TokenKind → LayoutPass → LayoutPass
begin_construct k s = set_pending (k ∷ s.region.pending) s

-- The `switch` of `run`, on the token's kind.
unfoldable pub dispatch : TokenKind → Token → Token → LayoutPass → Layout (LayoutPass × Bool)
unfolding close is_condition_keyword kind_eq
dispatch l_paren t n s =
    let condition = is_condition_keyword s.prev_kind in
    ok (push_region (record (region_of parens 0) { condition = condition }) s, false)
dispatch l_bracket t n s = ok (push_region (region_of brackets 0) s, false)
dispatch l_brace t n s = ok (push_region (brace_region t n s) s, false)
dispatch r_paren t n s = close t n s
dispatch r_bracket t n s = close t n s
dispatch r_brace t n s = close t n s
dispatch semicolon t n s = ok (set_pending [] s, false)
dispatch kw_if t n s = ok (begin_construct kw_if s, false)
dispatch kw_try t n s = ok (begin_construct kw_try s, false)
dispatch kw_while t n s = ok (begin_construct kw_while s, false)
dispatch kw_for t n s = ok (begin_construct kw_for s, false)
dispatch _ t n s = ok (s, false)

-- `extension` on a line of its own, with a `(` or `[` behind it.
unfoldable pub note_extension : Token → Token → LayoutPass → LayoutPass
unfolding kind_eq bytes_eq
note_extension t n s =
    if kind_eq t.kind identifier
      && t.first_on_line
      && not t.backquoted
      && bytes_eq t.text (codes "extension")
      && (kind_eq n.kind l_paren || kind_eq n.kind l_bracket)
    then record s { extension_header_line = some t.pos.line }
    else s

-- The token that is put out for `t`.
unfoldable pub laid_token : Token → Token → Token
unfolding kind_eq
laid_token t n = record t {
  kind = if kind_eq t.kind colon && n.first_on_line then colon_eol else t.kind;
}

unfoldable pub put_out : Token → Token → Bool → LayoutPass → LayoutPass
unfolding laid_token
put_out t n closes_condition s = record (push_token (laid_token t n) s) {
  prev_kind = (laid_token t n).kind;
  prev_closes_condition = closes_condition;
}

abbrev pub head_or : Token → List Token → Token
head_or d [] = d
head_or d (t ∷ ts) = t

abbrev pub marker_token : Token → Token → Token
marker_token t n = record t { kind = end_marker; text = n.text; end = n.end }

-- `end if`, alone on its line; `rest` is what stands behind `t` and `n`.
unfoldable pub try_end_marker : Token → Token → List Token → LayoutPass → Option LayoutPass
unfolding is_end_designator kind_eq
try_end_marker t n rest s =
    let after = head_or n rest in
    if n.first_on_line || not (is_end_designator n.kind)
    then none
    else if not (after.first_on_line || kind_eq after.kind end_of_file)
    then none
    else some (record (push_token (marker_token t n) s) {
      prev_kind = end_marker;
      prev_closes_condition = false;
    })

unfoldable pub place : Token → Token → LayoutPass → Layout LayoutPass
unfolding close_by_keyword dispatch note_extension put_out
place t n s = do
  s' ← close_by_keyword t s
  (s'', closes) ← dispatch t.kind t n s'
  ok (put_out t n closes (note_extension t n s''))

abbrev pub is_end_word : Token → Bool
is_end_word t = kind_eq t.kind identifier && bytes_eq t.text (codes "end") && t.first_on_line

-- An end marker skips its designator: the Boolean says so.
abbrev pub mark_or_place : Option LayoutPass → Layout LayoutPass → Layout (Bool × LayoutPass)
mark_or_place none placed = placed >>= λ s. ok (false, s)
mark_or_place (some s) placed = ok (true, s)

abbrev pub is_empty : List Token → Bool
is_empty [] = true
is_empty (t ∷ ts) = false

-- One round of the loop of `run` on a token that is neither an error nor the end.
unfoldable pub step : Token → Token → List Token → LayoutPass → Layout (Bool × LayoutPass)
unfolding line_break try_end_marker place kind_eq bytes_eq
step t n rest s = do
  s' ← (if t.first_on_line && not (is_empty s.out) then line_break t n s else ok s)
  mark_or_place (if is_end_word t then try_end_marker t n rest s' else none) (place t n s')

abbrev pub step_on : Token → List Token → LayoutPass → Layout (Bool × LayoutPass)
step_on t [] s = fault
step_on t (n ∷ rest) s = step t n rest s

unfoldable pub opener_name : RegionKind → Bytes
opener_name parens = codes "("
opener_name brackets = codes "["
opener_name braces = codes "{"
opener_name _ = codes "?"

abbrev pub finish_at : Token → List Region → LayoutPass → Layout (List Token)
finish_at t [] s = ok (s.out ++ t ∷ [])
finish_at t (r ∷ rs) s =
    lex_failure (codes "unclosed '" ++ (opener_name s.region.kind ++ codes "'")) t.pos true

-- At the end of the file: close the indented regions, and no other may be left open.
unfoldable pub finish : Token → LayoutPass → Layout (List Token)
unfolding outdent_while region_kind_eq opener_name
finish t s = do s' ← outdent_while is_indented t s.outer s; finish_at t s'.outer s'

-- The loop of `run`; the flag skips a token, the designator of an end marker.
unfoldable pub layout_loop : Bool → LayoutPass → List Token → Layout (List Token)
unfolding kind_eq finish step
layout_loop skip s [] = ok s.out
layout_loop true s (t ∷ rest) = layout_loop false s rest
layout_loop false s (t ∷ rest) =
    if kind_eq t.kind Token.error
    then lex_failure t.text t.pos t.error_at_eof
    else if kind_eq t.kind end_of_file
    then finish t s
    else (step_on t rest s >>= λ r. layout_loop r.0 r.1 rest)

abbrev pub initial_pass : Token → LayoutPass
initial_pass t = record {
  out = [];
  region = region_of top_level t.line_indent;
  outer = [];
  prev_kind = end_of_file;
  prev_closes_condition = false;
  extension_header_line = none;
}

unfoldable pub ends_input : TokenKind → Bool
unfolding kind_eq
ends_input k = kind_eq k end_of_file || kind_eq k Token.error

-- `raw.back()`
unfoldable pub last_token : Token → List Token → Token
last_token t [] = t
last_token t (u ∷ us) = last_token u us

unfoldable pub apply_layout : List Token → Layout (List Token)
unfolding layout_loop ends_input last_token
apply_layout [] = ok (record default_token { kind = end_of_file } ∷ [])
apply_layout (t ∷ ts) =
    if not (ends_input (last_token t ts).kind)
    then err (invalid_argument (codes "applyLayout: token vector must end with EndOfFile or Error"))
    else layout_loop false (initial_pass t) (t ∷ ts)
