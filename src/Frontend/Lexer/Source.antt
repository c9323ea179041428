-- ===== src/Frontend/Lexer/Source.antt =====
-- frontend/Lexer.cpp, `tokenizeAll`, and `tokenize` of frontend/Layout.cpp: every source has its
-- tokens, they lie in it in order, and each says where it stands.
use proto_scala.Common.{
  ℕ, suc, ◌≡◌, ◌≢◌, refl, sym, subst, true, false, ◌||◌, if-holds, List, [], ◌∷◌, ◌++◌, some,
  length, All, All-append, Gives, gives, Gives-bind, Gives-map, Turn, Turn-bind, goes_on, ends,
  loop-Gives, Bytes, begins_with, ok, fault, arith,
}
use proto_scala.Frontend.Token.{TokenKind, Token, kind_eq, end_of_file, error}
use proto_scala.Frontend.Lexer.Cursor.{Cursor, start_of}
use proto_scala.Frontend.Lexer.State.{Lexer, without_bom, initial_lexer}
use proto_scala.Frontend.Lexer.Next.{is_last, tokens_turn, tokens_body, tokenize_all, tokenize}
use proto_scala.Frontend.Lexer.Progress.{Onward, stays, Onward-trans, Onward-Further}
use proto_scala.Frontend.Lexer.Lexed.{is_ordinary, Lexed}
use proto_scala.Frontend.Layout.State.{top_level}
use proto_scala.Frontend.Layout.Nesting.{is_layout_kind, IsRaw, run_nest}
use proto_scala.Frontend.Layout.Correct.{apply_layout-ne-fault, apply_layout-nested}
use proto_scala.Frontend.Lexer.NextLaws.{Nexts, last_token, a_token, next-Gives, ordinary-ne-last}
use proto_scala.Frontend.Lexer.Places.{StandsIn, Lexed-StandsIn}

-- Tokens from a cursor on, one behind the other, and the cursor behind them.
pub data Tokens (first : Cursor) : List Token → Cursor → Type 0 where
  no_token : Tokens first [] first
  then_token :
      {ts : List Token} {c d : Cursor} {t : Token} (start : Cursor)
      → Tokens first ts c
      → Onward c start
      → Lexed start (t, d)
      → Tokens first (ts ++ t ∷ []) d

-- All tokens of a source: ordinary ones in their order, then the end or an error.
pub record AllTokens (first : Cursor) (out : List Token) : Type 0 where
  pub tokens : List Token
  pub final : Token
  pub last_cursor : Cursor
  pub split : out ≡ tokens ++ final ∷ []
  pub in_order : Tokens first tokens last_cursor
  pub ends_input : is_last final ≡ true

abbrev Reading : Cursor → List Token × Lexer → Type 0
Reading first (out, lx) = Tokens first out lx.cursor × (lx.done ≡ false)

tokens_turn-Turn :
    (first : Cursor) (out : List Token) (lx : Lexer) (r : Token × Lexer)
    → Tokens first out lx.cursor
    → Nexts lx r
    → Turn
        (Reading first)
        (λ s. length s.1.cursor.rest)
        (length lx.cursor.rest)
        (AllTokens first)
        (some (tokens_turn out r))
unfolding kind_eq
tokens_turn-Turn first out lx r ts (last_token {t = t} last) = rw last (
    ends (record {
      tokens = out;
      final = t;
      last_cursor = lx.cursor;
      split = refl;
      in_order = ts;
      ends_input = last;
    }))
tokens_turn-Turn first out lx r ts (a_token {t = t} start o l d) =
    rw (ordinary-ne-last t.kind l.ordinary)
      (goes_on (then_token start ts o l, d) (Onward-Further o l.further).shorter)

-- The lexer ends for every source, with tokens that stand in it one behind the other, and a last
-- one that is the end or an error.
pub tokenize_all-AllTokens :
    (strtod : Bytes → ℕ) (source : Bytes)
    → Gives (AllTokens (initial_lexer source).cursor) (tokenize_all strtod source)
unfolding tokenize_all
tokenize_all-AllTokens strtod source =
    let lx = initial_lexer source in
    loop-Gives (Reading lx.cursor) (λ s. length s.1.cursor.rest) (AllTokens lx.cursor)
      (tokens_body strtod)
      (λ s i.
        Turn-bind (next-Gives strtod s.1 i.1) (λ r n. tokens_turn-Turn lx.cursor s.0 s.1 r i.0 n))
      (suc (length lx.cursor.rest)) ([], lx) (ground arith) (no_token, refl)

-- The tokens, each at its place in a source that `first` is at the beginning of.
Tokens-StandsIn :
    {first : Cursor} {ts : List Token} {c : Cursor}
    → start_of first ≡ record { line = 1; column = 1 }
    → Tokens first ts c
    → Onward first c × All (StandsIn first.rest) ts
Tokens-StandsIn one no_token = (stays, tt)
Tokens-StandsIn {first = first} one (then_token {ts = ts} {d = d} {t = t} start p o l) =
    let (q, all) = Tokens-StandsIn one p in
    let r = Onward-trans q o in
    (
      Onward-trans r l.further.onward,
      All-append (StandsIn first.rest) ts (t ∷ []) all (Lexed-StandsIn first start t d one r l, tt),
    )

initial-start :
    (source : Bytes) → start_of (initial_lexer source).cursor ≡ record { line = 1; column = 1 }
unfolding initial_lexer
initial-start source =
    if-holds (λ (c : Cursor). start_of c ≡ record { line = 1; column = 1 })
      (begins_with (35 ∷ 33 ∷ []) (without_bom source)) (λ e. refl) (λ e. refl)

-- What is read of a source: all but a byte-order mark and an interpreter line.
abbrev pub text_of : Bytes → Bytes
text_of source = (initial_lexer source).cursor.rest

pub tokenize_all-StandsIn :
    (strtod : Bytes → ℕ) (source : Bytes)
    → Gives
        (λ out.
          (ts : List Token) × (final : Token) × (out ≡ ts ++ final ∷ [])
          × All (StandsIn (text_of source)) ts
          × (is_last final ≡ true))
        (tokenize_all strtod source)
tokenize_all-StandsIn strtod source = Gives-map (tokenize_all-AllTokens strtod source) (λ out a. (
  a.tokens,
  a.final,
  a.split,
  (Tokens-StandsIn (initial-start source) a.in_order).1,
  a.ends_input,
))

ordinary-IsRaw : (k : TokenKind) → is_ordinary k ≡ true → is_layout_kind k ≡ false
unfolding is_ordinary is_layout_kind
ordinary-IsRaw k h = ground arith

last-IsRaw :
    (k : TokenKind) → (kind_eq k end_of_file || kind_eq k error) ≡ true → is_layout_kind k ≡ false
unfolding kind_eq is_layout_kind
last-IsRaw k h = ground arith

Tokens-IsRaw : {first : Cursor} {ts : List Token} {c : Cursor} → Tokens first ts c → All IsRaw ts
Tokens-IsRaw no_token = tt
Tokens-IsRaw (then_token {ts = ts} {t = t} start p o l) =
    All-append IsRaw ts (t ∷ []) (Tokens-IsRaw p) (ordinary-IsRaw t.kind l.ordinary, tt)

tokenize_all-IsRaw :
    (strtod : Bytes → ℕ) (source : Bytes) → Gives (All IsRaw) (tokenize_all strtod source)
tokenize_all-IsRaw strtod source = Gives-map (tokenize_all-AllTokens strtod source) (λ out a.
    subst (All IsRaw) (sym a.split) (
      All-append IsRaw a.tokens (a.final ∷ []) (Tokens-IsRaw a.in_order)
        (last-IsRaw a.final.kind a.ends_input, tt)))

-- Every source is tokenized: the lexer ends, and the layout ends with tokens whose brackets,
-- braces, Indents and Outdents are properly nested and all closed, or with an error.
pub tokenize-nested :
    (strtod : Bytes → ℕ) (source : Bytes)
    → Gives
        (λ r.
          (r ≢ fault)
          × ((out : List Token)
              → r ≡ ok out
              → run_nest (top_level ∷ []) out ≡ some (top_level ∷ [])))
        (tokenize strtod source)
unfolding tokenize
tokenize-nested strtod source =
    Gives-bind (tokenize_all-IsRaw strtod source)
      (λ raw h. gives (apply_layout-ne-fault raw h, λ out e. apply_layout-nested raw h e))
