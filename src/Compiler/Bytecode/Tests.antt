-- ===== src/Compiler/Bytecode/Tests.antt =====
-- Concrete bodies of code, handler tables and pools.
use proto_scala.Common.{
  ℕ, ◌≡◌, ◌+◌, ◌*◌, ◌^◌, refl, false, List, [], ◌∷◌, ◌++◌, some, length, codes, arith,
}
use proto_scala.Compiler.Opcodes.{op_code, push_const, jump_back, store_local}
use proto_scala.Compiler.Bytecode.Code.{
  Code, emit_all, patch_jump_to, emit_jump_back, Instruction, decode, decoded_word, op_byte,
  backward_target,
}
use proto_scala.Compiler.Bytecode.Decoding.{emitted, contents, decode-emit_all}
use proto_scala.Compiler.Bytecode.Jumps.{Patched, patch_jump_to-Patched, emit_jump_back-lands}
use proto_scala.Frontend.Lexer.Cursor.{Cursor, scans}
use proto_scala.Frontend.Lexer.Quoted.{string_text}
use proto_scala.Compiler.Bytecode.Listing.{escape_body, escape_string, string_text-escape_body}
use proto_scala.Compiler.Bytecode.Handlers.{
  Handler, HandlerKind, catch, finally, patch_handler_body,
}
use proto_scala.Compiler.Bytecode.Frame.{Frame, no_default}
use proto_scala.Compiler.Bytecode.Pool.{
  Pool, const_of, int, double, char, string, symbol, find_or_add, add_int, add_double, add_char,
  add_string, add_symbol, int_key,
}
use proto_scala.Compiler.Bytecode.PoolLaws.{
  Added, IsPool, const_at, of_int, find_or_add-Added, literals-read_back,
}

-- One operand below and one above 24 bits.
abbrev two_words : List Instruction
two_words = (push_const, 5, 1) ∷ (store_local, 2 ^ 24 + 7, 2) ∷ []

abbrev three_code : Code
three_code = record {
  words = (5 * 256 + 2) ∷ (256 + 1) ∷ (7 * 256 + op_code store_local) ∷ [];
  lines = 1 ∷ 2 ∷ 2 ∷ [];
}

decode-emit_all_example :
    (contents (decode 0 three_code.words) ≡ emitted two_words)
    × (length three_code.lines ≡ length three_code.words)
unfolding emit_all op_code
decode-emit_all_example = decode-emit_all two_words three_code (λ e. cc, (λ e. cc, tt)) refl

abbrev jump_code : Code
jump_code = record { words = 23 ∷ 7 ∷ 8 ∷ []; lines = 1 ∷ 1 ∷ 2 ∷ [] }

abbrev patched_code : Code
patched_code = record { words = (2 * 256 + 23) ∷ 7 ∷ 8 ∷ []; lines = 1 ∷ 1 ∷ 2 ∷ [] }

patch_jump_to-Patched_example : Patched 0 3 jump_code patched_code
unfolding patch_jump_to
patch_jump_to-Patched_example = patch_jump_to-Patched 0 3 jump_code patched_code refl

abbrev looped : ℕ × Code
looped = (
  3,
  record { words = 23 ∷ 7 ∷ 8 ∷ (3 * 256 + op_code jump_back) ∷ []; lines = 1 ∷ 1 ∷ 2 ∷ 4 ∷ [] },
)

emit_jump_back-lands_example :
    (w : ℕ) × (looped.1.words ≡ jump_code.words ++ w ∷ [])
    × (looped.0 ≡ length jump_code.words)
    × (op_byte w ≡ op_code jump_back)
    × (backward_target (decoded_word looped.0 w 0) ≡ 1)
unfolding emit_jump_back op_code
emit_jump_back-lands_example =
    emit_jump_back-lands 1 4 jump_code looped (ground arith) (ground arith) refl

abbrev handler : ℕ → ℕ → ℕ → HandlerKind → Handler
handler start end pc kind = record {
  start_pc = start;
  end_pc = end;
  handler_pc = pc;
  stack_depth = 0;
  slot = 0;
  kind = kind;
}

-- A `try` with both entries in another `try`.
abbrev nested_tries : List Handler
nested_tries = handler 4 8 20 catch ∷ handler 4 8 30 finally ∷ handler 0 12 40 catch ∷ []

patched_handler :
    patch_handler_body 1 33 (handler 4 8 20 catch ∷ handler 4 8 0 finally ∷ [])
    ≡ some (handler 4 8 20 catch ∷ handler 4 8 33 finally ∷ [])
unfolding patch_handler_body
patched_handler = refl

abbrev two_params : Frame
two_params = record {
  arity = 2;
  param_names = codes "a" ∷ codes "b" ∷ [];
  default_blocks = no_default ∷ no_default ∷ [];
  has_defaults = false;
  min_arity = 2;
  slot_names = codes "a" ∷ [];
  slot_boxed = false ∷ [];
}

abbrev empty_pool : Pool
empty_pool = record { index = []; consts = [] }

abbrev pool_of_one : Pool
pool_of_one = record { index = (int_key 1, 0) ∷ []; consts = const_of int 1 0 [] ∷ [] }

abbrev pool_of_one-IsPool : IsPool pool_of_one
pool_of_one-IsPool = (record { const = const_of int 1 0 []; held = refl; builds = of_int }, tt)

find_or_add-Added_example :
    Added (int_key 2) pool_of_one (find_or_add (int_key 2) (const_of int 2 0 []) pool_of_one)
find_or_add-Added_example =
    find_or_add-Added (int_key 2) (const_of int 2 0 []) pool_of_one pool_of_one-IsPool of_int

literals-read_back_example :
    (const_at (add_int 1 pool_of_one) ≡ some (const_of int 1 0 []))
    × (const_at (add_double 1 pool_of_one) ≡ some (const_of double 0 1 []))
    × (const_at (add_char 1 pool_of_one) ≡ some (const_of char 1 0 []))
    × (const_at (add_string (codes "s") pool_of_one) ≡ some (const_of string 0 0 (codes "s")))
    × (const_at (add_symbol (codes "s") pool_of_one) ≡ some (const_of symbol 0 0 (codes "s")))
literals-read_back_example = literals-read_back pool_of_one 1 (codes "s") pool_of_one-IsPool

-- The body of a string with a quote and a newline in it, its closing quote, and a space.
abbrev escaped_ab : Cursor
escaped_ab = record { rest = 97 ∷ 92 ∷ 34 ∷ 92 ∷ 110 ∷ 34 ∷ 32 ∷ []; pos = 1; line = 1; column = 2 }

string_text-escape_body_example :
    (end : Cursor) × (string_text (record { line = 1; column = 1 }) escaped_ab
      ≡ some (scans (97 ∷ 34 ∷ 10 ∷ [], end)))
    × (end.rest ≡ 32 ∷ [])
unfolding escape_body
string_text-escape_body_example =
    string_text-escape_body (record { line = 1; column = 1 }) (97 ∷ 34 ∷ 10 ∷ []) (32 ∷ [])
      escaped_ab refl refl

escaped_text : escape_string (97 ∷ 34 ∷ 10 ∷ []) ≡ 34 ∷ 97 ∷ 92 ∷ 34 ∷ 92 ∷ 110 ∷ 34 ∷ []
unfolding escape_string
escaped_text = refl
