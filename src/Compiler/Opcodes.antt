-- ===== src/Compiler/Opcodes.antt =====
-- compiler/Opcodes.h and `opName` (compiler/BytecodeModule.cpp): the instruction set.
use proto_scala.Common.{
  ℕ, ◌≡◌, ◌<◌, ◌^◌, ◌-◌, refl, ◌==◌, if◌then◌else◌, List, [], ◌∷◌, Option, none, some, Bytes, codes,
  arith,
}

pub data Op : Type 0 where
  extend push_const push_unit push_null push_true push_false pop dup push_local store_local : Op
  make_cell push_cell store_cell push_global store_global make_fn call call_spread send : Op
  return make_lazy force jump jump_if_false jump_if_true jump_back add sub mul lt le gt ge : Op
  eq ne neg not force_thunk concat make_class new invoke_init store_field set_field : Op
  send_super test_type test_proto unapply_fields uncons match_error cast_fail make_tuple : Op
  send_kw new_spread send_apply call_kw store_field_if_new store_fields_if_new throw rethrow : Op

-- The byte of an opcode.
unfoldable pub op_code : Op → ℕ
op_code extend = 1
op_code push_const = 2
op_code push_unit = 3
op_code push_null = 4
op_code push_true = 5
op_code push_false = 6
op_code pop = 7
op_code dup = 8
op_code push_local = 9
op_code store_local = 10
op_code make_cell = 11
op_code push_cell = 12
op_code store_cell = 13
op_code push_global = 14
op_code store_global = 15
op_code make_fn = 16
op_code call = 17
op_code call_spread = 18
op_code send = 19
op_code return = 20
op_code make_lazy = 21
op_code force = 22
op_code jump = 23
op_code jump_if_false = 24
op_code jump_if_true = 25
op_code jump_back = 26
op_code add = 27
op_code sub = 28
op_code mul = 29
op_code lt = 30
op_code le = 31
op_code gt = 32
op_code ge = 33
op_code eq = 34
op_code ne = 35
op_code neg = 36
op_code not = 37
op_code force_thunk = 38
op_code concat = 39
op_code make_class = 64
op_code new = 65
op_code invoke_init = 66
op_code store_field = 67
op_code set_field = 68
op_code send_super = 69
op_code test_type = 70
op_code test_proto = 71
op_code unapply_fields = 72
op_code uncons = 73
op_code match_error = 74
op_code cast_fail = 75
op_code make_tuple = 76
op_code send_kw = 77
op_code new_spread = 78
op_code send_apply = 79
op_code call_kw = 80
op_code store_field_if_new = 81
op_code store_fields_if_new = 82
op_code throw = 96
op_code rethrow = 97

unfoldable pub op_name : Op → Bytes
op_name extend = codes "EXTEND"
op_name push_const = codes "PUSH_CONST"
op_name push_unit = codes "PUSH_UNIT"
op_name push_null = codes "PUSH_NULL"
op_name push_true = codes "PUSH_TRUE"
op_name push_false = codes "PUSH_FALSE"
op_name pop = codes "POP"
op_name dup = codes "DUP"
op_name push_local = codes "PUSH_LOCAL"
op_name store_local = codes "STORE_LOCAL"
op_name make_cell = codes "MAKE_CELL"
op_name push_cell = codes "PUSH_CELL"
op_name store_cell = codes "STORE_CELL"
op_name push_global = codes "PUSH_GLOBAL"
op_name store_global = codes "STORE_GLOBAL"
op_name make_fn = codes "MAKE_FN"
op_name call = codes "CALL"
op_name call_spread = codes "CALL_SPREAD"
op_name send = codes "SEND"
op_name return = codes "RETURN"
op_name make_lazy = codes "MAKE_LAZY"
op_name force = codes "FORCE"
op_name jump = codes "JUMP"
op_name jump_if_false = codes "JUMP_IF_FALSE"
op_name jump_if_true = codes "JUMP_IF_TRUE"
op_name jump_back = codes "JUMP_BACK"
op_name add = codes "ADD"
op_name sub = codes "SUB"
op_name mul = codes "MUL"
op_name lt = codes "LT"
op_name le = codes "LE"
op_name gt = codes "GT"
op_name ge = codes "GE"
op_name eq = codes "EQ"
op_name ne = codes "NE"
op_name neg = codes "NEG"
op_name not = codes "NOT"
op_name force_thunk = codes "FORCE_THUNK"
op_name concat = codes "CONCAT"
op_name make_class = codes "MAKE_CLASS"
op_name new = codes "NEW"
op_name invoke_init = codes "INVOKE_INIT"
op_name store_field = codes "STORE_FIELD"
op_name set_field = codes "SET_FIELD"
op_name send_super = codes "SEND_SUPER"
op_name test_type = codes "TEST_TYPE"
op_name test_proto = codes "TEST_PROTO"
op_name unapply_fields = codes "UNAPPLY_FIELDS"
op_name uncons = codes "UNCONS"
op_name match_error = codes "MATCH_ERROR"
op_name cast_fail = codes "CAST_FAIL"
op_name make_tuple = codes "MAKE_TUPLE"
op_name send_kw = codes "SEND_KW"
op_name new_spread = codes "NEW_SPREAD"
op_name send_apply = codes "SEND_APPLY"
op_name call_kw = codes "CALL_KW"
op_name store_field_if_new = codes "STORE_FIELD_IF_NEW"
op_name store_fields_if_new = codes "STORE_FIELDS_IF_NEW"
op_name throw = codes "THROW"
op_name rethrow = codes "RETHROW"

abbrev pub all_ops : List Op
all_ops =
    extend ∷ push_const ∷ push_unit ∷ push_null ∷ push_true ∷ push_false ∷ pop ∷ dup ∷ push_local
    ∷ store_local ∷ make_cell ∷ push_cell ∷ store_cell ∷ push_global ∷ store_global ∷ make_fn ∷ call
    ∷ call_spread ∷ send ∷ return ∷ make_lazy ∷ force ∷ jump ∷ jump_if_false ∷ jump_if_true
    ∷ jump_back ∷ add ∷ sub ∷ mul ∷ lt ∷ le ∷ gt ∷ ge ∷ eq ∷ ne ∷ neg ∷ not ∷ force_thunk ∷ concat
    ∷ make_class ∷ new ∷ invoke_init ∷ store_field ∷ set_field ∷ send_super ∷ test_type ∷ test_proto
    ∷ unapply_fields ∷ uncons ∷ match_error ∷ cast_fail ∷ make_tuple ∷ send_kw ∷ new_spread
    ∷ send_apply ∷ call_kw ∷ store_field_if_new ∷ store_fields_if_new ∷ throw ∷ rethrow ∷ []

-- The words of the code: an opcode in 8 bits, an operand in 24.
abbrev pub max_operand : ℕ
max_operand = 2 ^ 24 - 1

abbrev pub max_extended_operand : ℕ
max_extended_operand = 2 ^ 48 - 1

pub op_code-lt : (op : Op) → op_code op < 256
unfolding op_code
op_code-lt extend = omega arith
op_code-lt _ = omega arith

-- The first opcode with a given byte.
op_with : List Op → ℕ → Option Op
unfolding op_code
op_with [] c = none
op_with (o ∷ os) c = if op_code o == c then some o else op_with os c

op_with-op_code : (op : Op) → op_with all_ops (op_code op) ≡ some op
unfolding op_with
op_with-op_code extend = refl
op_with-op_code _ = refl

pub op_code-injective : (a b : Op) → op_code a ≡ op_code b → a ≡ b
op_code-injective a b h = cc (op_with-op_code a, op_with-op_code b, h)
