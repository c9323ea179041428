-- ===== src/Compiler/Bytecode/Code.antt =====
-- compiler/BytecodeModule.cpp: the code words and their lines, `emit` and the jumps, and the loop
-- of `disassemble` that reads the words back.
use proto_scala.Common.{
  ℕ, ◌+◌, ◌-◌, ◌*◌, ◌/◌, ◌%◌, ◌^◌, ◌||◌, ltb, leb, ◌==◌, if◌then◌else◌, List, [], ◌∷◌, ◌++◌, Option,
  none, some, length, get_elem?, set, Outcome, ok, err, ◌>>=◌,
}
use proto_scala.Compiler.Opcodes.{Op, op_code, extend, jump_back, max_operand, max_extended_operand}

pub record Code : Type 0 where
  pub words : List ℕ
  pub lines : List ℕ

-- `std::length_error` and `std::out_of_range`
pub data CodeError : Type 0 where
  operand_too_large : Op → ℕ → CodeError
  body_too_large : CodeError
  bad_jump : CodeError

-- `(operand << 8) | op`, in 32 bits; the operand's low 8 bits are free after the shift.
abbrev pub instr : Op → ℕ → ℕ
instr op operand = (operand * 2 ^ 8) % 2 ^ 32 + op_code op

abbrev pub push_word : ℕ → ℕ → Code → Code
push_word w line c = record { words = c.words ++ w ∷ []; lines = c.lines ++ line ∷ [] }

-- The prefix carries bits 24 to 47 of the operand.
unfoldable pub push_prefix : ℕ → ℕ → Code → Code
push_prefix operand line c =
    if ltb max_operand operand then push_word (instr extend (operand / 2 ^ 24)) line c else c

-- The position of the `op` word, and the code with it.
unfoldable pub emit : Op → ℕ → ℕ → Code → Outcome CodeError (ℕ × Code)
unfolding push_prefix
emit op operand line c =
    if ltb max_extended_operand operand
    then err (operand_too_large op operand)
    else let low = if ltb max_operand operand then operand % 2 ^ 24 else operand in
      let c' = push_word (instr op low) line (push_prefix operand line c) in
      ok (length c'.words - 1, c')

unfoldable pub emit_jump : Op → ℕ → Code → Outcome CodeError (ℕ × Code)
unfolding emit
emit_jump op line c = emit op 0 line c

-- The opcode byte of a word.
abbrev pub op_byte : ℕ → ℕ
op_byte w = w % 256

abbrev pub patch_word : ℕ → ℕ → ℕ → Option ℕ → Code → Outcome CodeError Code
patch_word at target offset none c = err bad_jump
patch_word at target offset (some w) c =
    if ltb max_operand offset
    then err body_too_large
    else ok (record c { words = set c.words at ((offset * 2 ^ 8) % 2 ^ 32 + op_byte w) })

unfoldable pub patch_jump_to : ℕ → ℕ → Code → Outcome CodeError Code
patch_jump_to at target c =
    if leb (length c.words) at || leb target at
    then err bad_jump
    else patch_word at target (target - (at + 1)) (get_elem? c.words at) c

-- `(code_.size() + 1) - target`, a `std::size_t`.
abbrev pub back_offset : ℕ → ℕ → ℕ
back_offset size target = (size + 1 + 2 ^ 64 - target) % 2 ^ 64

unfoldable pub emit_jump_back : ℕ → ℕ → Code → Outcome CodeError (ℕ × Code)
unfolding emit
emit_jump_back target line c =
    let offset = back_offset (length c.words) target in
    if ltb max_operand offset then err body_too_large else emit jump_back offset line c

-- An instruction as the decoder reports it: where its `op` word is, the byte and the operand.
pub record Decoded : Type 0 where
  pub pc : ℕ
  pub byte : ℕ
  pub operand : ℕ

abbrev pub decoded_word : ℕ → ℕ → ℕ → Decoded
decoded_word pc w high = record { pc = pc; byte = op_byte w; operand = high * 2 ^ 24 + w / 2 ^ 8 }

-- The loop of `disassemble`; a prefix as the last word ends it.
unfoldable pub decode : ℕ → List ℕ → List Decoded
unfolding op_code
decode pc [] = []
decode pc (w ∷ []) = if op_byte w == op_code extend then [] else decoded_word pc w 0 ∷ []
decode pc (w ∷ (v ∷ ws)) =
    let extended = decoded_word (pc + 1) v (w / 2 ^ 8) ∷ decode (pc + 2) ws in
    let plain = decoded_word pc w 0 ∷ decode (pc + 1) (v ∷ ws) in
    if op_byte w == op_code extend then extended else plain

-- The listing's `-> target` of a jump at `pc`.
abbrev pub forward_target : Decoded → ℕ
forward_target d = d.pc + 1 + d.operand

abbrev pub backward_target : Decoded → ℕ
backward_target d = d.pc + 1 - d.operand

abbrev pub Instruction : Type 0
Instruction = Op × ℕ × ℕ

-- Instructions emitted one after another, each with its operand and its line.
unfoldable pub emit_all : List Instruction → Code → Outcome CodeError Code
unfolding emit
emit_all [] c = ok c
emit_all ((op, operand, line) ∷ is) c = emit op operand line c >>= λ r. emit_all is r.1
