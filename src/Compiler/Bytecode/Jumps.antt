-- ===== src/Compiler/Bytecode/Jumps.antt =====
-- compiler/BytecodeModule.cpp: where jumps land.
use proto_scala.Common.{
  ℕ, ◌+◌, ◌-◌, ◌*◌, ◌%◌, ◌^◌, ◌<◌, ◌≤◌, ◌≡◌, ◌≢◌, refl, false, ltb, leb, ◌||◌, Bool-cases, inl, inr,
  [], ◌∷◌, ◌++◌, Option, none, some, length, length-append, get_elem?, length-set,
  get_elem?-set_self, get_elem?-set_ne, ok, ok-injective, arith,
}
use proto_scala.Compiler.Opcodes.{op_code, op_code-lt, jump_back, max_operand, max_extended_operand}
use proto_scala.Compiler.Bytecode.Code.{
  Code, instr, op_byte, patch_word, patch_jump_to, back_offset, emit_jump_back, decoded_word,
  forward_target, backward_target,
}

-- The code before and after a jump was patched.
pub record Patched (at target : ℕ) (c c' : Code) : Type 0 where
  pub old : ℕ
  pub fetched : get_elem? c.words at ≡ some old
  pub new : ℕ
  pub stored : get_elem? c'.words at ≡ some new
  pub same_byte : op_byte new ≡ op_byte old
  pub lands : forward_target (decoded_word at new 0) ≡ target
  pub others : (i : ℕ) → at ≢ i → get_elem? c'.words i ≡ get_elem? c.words i
  pub same_length : length c'.words ≡ length c.words
  pub same_lines : c'.lines ≡ c.lines

fits_bound : (n : ℕ) → ltb max_operand n ≡ false → n ≤ max_operand
fits_bound n h = ground arith

patch_word-Patched :
    (at target : ℕ) (o : Option ℕ) (c c' : Code)
    → at < target
    → get_elem? c.words at ≡ o
    → patch_word at target (target - (at + 1)) o c ≡ ok c'
    → Patched at target c c'
patch_word-Patched at target none c c' lt e h = cc
patch_word-Patched at target (some w) c c' lt e h =
    elim (Bool-cases (ltb max_operand (target - (at + 1)))) [
      | inl big ↦ cc (rw big at h)
      | inr fits ↦
          let p = ok-injective (rw fits at h) in
          let bound = fits_bound (target - (at + 1)) fits in
          record {
            old = w;
            fetched = e;
            new = ((target - (at + 1)) * 2 ^ 8) % 2 ^ 32 + op_byte w;
            stored = rw (← p) (get_elem?-set_self c.words at _ e);
            same_byte = omega arith;
            lands = omega arith;
            others = λ i ne. rw (← p) (get_elem?-set_ne c.words at i _ ne);
            same_length = rw (← p) (length-set c.words at _);
            same_lines = rw (← p);
          }
    ]

-- Whatever `patchJumpTo` accepts, the jump then lands on the target and keeps its opcode; no other
-- word is changed, nor the length of the code, nor its lines.
pub patch_jump_to-Patched :
    (at target : ℕ) (c c' : Code) → patch_jump_to at target c ≡ ok c' → Patched at target c c'
unfolding patch_jump_to
patch_jump_to-Patched at target c c' h =
    elim (Bool-cases (leb (length c.words) at || leb target at)) [
      | inl bad ↦ cc (rw bad at h)
      | inr good ↦
          patch_word-Patched at target (get_elem? c.words at) c c' (ground arith) refl
            (rw good at h)
    ]

ltb-false : (a b : ℕ) → b ≤ a → ltb a b ≡ false
ltb-false a b h = ground arith

-- In code of fewer than 2 ^ 63 words, a backward jump that is emitted to a position of the code is one
-- word, at the end of the code, that lands there.
pub emit_jump_back-lands :
    (target line : ℕ) (c : Code) (r : ℕ × Code)
    → target ≤ length c.words
    → length c.words < 2 ^ 63
    → emit_jump_back target line c ≡ ok r
    → (w : ℕ) × (r.1.words ≡ c.words ++ w ∷ [])
      × (r.0 ≡ length c.words)
      × (op_byte w ≡ op_code jump_back)
      × (backward_target (decoded_word r.0 w 0) ≡ target)
unfolding emit_jump_back
emit_jump_back-lands target line c r le small h =
    elim (Bool-cases (ltb max_operand (back_offset (length c.words) target))) [
      | inl big ↦ cc (rw big at h)
      | inr fits ↦
          let offset = back_offset (length c.words) target in
          let bound = fits_bound offset fits in
          let wide = ltb-false max_extended_operand offset (omega arith) in
          let p = ok-injective (rw (fits, wide) at h) in
          let size = length-append c.words (instr jump_back offset ∷ []) in
          (
            instr jump_back offset,
            rw (← p),
            rw (← p) (omega (arith, size)),
            omega (arith, op_code-lt jump_back),
            rw (← p) (omega (arith, size, op_code-lt jump_back)),
          )
    ]
