-- ===== src/Compiler/Bytecode/Decoding.antt =====
-- compiler/BytecodeModule.cpp: what is emitted is what the decoder reads.
use proto_scala.Common.{
  ℕ, ◌+◌, ◌-◌, ◌/◌, ◌%◌, ◌^◌, ◌<◌, ◌≤◌, ◌≡◌, ◌≢◌, refl, sym, ap, ◌∙◌, false, ltb, if◌then◌else◌,
  Bool-cases, inl, inr, List, [], ◌∷◌, ◌++◌, length, length-append, Outcome, ok, err, fault,
  bind-eq-ok, ok-injective, arith, append-nil, append_assoc,
}
use proto_scala.Compiler.Opcodes.{
  Op, op_code, op_code-lt, op_code-injective, extend, max_operand, max_extended_operand,
}
use proto_scala.Compiler.Bytecode.Code.{
  Code, operand_too_large, instr, op_byte, emit, Decoded, decoded_word, decode, Instruction,
  emit_all,
}

-- The words of one instruction.
words_of : Op → ℕ → List ℕ
words_of op operand =
    if ltb max_operand operand
    then instr extend (operand / 2 ^ 24) ∷ instr op (operand % 2 ^ 24) ∷ []
    else instr op operand ∷ []

emit-words_of :
    (op : Op) (operand line : ℕ) (c : Code) (r : ℕ × Code)
    → emit op operand line c ≡ ok r
    → (r.1.words ≡ c.words ++ words_of op operand)
      × (r.0 ≡ length r.1.words - 1)
      × (operand ≤ max_extended_operand)
      × (length r.1.lines ≡ length c.lines + length (words_of op operand))
unfolding emit words_of
emit-words_of op operand line c r h = elim (Bool-cases (ltb max_extended_operand operand)) [
  | inl e ↦ cc (rw e at h)
  | inr e ↦ elim (Bool-cases (ltb max_operand operand)) [
    | inl long ↦
        let p = ok-injective (rw (e, long) at h) in
        rw (← p, long)
          (
            append_assoc c.words (_ ∷ []) (_ ∷ []),
            refl,
            ground arith,
            omega (
              arith,
              length-append (c.lines ++ line ∷ []) (line ∷ []),
              length-append c.lines (line ∷ []),
            ),
          )
    | inr short ↦
        let p = ok-injective (rw (e, short) at h) in
        rw (← p, short) (refl, refl, ground arith, omega (arith, length-append c.lines (line ∷ [])))
  ]
]

decode_plain :
    (pc w : ℕ) (ws : List ℕ)
    → op_byte w ≢ op_code extend
    → decode pc (w ∷ ws) ≡ decoded_word pc w 0 ∷ decode (pc + 1) ws
unfolding decode
decode_plain pc w [] h = ground arith
decode_plain pc w (v ∷ ws) h = ground arith

decode_extended :
    (pc w v : ℕ) (ws : List ℕ)
    → op_byte w ≡ op_code extend
    → decode pc (w ∷ (v ∷ ws)) ≡ decoded_word (pc + 1) v (w / 2 ^ 8) ∷ decode (pc + 2) ws
unfolding decode
decode_extended pc w v ws h = ground arith

instr_parts :
    (op : Op) (operand : ℕ)
    → operand ≤ max_operand
    → (op_byte (instr op operand) ≡ op_code op) × (instr op operand / 2 ^ 8 ≡ operand)
instr_parts op operand h = omega (arith, op_code-lt op)

Decoded-eq :
    (d : Decoded) (pc byte operand : ℕ)
    → d.pc ≡ pc
    → d.byte ≡ byte
    → d.operand ≡ operand
    → d ≡ record { pc = pc; byte = byte; operand = operand }
Decoded-eq d pc byte operand p q r = λ i. record { pc = p i; byte = q i; operand = r i }

leb_of_ltb : (a b : ℕ) → ltb a b ≡ false → b ≤ a
leb_of_ltb a b h = ground arith

decode-words_of :
    (op : Op) (operand pc : ℕ) (rest : List ℕ)
    → op ≢ extend
    → operand ≤ max_extended_operand
    → decode pc (words_of op operand ++ rest)
      ≡ (record {
        pc = pc + length (words_of op operand) - 1;
        byte = op_code op;
        operand = operand;
      })
        ∷ decode (pc + length (words_of op operand)) rest
unfolding words_of
decode-words_of op operand pc rest ne h = elim (Bool-cases (ltb max_operand operand)) [
  | inl long ↦
      let hi = instr_parts extend (operand / 2 ^ 24) (omega arith) in
      let lo = instr_parts op (operand % 2 ^ 24) (omega arith) in
      rw long (
        decode_extended pc _ _ rest hi.0
        ∙ ap (λ d. d ∷ decode (pc + 2) rest)
            (Decoded-eq _ _ _ _ (omega arith) lo.0 (omega (arith, hi.1, lo.1))))
  | inr short ↦
      let bound = leb_of_ltb max_operand operand short in
      let lo = instr_parts op operand bound in
      rw short (
        decode_plain pc _ rest (λ e. ne (op_code-injective op extend (sym lo.0 ∙ e)))
        ∙ ap (λ d. d ∷ decode (pc + 1) rest)
            (Decoded-eq _ _ _ _ (omega arith) lo.0 (omega (arith, lo.1))))
]

-- The words of a list of instructions.
words_of_all : List Instruction → List ℕ
unfolding words_of
words_of_all [] = []
words_of_all ((op, operand, line) ∷ is) = words_of op operand ++ words_of_all is

-- No instruction is the prefix.
abbrev pub NoPrefix : List Instruction → Type 0
NoPrefix [] = Unit
NoPrefix ((op, operand, line) ∷ is) = (op ≢ extend) × NoPrefix is

-- The byte and the operand of each instruction.
abbrev pub emitted : List Instruction → List (ℕ × ℕ)
emitted [] = []
emitted ((op, operand, line) ∷ is) = (op_code op, operand) ∷ emitted is

abbrev pub contents : List Decoded → List (ℕ × ℕ)
contents [] = []
contents (d ∷ ds) = (d.byte, d.operand) ∷ contents ds

abbrev Fits : List Instruction → Type 0
Fits [] = Unit
Fits ((op, operand, line) ∷ is) = (operand ≤ max_extended_operand) × Fits is

emit_all-words :
    (is : List Instruction) (c c' : Code)
    → emit_all is c ≡ ok c'
    → (c'.words ≡ c.words ++ words_of_all is)
      × Fits is
      × (length c'.lines + length c.words ≡ length c'.words + length c.lines)
unfolding emit_all words_of_all
emit_all-words [] c c' h =
    let p = ok-injective h in rw (← p) (sym (append-nil c.words), tt, omega arith)
emit_all-words ((op, operand, line) ∷ is) c c' h =
    let (r, first, rest) = bind-eq-ok (emit op operand line c) (λ r. emit_all is r.1) h in
    let a = emit-words_of op operand line c r first in
    let b = emit_all-words is r.1 c' rest in
    (
      b.0 ∙ rw a.0 (append_assoc c.words (words_of op operand) (words_of_all is)),
      (a.2, b.1),
      omega (arith, b.2, a.3, ap length a.0, length-append c.words (words_of op operand)),
    )

decode-words_of_all :
    (is : List Instruction) (pc : ℕ)
    → NoPrefix is
    → Fits is
    → contents (decode pc (words_of_all is)) ≡ emitted is
unfolding words_of_all decode
decode-words_of_all [] pc n f = refl
decode-words_of_all ((op, operand, line) ∷ is) pc n f =
    ap contents (decode-words_of op operand pc (words_of_all is) n.0 f.0)
    ∙ ap (◌∷◌ (op_code op, operand))
        (decode-words_of_all is (pc + length (words_of op operand)) n.1 f.1)

abbrev pub empty_code : Code
empty_code = record { words = []; lines = [] }

-- From the code that instructions other than EXTEND were emitted to, the decoder reads back those
-- instructions in order with their operands of up to 48 bits, and the table of lines has one entry for
-- each word.
pub decode-emit_all :
    (is : List Instruction) (c : Code)
    → NoPrefix is
    → emit_all is empty_code ≡ ok c
    → (contents (decode 0 c.words) ≡ emitted is) × (length c.lines ≡ length c.words)
decode-emit_all is c n h =
    let a = emit_all-words is empty_code c h in
    (ap (λ ws. contents (decode 0 ws)) a.0 ∙ decode-words_of_all is 0 n a.1, omega (arith, a.2))

ok-exists :
    {E A : Type 0} (m : Outcome E A) → ((e : E) → m ≢ err e) → m ≢ fault → (a : A) × (m ≡ ok a)
ok-exists (ok a) h k = (a, refl)
ok-exists (err e) h k = absurd (h e refl)
ok-exists fault h k = absurd (k refl)

-- Emitting succeeds for every operand of up to 48 bits, and refuses every larger one.
emit-total :
    (op : Op) (operand line : ℕ) (c : Code)
    → (operand ≤ max_extended_operand → (r : ℕ × Code) × (emit op operand line c ≡ ok r))
      × (max_extended_operand < operand
          → emit op operand line c ≡ err (operand_too_large op operand))
unfolding emit
emit-total op operand line c = (
  λ h. ok-exists (emit op operand line c) (λ e p. ground arith) (λ p. ground arith),
  λ h. ground arith,
)
