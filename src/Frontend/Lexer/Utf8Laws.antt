-- ===== src/Frontend/Lexer/Utf8Laws.antt =====
-- frontend/Lexer.cpp: `decodeUtf8` undoes `appendUtf8`, and accepts nothing else.
use proto_scala.Common.{
  ℕ, ◌≡◌, ◌≢◌, sym, ◌⊎◌, inl, inr, ◌/◌, ◌%◌, ◌≤◌, ◌<◌, ltb, ◌==◌, Bool-cases, Option-cases, [], ◌∷◌,
  ◌++◌, some, some-injective, length, subst, Bytes, arith,
}
use proto_scala.Frontend.Lexer.Utf8.{Lead, lead_of, continue_utf8, decode_rest, decode_utf8, utf8}

-- A Unicode scalar value: a code point that is no surrogate.
abbrev pub IsScalar : ℕ → Type 0
IsScalar cp = (cp < 0xD800) ⊎ ((0xE000 ≤ cp) × (cp ≤ 0x10FFFF))

-- Decoding the encoding of a scalar value, with any text behind it, gives its length and the value.
pub decode_utf8-utf8 :
    (cp : ℕ) (rest : Bytes)
    → IsScalar cp
    → decode_utf8 (utf8 cp ++ rest) ≡ some (length (utf8 cp), cp)
unfolding decode_utf8 utf8
decode_utf8-utf8 cp rest s = ground arith

-- What the decoder accepts at a nonempty text.
pub record Accepts (s : Bytes) (len cp : ℕ) : Type 0 where
  pub scalar : IsScalar cp
  pub behind : Bytes
  pub split : s ≡ utf8 cp ++ behind
  pub same_length : len ≡ length (utf8 cp)

two-Accepts :
    (b0 b1 : ℕ) (bs : Bytes) (len cp : ℕ)
    → b0 / 32 ≡ 6
    → decode_rest (b0 ∷ (b1 ∷ bs)) (b1 ∷ bs) (record { len = 2; value = b0 % 32; minimum = 0x80 })
      ≡ some (len, cp)
    → Accepts (b0 ∷ (b1 ∷ bs)) len cp
unfolding continue_utf8 utf8
two-Accepts b0 b1 bs len cp l h = record {
  scalar = ground arith;
  behind = bs;
  split = ground arith;
  same_length = ground arith;
}

three-Accepts :
    (b0 b1 b2 : ℕ) (bs : Bytes) (len cp : ℕ)
    → b0 / 16 ≡ 14
    → decode_rest
        (b0 ∷ (b1 ∷ (b2 ∷ bs)))
        (b1 ∷ (b2 ∷ bs))
        (record { len = 3; value = b0 % 16; minimum = 0x800 })
      ≡ some (len, cp)
    → Accepts (b0 ∷ (b1 ∷ (b2 ∷ bs))) len cp
unfolding continue_utf8 utf8
three-Accepts b0 b1 b2 bs len cp l h = record {
  scalar = ground arith;
  behind = bs;
  split = ground arith;
  same_length = ground arith;
}

four-Accepts :
    (b0 b1 b2 b3 : ℕ) (bs : Bytes) (len cp : ℕ)
    → b0 / 8 ≡ 30
    → decode_rest
        (b0 ∷ (b1 ∷ (b2 ∷ (b3 ∷ bs))))
        (b1 ∷ (b2 ∷ (b3 ∷ bs)))
        (record { len = 4; value = b0 % 8; minimum = 0x10000 })
      ≡ some (len, cp)
    → Accepts (b0 ∷ (b1 ∷ (b2 ∷ (b3 ∷ bs)))) len cp
unfolding continue_utf8 utf8
four-Accepts b0 b1 b2 b3 bs len cp l h = record {
  scalar = ground arith;
  behind = bs;
  split = ground arith;
  same_length = ground arith;
}

one-Accepts : (b0 : ℕ) (bs : Bytes) → b0 < 0x80 → Accepts (b0 ∷ bs) 1 b0
unfolding utf8
one-Accepts b0 bs h = record {
  scalar = inl (ground arith);
  behind = bs;
  split = ground arith;
  same_length = ground arith;
}

-- Too few bytes behind the lead byte.
truncated :
    (s behind : Bytes) (l : Lead) {r : ℕ × ℕ} → length s < l.len → decode_rest s behind l ≢ some r
truncated s behind l lt h = ground arith

abbrev two_lead : ℕ → Lead
two_lead b0 = record { len = 2; value = b0 % 32; minimum = 0x80 }

abbrev three_lead : ℕ → Lead
three_lead b0 = record { len = 3; value = b0 % 16; minimum = 0x800 }

abbrev four_lead : ℕ → Lead
four_lead b0 = record { len = 4; value = b0 % 8; minimum = 0x10000 }

lead_two-Accepts :
    (b0 : ℕ) (bs : Bytes) (len cp : ℕ)
    → b0 / 32 ≡ 6
    → decode_rest (b0 ∷ bs) bs (two_lead b0) ≡ some (len, cp)
    → Accepts (b0 ∷ bs) len cp
lead_two-Accepts b0 [] len cp l h = elim (truncated (b0 ∷ []) [] (two_lead b0) (ground arith) h) [ ]
lead_two-Accepts b0 (b1 ∷ bs) len cp l h = two-Accepts b0 b1 bs len cp l h

lead_three-Accepts :
    (b0 : ℕ) (bs : Bytes) (len cp : ℕ)
    → b0 / 16 ≡ 14
    → decode_rest (b0 ∷ bs) bs (three_lead b0) ≡ some (len, cp)
    → Accepts (b0 ∷ bs) len cp
lead_three-Accepts b0 (b1 ∷ (b2 ∷ bs)) len cp l h = three-Accepts b0 b1 b2 bs len cp l h
lead_three-Accepts b0 bs len cp l h =
    elim (truncated (b0 ∷ bs) bs (three_lead b0) (ground arith) h) [ ]

lead_four-Accepts :
    (b0 : ℕ) (bs : Bytes) (len cp : ℕ)
    → b0 / 8 ≡ 30
    → decode_rest (b0 ∷ bs) bs (four_lead b0) ≡ some (len, cp)
    → Accepts (b0 ∷ bs) len cp
lead_four-Accepts b0 (b1 ∷ (b2 ∷ (b3 ∷ bs))) len cp l h = four-Accepts b0 b1 b2 b3 bs len cp l h
lead_four-Accepts b0 bs len cp l h =
    elim (truncated (b0 ∷ bs) bs (four_lead b0) (ground arith) h) [ ]

lead-Accepts :
    (b0 : ℕ) (bs : Bytes) (l : Lead) (len cp : ℕ)
    → lead_of b0 ≡ some l
    → decode_rest (b0 ∷ bs) bs l ≡ some (len, cp)
    → Accepts (b0 ∷ bs) len cp
unfolding lead_of
lead-Accepts b0 bs l len cp e h =
    let at : (m : Lead) → some m ≡ some l → decode_rest (b0 ∷ bs) bs m ≡ some (len, cp) = λ m d.
      subst (λ n. decode_rest (b0 ∷ bs) bs n ≡ some (len, cp)) (sym (some-injective _ _ d)) h in
    elim (Bool-cases (b0 / 32 == 6)) [
      | inl two ↦ lead_two-Accepts b0 bs len cp (ground arith) (at _ (rw two at e))
      | inr not_two ↦ elim (Bool-cases (b0 / 16 == 14)) [
        | inl three ↦
            lead_three-Accepts b0 bs len cp (ground arith) (at _ (rw (not_two, three) at e))
        | inr not_three ↦ elim (Bool-cases (b0 / 8 == 30)) [
          | inl four ↦
              lead_four-Accepts b0 bs len cp (ground arith)
                (at _ (rw (not_two, not_three, four) at e))
          | inr not_four ↦ cc (rw (not_two, not_three, not_four) at e)
        ]
      ]
    ]

-- A nonempty text that the decoder accepts begins with the encoding of the scalar value it returns, of the
-- length it returns: no overlong form, no surrogate, nothing truncated and no stray byte.
pub decode_utf8-Accepts :
    (b0 : ℕ) (bs : Bytes) (len cp : ℕ)
    → decode_utf8 (b0 ∷ bs) ≡ some (len, cp)
    → Accepts (b0 ∷ bs) len cp
unfolding decode_utf8
decode_utf8-Accepts b0 bs len cp h = elim (Bool-cases (ltb b0 0x80)) [
  | inl ascii ↦
      let e = some-injective _ _ (rw ascii at h) in
      subst (λ r. Accepts (b0 ∷ bs) r.0 r.1) e (one-Accepts b0 bs (ground arith))
  | inr wide ↦ elim (Option-cases (lead_of b0)) [
    | inl none_led ↦ cc (rw (wide, none_led) at h)
    | inr (l, led) ↦ lead-Accepts b0 bs l len cp led (rw (wide, led) at h)
  ]
]
