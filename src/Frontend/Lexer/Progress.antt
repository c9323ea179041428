-- ===== src/Frontend/Lexer/Progress.antt =====
-- frontend/Lexer.cpp: the cursor only moves by `advance`, and moves wherever a loop goes on.
use proto_scala.Common.{
  ℕ, zero, suc, ◌≡◌, refl, sym, ◌≤◌, ◌<◌, Bool, true, false, ◌==◌, Bool-cases, inl, inr, [], ◌∷◌,
  get_or, subst, length, Bytes, arith,
}
use proto_scala.Frontend.Lexer.Cursor.{
  Cursor, is_empty, eof, cur, behind, advance_over, advance, advance_by, scanned, scan_while,
  Failure, Scan, fails, scans, ◌>>=◌,
}

-- The second cursor is the first one some bytes further.
pub data Onward (c : Cursor) : Cursor → Type 0 where
  stays : Onward c c
  moved : {d : Cursor} → Onward c d → Onward c (advance d)

pub Onward-trans : {a b c : Cursor} → Onward a b → Onward b c → Onward a c
Onward-trans o stays = o
Onward-trans o (moved p) = moved (Onward-trans o p)

pub advance-Onward : (c : Cursor) → Onward c (advance c)
advance-Onward c = moved stays

pub advance_by-Onward : (n : ℕ) (c : Cursor) → Onward c (advance_by n c)
unfolding advance_by
advance_by-Onward zero c = stays
advance_by-Onward (suc n) c = Onward-trans (moved stays) (advance_by-Onward n (advance c))

pub advance_by-suc-Onward : (n : ℕ) (c : Cursor) → Onward (advance c) (advance_by (suc n) c)
unfolding advance_by
advance_by-suc-Onward n c = advance_by-Onward n (advance c)

pub scanned-Onward : (p : Bytes → Bool) (bs : Bytes) (c : Cursor) → Onward c (scanned p bs c).1
unfolding scanned
scanned-Onward p [] c = stays
scanned-Onward p (b ∷ bs) c = elim (Bool-cases (p (b ∷ bs))) [
  | inl goes ↦ rw (goes, scanned) (Onward-trans (moved stays) (scanned-Onward p bs (advance c)))
  | inr ends ↦ rw (ends, scanned) stays
]

behind-length : (b : ℕ) (bs : Bytes) (c : Cursor) → (behind b bs c).rest ≡ bs
behind-length b bs c = elim (Bool-cases (b == 10)) [ inl e ↦ rw e refl | inr e ↦ rw e refl ]

advance_over-length :
    (rest : Bytes) (c : Cursor)
    → c.rest ≡ rest
    → is_empty rest ≡ false
    → suc (length (advance_over rest c).rest) ≡ length rest
advance_over-length [] c e h = cc
advance_over-length (b ∷ bs) c e h = rw (behind-length b bs c) refl

-- Before the end of the source, `advance` moves.
pub advance-shorter : (c : Cursor) → eof c ≡ false → suc (length (advance c).rest) ≡ length c.rest
unfolding advance
advance-shorter c h = advance_over-length c.rest c refl h

advance_over_end :
    (rest : Bytes) (c : Cursor) → c.rest ≡ rest → length (advance_over rest c).rest ≤ length rest
advance_over_end [] c e = rw e (ground arith)
advance_over_end (b ∷ bs) c e = rw (behind-length b bs c) (ground arith)

pub Onward-shorter : {c d : Cursor} → Onward c d → length d.rest ≤ length c.rest
unfolding advance
Onward-shorter stays = ground arith
Onward-shorter {c = c} (moved {d = d} o) =
    let step = advance_over_end d.rest d refl in let before = Onward-shorter o in ground arith

-- One byte and then any number further is strictly further.
pub moved-shorter :
    (c : Cursor) {d : Cursor} → eof c ≡ false → Onward (advance c) d → length d.rest < length c.rest
moved-shorter c h o = let a = advance-shorter c h in let b = Onward-shorter o in ground arith

pub scanned-moves :
    (p : Bytes → Bool) (c : Cursor) (b : ℕ) (bs : Bytes)
    → p (b ∷ bs) ≡ true
    → Onward (advance c) (scanned p (b ∷ bs) c).1
unfolding scanned
scanned-moves p c b bs goes = rw (goes, scanned) (scanned-Onward p bs (advance c))

is_empty-cases : (bs : Bytes) → is_empty bs ≡ false → (b : ℕ) × (rest : Bytes) × (bs ≡ b ∷ rest)
is_empty-cases [] h = cc
is_empty-cases (b ∷ bs) h = (b, bs, refl)

pub scan_while-moves :
    (p : Bytes → Bool) (c : Cursor)
    → eof c ≡ false
    → p c.rest ≡ true
    → Onward (advance c) (scan_while p c).1
scan_while-moves p c h goes =
    let (b, bs, e) = is_empty-cases c.rest h in
    subst (λ r. Onward (advance c) (scanned p r c).1) (sym e)
      (scanned-moves p c b bs (subst (λ r. p r ≡ true) e goes))

get_or-end : (bs : Bytes) (k : ℕ) → is_empty bs ≡ true → get_or bs k 0 ≡ 0
get_or-end [] k h = refl
get_or-end (b ∷ bs) k h = cc

-- A byte other than NUL is in the source.
pub cur-before_end : (c : Cursor) (b : ℕ) → cur c ≡ suc b → eof c ≡ false
cur-before_end c b h = elim (Bool-cases (eof c)) [
  | inl end ↦ let z = get_or-end c.rest 0 end in ground arith
  | inr e ↦ e
]

-- A scan that does not go back from a cursor.
pub data Within {κ} (c : Cursor) {A : Type 0} (Q : A → Type κ) : Scan A → Type κ where
  failing : {f : Failure} → Onward c f.cursor → Within c Q (fails f)
  scanning : {a : A} → Q a → Within c Q (scans a)

pub Within-bind {κ κ'} :
    {c : Cursor} {A B : Type 0} {Q : A → Type κ} {R : B → Type κ'} {s : Scan A} {k : A → Scan B}
    → Within c Q s
    → ((a : A) → Q a → Within c R (k a))
    → Within c R (s >>= k)
Within-bind (failing o) f = failing o
Within-bind (scanning q) f = f _ q

-- Further by one byte at least.
pub record Further (c d : Cursor) : Type 0 where
  pub onward : Onward c d
  pub shorter : length d.rest < length c.rest

pub moved-Further : (c : Cursor) {d : Cursor} → eof c ≡ false → Onward (advance c) d → Further c d
moved-Further c h o = record {
  onward = Onward-trans (moved stays) o;
  shorter = moved-shorter c h o;
}

pub advance-Further : (c : Cursor) → eof c ≡ false → Further c (advance c)
advance-Further c h = moved-Further c h stays

pub Onward-Further : {a b c : Cursor} → Onward a b → Further b c → Further a c
Onward-Further o f = record {
  onward = Onward-trans o f.onward;
  shorter = ground (arith, Onward-shorter o, f.shorter);
}

pub Further-Onward : {a b c : Cursor} → Further a b → Onward b c → Further a c
Further-Onward f o = record {
  onward = Onward-trans f.onward o;
  shorter = ground (arith, Onward-shorter o, f.shorter);
}

pub scan_while-Further :
    (p : Bytes → Bool) (c : Cursor) → eof c ≡ false → p c.rest ≡ true → Further c (scan_while p c).1
scan_while-Further p c h goes = moved-Further c h (scan_while-moves p c h goes)

pub Within-map {κ κ'} :
    {c : Cursor} {A : Type 0} {Q : A → Type κ} {R : A → Type κ'} {s : Scan A}
    → Within c Q s
    → ((a : A) → Q a → R a)
    → Within c R s
Within-map (failing o) f = failing o
Within-map (scanning q) f = scanning (f _ q)

pub scanned-stops :
    (p : Bytes → Bool) (bs : Bytes) (c : Cursor) → p bs ≡ false → scanned p bs c ≡ ([], c)
unfolding scanned
scanned-stops p [] c h = refl
scanned-stops p (b ∷ bs) c h = rw (h, scanned) refl

pub Within-base {κ} :
    {b c : Cursor} {A : Type 0} {Q : A → Type κ} {s : Scan A}
    → Onward b c
    → Within c Q s
    → Within b Q s
Within-base o (failing p) = failing (Onward-trans o p)
Within-base o (scanning q) = scanning q
