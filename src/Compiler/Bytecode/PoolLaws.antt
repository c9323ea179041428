-- ===== src/Compiler/Bytecode/PoolLaws.antt =====
-- compiler/BytecodeModule.cpp: the pool of constants keeps every constant where it was put, and
-- finds it again under its key.
use proto_scala.Common.{
  ℕ, ◌≡◌, refl, ap, ◌∙◌, Bool, true, Bool-cases, Option-cases, inl, inr, List, [], ◌∷◌, ◌++◌,
  Option, some, some-injective, subst, length, get_elem?, All, get_elem?-append,
  get_elem?-append_end, Bytes, bytes_eq_iff, arith,
}
use proto_scala.Compiler.Bytecode.Pool.{
  int, big_int, double, string, char, symbol, Const, const_of, PoolKey, int_key, double_key,
  char_key, big_int_key, string_key, symbol_key, send_key, names_key, super_key, kw_key, key_eq,
  Pool, find_key, find_or_add, add_int, big_int_text, add_double, add_string, add_char, add_symbol,
  send_text, send_const, joined, names_const, super_text, super_const, kw_text, kw_const,
}

-- The constants that the operations put under a key.
pub data Builds : PoolKey → Const → Type 0 where
  of_int : {v : ℕ} → Builds (int_key v) (const_of int v 0 [])
  of_double : {v : ℕ} → Builds (double_key v) (const_of double 0 v [])
  of_char : {v : ℕ} → Builds (char_key v) (const_of char v 0 [])
  of_string : {s : Bytes} → Builds (string_key s) (const_of string 0 0 s)
  of_symbol : {s : Bytes} → Builds (symbol_key s) (const_of symbol 0 0 s)
  of_big_int :
      {k : Bytes} (digits : Bytes) (base : ℕ)
      → k ≡ big_int_text digits base
      → Builds (big_int_key k) (record (const_of big_int 0 0 digits) { base = base })
  of_send :
      {k : Bytes} (name : Bytes) (argc : ℕ) (fallback : Bytes)
      → k ≡ send_text name argc fallback
      → Builds (send_key k) (send_const name argc fallback)
  of_names : {k : Bytes} (ns : List Bytes) → k ≡ joined ns → Builds (names_key k) (names_const ns)
  of_super :
      {k : Bytes} (name : Bytes) (argc : ℕ) (owner : Bytes) (exact : Bool)
      → k ≡ super_text name argc owner exact
      → Builds (super_key k) (super_const name argc owner exact)
  of_kw :
      {k : Bytes} (name : Bytes) (positional : ℕ) (keywords : List Bytes) (fallback : Bytes)
      → k ≡ kw_text name positional keywords fallback
      → Builds (kw_key k) (kw_const name positional keywords fallback)

-- The slot of an index entry holds a constant of its key.
pub record Entry (consts : List Const) (e : PoolKey × ℕ) : Type 0 where
  pub const : Const
  pub held : get_elem? consts e.1 ≡ some const
  pub builds : Builds e.0 const

abbrev pub IsPool : Pool → Type 0
IsPool p = All (Entry p.consts) p.index

key_eq→≡ : (a b : PoolKey) → key_eq a b ≡ true → a ≡ b
unfolding key_eq
key_eq→≡ (int_key a) (int_key b) h = ground arith
key_eq→≡ (double_key a) (double_key b) h = ground arith
key_eq→≡ (char_key a) (char_key b) h = ground arith
key_eq→≡ (big_int_key a) (big_int_key b) h = ap big_int_key ((bytes_eq_iff a b).0 h)
key_eq→≡ (string_key a) (string_key b) h = ap string_key ((bytes_eq_iff a b).0 h)
key_eq→≡ (symbol_key a) (symbol_key b) h = ap symbol_key ((bytes_eq_iff a b).0 h)
key_eq→≡ (send_key a) (send_key b) h = ap send_key ((bytes_eq_iff a b).0 h)
key_eq→≡ (names_key a) (names_key b) h = ap names_key ((bytes_eq_iff a b).0 h)
key_eq→≡ (super_key a) (super_key b) h = ap super_key ((bytes_eq_iff a b).0 h)
key_eq→≡ (kw_key a) (kw_key b) h = ap kw_key ((bytes_eq_iff a b).0 h)
key_eq→≡ _ _ h = cc

key_eq_refl : (a : PoolKey) → key_eq a a ≡ true
unfolding key_eq
key_eq_refl (int_key a) = ground arith
key_eq_refl (double_key a) = ground arith
key_eq_refl (char_key a) = ground arith
key_eq_refl (big_int_key a) = (bytes_eq_iff a a).1 refl
key_eq_refl (string_key a) = (bytes_eq_iff a a).1 refl
key_eq_refl (symbol_key a) = (bytes_eq_iff a a).1 refl
key_eq_refl (send_key a) = (bytes_eq_iff a a).1 refl
key_eq_refl (names_key a) = (bytes_eq_iff a a).1 refl
key_eq_refl (super_key a) = (bytes_eq_iff a a).1 refl
key_eq_refl (kw_key a) = (bytes_eq_iff a a).1 refl

find_key-Entry :
    (k : PoolKey) (i : ℕ) (consts : List Const) (index : List (PoolKey × ℕ))
    → All (Entry consts) index
    → find_key k index ≡ some i
    → Entry consts (k, i)
unfolding find_key
find_key-Entry k i consts [] a h = cc
find_key-Entry k i consts ((j, l) ∷ index) a h = elim (Bool-cases (key_eq j k)) [
  | inl same ↦
      subst (λ e. Entry consts e) (λ d. (key_eq→≡ j k same d, some-injective _ _ (rw same at h) d))
        a.0
  | inr other ↦ find_key-Entry k i consts index a.1 (rw other at h)
]

All-Entry-append :
    (consts more : List Const) (index : List (PoolKey × ℕ))
    → All (Entry consts) index
    → All (Entry (consts ++ more)) index
All-Entry-append consts more [] a = tt
All-Entry-append consts more (e ∷ index) a = (
  record {
    const = a.0.const;
    held = get_elem?-append consts more e.1 a.0.held;
    builds = a.0.builds;
  },
  All-Entry-append consts more index a.1,
)

-- What an addition does: the pool stays one, the slot holds a constant of the key, no constant
-- moves, and adding under the key again finds the slot and changes nothing.
pub record Added (k : PoolKey) (p : Pool) (r : ℕ × Pool) : Type 0 where
  pub is_pool : IsPool r.1
  pub entry : Entry r.1.consts (k, r.0)
  pub kept : (i : ℕ) (d : Const) → get_elem? p.consts i ≡ some d → get_elem? r.1.consts i ≡ some d
  pub again : (c : Const) → find_or_add k c r.1 ≡ r

-- Adding a constant under a key of its own keeps a pool one: every index entry leads to a constant of
-- its key. The slot returned holds a constant of the key, no constant moves, and adding again under
-- the key gives the same slot and changes nothing.
pub find_or_add-Added :
    (k : PoolKey) (c : Const) (p : Pool) → IsPool p → Builds k c → Added k p (find_or_add k c p)
unfolding find_or_add find_key
find_or_add-Added k c p a b = elim (Option-cases (find_key k p.index)) [
  | inl new ↦ rw new (
      let entry : Entry (p.consts ++ c ∷ []) (k, length p.consts) = record {
        const = c;
        held = get_elem?-append_end p.consts c;
        builds = b;
      } in
      record {
        is_pool = (entry, All-Entry-append p.consts (c ∷ []) p.index a);
        entry = entry;
        kept = λ i d h. get_elem?-append p.consts (c ∷ []) i h;
        again = λ c'. rw (key_eq_refl k);
      })
  | inr (i, old) ↦ rw old (record {
    is_pool = a;
    entry = find_key-Entry k i p.consts p.index a old;
    kept = λ i d h. h;
    again = λ c'. rw old;
  })
]

-- The slot that an operation returns and the constant there.
abbrev pub const_at : ℕ × Pool → Option Const
const_at r = get_elem? r.1.consts r.0

entry-const :
    (k : PoolKey) (c : Const) (p : Pool)
    → IsPool p
    → Builds k c
    → ((d : Const) → Builds k d → d ≡ c)
    → const_at (find_or_add k c p) ≡ some c
entry-const k c p a b only =
    let added = find_or_add-Added k c p a b in
    added.entry.held ∙ ap some (only added.entry.const added.entry.builds)

int_only : (v : ℕ) (d : Const) → Builds (int_key v) d → d ≡ const_of int v 0 []
int_only v d of_int = refl

double_only : (v : ℕ) (d : Const) → Builds (double_key v) d → d ≡ const_of double 0 v []
double_only v d of_double = refl

char_only : (v : ℕ) (d : Const) → Builds (char_key v) d → d ≡ const_of char v 0 []
char_only v d of_char = refl

string_only : (s : Bytes) (d : Const) → Builds (string_key s) d → d ≡ const_of string 0 0 s
string_only s d of_string = refl

symbol_only : (s : Bytes) (d : Const) → Builds (symbol_key s) d → d ≡ const_of symbol 0 0 s
symbol_only s d of_symbol = refl

-- In a pool whose index leads to constants of its keys, the slot returned for an integer, a double, a character, a string or a symbol holds
-- exactly that constant.
pub literals-read_back :
    (p : Pool) (v : ℕ) (s : Bytes)
    → IsPool p
    → (const_at (add_int v p) ≡ some (const_of int v 0 []))
      × (const_at (add_double v p) ≡ some (const_of double 0 v []))
      × (const_at (add_char v p) ≡ some (const_of char v 0 []))
      × (const_at (add_string s p) ≡ some (const_of string 0 0 s))
      × (const_at (add_symbol s p) ≡ some (const_of symbol 0 0 s))
unfolding add_int add_double add_char add_string add_symbol
literals-read_back p v s a = (
  entry-const _ _ p a of_int (int_only v),
  entry-const _ _ p a of_double (double_only v),
  entry-const _ _ p a of_char (char_only v),
  entry-const _ _ p a of_string (string_only s),
  entry-const _ _ p a of_symbol (symbol_only s),
)
