-- ===== src/Compiler/Bytecode/Pool.antt =====
-- compiler/BytecodeModule.cpp: the pool of constants. Each kind of constant has an index of its own
-- in the source; here one index holds the keys of all kinds, each under its constructor.
-- A number that may be negative or a double stands as its 64-bit pattern.
use Prim.Native.Nat.{digits}
use proto_scala.Common.{
  ℕ, Bool, false, ◌==◌, if◌then◌else◌, List, [], ◌∷◌, ◌++◌, Option, none, some, length, Bytes,
  codes, to_string, bytes_eq,
}

pub data ConstKind : Type 0 where
  int big_int double string char symbol send_site names class_spec super_site kw_send_site :
      ConstKind

pub record Const : Type 0 where
  pub kind : ConstKind
  pub ival : ℕ
  pub dval : ℕ
  pub sval : Bytes
  pub base : ℕ
  pub argc : ℕ
  pub names : List Bytes
  pub fields : List Bytes
  pub key : Bytes
  pub flags : ℕ
  pub exact : Bool

-- `Const{kind, ival, dval, sval}`, the other members at their defaults.
abbrev pub const_of : ConstKind → ℕ → ℕ → Bytes → Const
const_of k i d s = record {
  kind = k;
  ival = i;
  dval = d;
  sval = s;
  base = 10;
  argc = 0;
  names = [];
  fields = [];
  key = [];
  flags = 0;
  exact = false;
}

pub data PoolKey : Type 0 where
  int_key double_key char_key : ℕ → PoolKey
  big_int_key string_key symbol_key send_key names_key super_key kw_key : Bytes → PoolKey

unfoldable pub key_eq : PoolKey → PoolKey → Bool
unfolding bytes_eq
key_eq (int_key a) (int_key b) = a == b
key_eq (double_key a) (double_key b) = a == b
key_eq (char_key a) (char_key b) = a == b
key_eq (big_int_key a) (big_int_key b) = bytes_eq a b
key_eq (string_key a) (string_key b) = bytes_eq a b
key_eq (symbol_key a) (symbol_key b) = bytes_eq a b
key_eq (send_key a) (send_key b) = bytes_eq a b
key_eq (names_key a) (names_key b) = bytes_eq a b
key_eq (super_key a) (super_key b) = bytes_eq a b
key_eq (kw_key a) (kw_key b) = bytes_eq a b
key_eq _ _ = false

pub record Pool : Type 0 where
  pub index : List (PoolKey × ℕ)
  pub consts : List Const

unfoldable pub find_key : PoolKey → List (PoolKey × ℕ) → Option ℕ
unfolding key_eq
find_key k [] = none
find_key k ((j, i) ∷ index) = if key_eq j k then some i else find_key k index

-- The index of the constant that the key names, which is appended first when the key is new.
abbrev pub found_or_added : Option ℕ → PoolKey → Const → Pool → ℕ × Pool
found_or_added (some i) k c p = (i, p)
found_or_added none k c p = (
  length p.consts,
  record { index = (k, length p.consts) ∷ p.index; consts = p.consts ++ c ∷ [] },
)

unfoldable pub find_or_add : PoolKey → Const → Pool → ℕ × Pool
unfolding find_key
find_or_add k c p = found_or_added (find_key k p.index) k c p

unfoldable pub add_int : ℕ → Pool → ℕ × Pool
unfolding find_or_add
add_int v = find_or_add (int_key v) (const_of int v 0 [])

unfoldable pub big_int_text : Bytes → ℕ → Bytes
big_int_text digits base = to_string base ++ (codes ":" ++ digits)

unfoldable pub add_big_int : Bytes → ℕ → Pool → ℕ × Pool
unfolding find_or_add big_int_text
add_big_int digits base =
    find_or_add (big_int_key (big_int_text digits base))
      (record (const_of big_int 0 0 digits) { base = base })

unfoldable pub add_double : ℕ → Pool → ℕ × Pool
unfolding find_or_add
add_double bits = find_or_add (double_key bits) (const_of double 0 bits [])

unfoldable pub add_string : Bytes → Pool → ℕ × Pool
unfolding find_or_add
add_string s = find_or_add (string_key s) (const_of string 0 0 s)

unfoldable pub add_char : ℕ → Pool → ℕ × Pool
unfolding find_or_add
add_char c = find_or_add (char_key c) (const_of char c 0 [])

unfoldable pub add_symbol : Bytes → Pool → ℕ × Pool
unfolding find_or_add
add_symbol name = find_or_add (symbol_key name) (const_of symbol 0 0 name)

unfoldable pub send_text : Bytes → ℕ → Bytes → Bytes
send_text name argc fallback = name ++ (codes "/" ++ (to_string argc ++ (codes "/" ++ fallback)))

abbrev pub send_const : Bytes → ℕ → Bytes → Const
send_const name argc fallback = record (const_of send_site 0 0 name) { argc = argc; key = fallback }

unfoldable pub add_send_site : Bytes → ℕ → Bytes → Pool → ℕ × Pool
unfolding find_or_add send_text
add_send_site name argc fallback =
    find_or_add (send_key (send_text name argc fallback)) (send_const name argc fallback)

-- `out += (out.empty() ? "" : ",") + s` for each name.
abbrev pub join_onto : Bytes → Bytes → Bytes
join_onto [] s = s
join_onto (c ∷ out) s = (c ∷ out) ++ (codes "," ++ s)

unfoldable pub joined_onto : Bytes → List Bytes → Bytes
joined_onto out [] = out
joined_onto out (s ∷ ss) = joined_onto (join_onto out s) ss

unfoldable pub joined : List Bytes → Bytes
unfolding joined_onto
joined = joined_onto []

abbrev pub names_const : List Bytes → Const
names_const ns = record (const_of ConstKind.names 0 0 []) { names = ns }

unfoldable pub add_names : List Bytes → Pool → ℕ × Pool
unfolding find_or_add joined
add_names ns = find_or_add (names_key (joined ns)) (names_const ns)

pub record ClassSpecData : Type 0 where
  pub display_name : Bytes
  pub key : Bytes
  pub parent_count : ℕ
  pub member_keys : List Bytes
  pub fields : List Bytes
  pub flags : ℕ

abbrev pub class_const : ClassSpecData → Const
class_const spec = record (const_of class_spec 0 0 spec.display_name) {
  argc = spec.parent_count;
  names = spec.member_keys;
  fields = spec.fields;
  key = spec.key;
  flags = spec.flags;
}

-- Never de-duplicated.
unfoldable pub add_class_spec : ClassSpecData → Pool → ℕ × Pool
add_class_spec spec p = (length p.consts, record p { consts = p.consts ++ class_const spec ∷ [] })

unfoldable pub super_text : Bytes → ℕ → Bytes → Bool → Bytes
super_text name argc owner exact =
    owner
    ++ (codes "/"
        ++ (name ++ (codes "/" ++ (to_string argc ++ (if exact then codes "/x" else [])))))

abbrev pub super_const : Bytes → ℕ → Bytes → Bool → Const
super_const name argc owner exact = record (const_of super_site 0 0 name) {
  argc = argc;
  key = owner;
  exact = exact;
}

unfoldable pub add_super_site : Bytes → ℕ → Bytes → Bool → Pool → ℕ × Pool
unfolding find_or_add super_text
add_super_site name argc owner exact =
    find_or_add (super_key (super_text name argc owner exact)) (super_const name argc owner exact)

unfoldable pub kw_text : Bytes → ℕ → List Bytes → Bytes → Bytes
unfolding joined
kw_text name positional keywords fallback =
    name
    ++ (codes "/"
        ++ (to_string positional ++ (codes "/" ++ (joined keywords ++ (codes "/" ++ fallback)))))

abbrev pub kw_const : Bytes → ℕ → List Bytes → Bytes → Const
kw_const name positional keywords fallback = record (const_of kw_send_site 0 0 name) {
  argc = positional;
  names = keywords;
  key = fallback;
}

unfoldable pub add_kw_send_site : Bytes → ℕ → List Bytes → Bytes → Pool → ℕ × Pool
unfolding find_or_add kw_text
add_kw_send_site name positional keywords fallback =
    find_or_add (kw_key (kw_text name positional keywords fallback))
      (kw_const name positional keywords fallback)
