-- ===== src/Compiler/Bytecode/Frame.antt =====
-- compiler/BytecodeModule.cpp: parameter names, default blocks and the names of frame slots.
use proto_scala.Common.{
  ℕ, zero, suc, ◌-◌, ◌^◌, ◌≡◌, refl, min, Bool, true, false, ◌&&◌, leb, ltb, ◌==◌, if◌then◌else◌,
  List, [], ◌∷◌, Option, none, some, length, get_or, set, replicate, Bytes, arith,
}

-- `kNoDefault`, the greatest `std::size_t`.
abbrev pub no_default : ℕ
no_default = 2 ^ 64 - 1

pub record Frame : Type 0 where
  pub arity : ℕ
  pub param_names : List Bytes
  pub default_blocks : List ℕ
  pub has_defaults : Bool
  pub min_arity : ℕ
  pub slot_names : List Bytes
  pub slot_boxed : List Bool

unfoldable pub set_param_names : List Bytes → Frame → Frame
set_param_names names f = record f {
  param_names = names;
  default_blocks = replicate (length names) no_default;
  min_arity = f.arity;
}

-- `if (v.size() <= i) v.resize(i + 1, filler)`
abbrev pub resize_past {ℓ} : {A : Type ℓ} → ℕ → A → List A → List A
resize_past zero filler [] = filler ∷ []
resize_past zero filler (x ∷ xs) = x ∷ xs
resize_past (suc i) filler [] = filler ∷ resize_past i filler []
resize_past (suc i) filler (x ∷ xs) = x ∷ resize_past i filler xs

unfoldable pub set_default_block : ℕ → ℕ → Frame → Frame
set_default_block param block f = record f {
  default_blocks = set (resize_past param no_default f.default_blocks) param block;
  has_defaults = true;
  min_arity = if ltb param f.min_arity then param else f.min_arity;
}

abbrev pub default_block : ℕ → Frame → ℕ
default_block param f = get_or f.default_blocks param no_default

abbrev pub is_unnamed : Bytes → Bool
is_unnamed [] = true
is_unnamed (c ∷ cs) = false

abbrev pub slot_name : Option ℕ → Frame → Bytes
slot_name none f = []
slot_name (some i) f = get_or f.slot_names i []

abbrev pub slot_is_boxed : Option ℕ → Frame → Bool
slot_is_boxed none f = false
slot_is_boxed (some i) f = get_or f.slot_boxed i false

-- `setSlotName`; `none` is a negative slot. The first name of a slot stays.
unfoldable pub set_slot_name : Option ℕ → Bytes → Bool → Frame → Frame
set_slot_name none name boxed f = f
set_slot_name (some i) name boxed f =
    let names = resize_past i [] f.slot_names in
    let boxes =
      if leb (length f.slot_names) i then resize_past i false f.slot_boxed else f.slot_boxed in
    if is_unnamed (get_or names i [])
    then record f { slot_names = set names i name; slot_boxed = set boxes i boxed }
    else record f { slot_names = names; slot_boxed = boxes }

get_or-set_resize {ℓ} :
    {A : Type ℓ} (xs : List A) (i j : ℕ) (v d : A)
    → get_or (set (resize_past i d xs) i v) j d ≡ (if i == j then v else get_or xs j d)
get_or-set_resize [] zero zero v d = ground arith
get_or-set_resize [] zero (suc j) v d = ground arith
get_or-set_resize [] (suc i) zero v d = ground arith
get_or-set_resize [] (suc i) (suc j) v d = ground (arith, get_or-set_resize [] i j v d)
get_or-set_resize (x ∷ xs) zero zero v d = ground arith
get_or-set_resize (x ∷ xs) zero (suc j) v d = ground arith
get_or-set_resize (x ∷ xs) (suc i) zero v d = ground arith
get_or-set_resize (x ∷ xs) (suc i) (suc j) v d = ground (arith, get_or-set_resize xs i j v d)

get_or-resize {ℓ} :
    {A : Type ℓ} (xs : List A) (i j : ℕ) (d : A) → get_or (resize_past i d xs) j d ≡ get_or xs j d
get_or-resize [] zero zero d = refl
get_or-resize [] zero (suc j) d = refl
get_or-resize [] (suc i) zero d = refl
get_or-resize [] (suc i) (suc j) d = get_or-resize [] i j d
get_or-resize (x ∷ xs) zero j d = refl
get_or-resize (x ∷ xs) (suc i) zero d = refl
get_or-resize (x ∷ xs) (suc i) (suc j) d = get_or-resize xs i j d

-- The block of a default is found under its parameter, and no other parameter's block changes,
-- also past the declared parameters.
default_block-set :
    (param block j : ℕ) (f : Frame)
    → default_block j (set_default_block param block f)
      ≡ (if param == j then block else default_block j f)
unfolding set_default_block
default_block-set param block j f = get_or-set_resize f.default_blocks param j block no_default

-- The first name that a slot is given stays, and no other slot's name changes.
slot_name-set :
    (i j : ℕ) (name : Bytes) (boxed : Bool) (f : Frame)
    → slot_name (some j) (set_slot_name (some i) name boxed f)
      ≡ (if i == j && is_unnamed (slot_name (some i) f) then name else slot_name (some j) f)
unfolding set_slot_name
slot_name-set i j name boxed f = ground (
  arith,
  get_or-resize f.slot_names i i [],
  get_or-resize f.slot_names i j [],
  get_or-set_resize f.slot_names i j name [],
)

-- Defaults given one after another, each parameter with its block.
unfoldable pub set_defaults : List (ℕ × ℕ) → Frame → Frame
unfolding set_default_block
set_defaults [] f = f
set_defaults ((param, block) ∷ ds) f = set_defaults ds (set_default_block param block f)

-- The least of a number and of the parameters with a default.
unfoldable pub least_default : ℕ → List (ℕ × ℕ) → ℕ
least_default n [] = n
least_default n ((param, block) ∷ ds) = min param (least_default n ds)

least_default-min :
    (m n : ℕ) (ds : List (ℕ × ℕ)) → least_default (min m n) ds ≡ min m (least_default n ds)
unfolding least_default
least_default-min m n [] = refl
least_default-min m n ((param, block) ∷ ds) = omega (arith, least_default-min m n ds)

min_arity_least :
    (ds : List (ℕ × ℕ)) (f : Frame) → (set_defaults ds f).min_arity ≡ least_default f.min_arity ds
unfolding set_defaults least_default
min_arity_least [] f = refl
min_arity_least ((param, block) ∷ ds) f = ground (
  arith,
  min_arity_least ds (set_default_block param block f),
  least_default-min param f.min_arity ds,
)

-- After the names of the parameters and then their defaults have been set, the least count of
-- arguments is the first parameter with a default, or the arity.
min_arity-set_defaults :
    (names : List Bytes) (ds : List (ℕ × ℕ)) (f : Frame)
    → (set_defaults ds (set_param_names names f)).min_arity ≡ least_default f.arity ds
unfolding set_param_names
min_arity-set_defaults names ds f = min_arity_least ds (set_param_names names f)
