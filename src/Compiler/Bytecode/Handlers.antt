-- ===== src/Compiler/Bytecode/Handlers.antt =====
-- compiler/BytecodeModule.cpp: the table of exception handlers, searched in its order.
use proto_scala.Common.{
  ℕ, ◌≡◌, refl, Bool, true, ◌&&◌, ◌||◌, not, ltb, leb, if◌then◌else◌, List, [], ◌∷◌, Option, none,
  some, every, get_elem?, set, arith,
}

pub data HandlerKind : Type 0 where
  catch finally : HandlerKind

pub record Handler : Type 0 where
  pub start_pc : ℕ
  pub end_pc : ℕ
  pub handler_pc : ℕ
  pub stack_depth : ℕ
  pub slot : ℕ
  pub kind : HandlerKind

-- `pc >= h.startPc && pc < h.endPc`
abbrev pub covers : ℕ → Handler → Bool
covers pc h = leb h.start_pc pc && ltb pc h.end_pc

unfoldable pub handler_for : ℕ → List Handler → Option Handler
handler_for pc [] = none
handler_for pc (h ∷ hs) = if covers pc h then some h else handler_for pc hs

-- `handlers_[index].handlerPc = handlerPc`; an index out of range is undefined behaviour.
abbrev pub patch_found : ℕ → ℕ → Option Handler → List Handler → Option (List Handler)
patch_found i pc none hs = none
patch_found i pc (some h) hs = some (set hs i (record h { handler_pc = pc }))

unfoldable pub patch_handler_body : ℕ → ℕ → List Handler → Option (List Handler)
patch_handler_body i pc hs = patch_found i pc (get_elem? hs i) hs

-- The range of `a` lies in that of `b`, and is smaller.
abbrev pub strictly_inside : Handler → Handler → Bool
strictly_inside a b =
    leb b.start_pc a.start_pc
    && leb a.end_pc b.end_pc
    && (ltb b.start_pc a.start_pc || ltb a.end_pc b.end_pc)

-- The compiler's order: no entry stands behind one whose range is strictly around its own.
unfoldable pub inner_first : List Handler → Bool
inner_first [] = true
inner_first (h ∷ hs) = every (λ g. not (strictly_inside g h)) hs && inner_first hs

-- None is found exactly when no entry covers the position.
handler_for-none :
    (pc : ℕ) (hs : List Handler)
    → (handler_for pc hs ≡ none → every (λ g. not (covers pc g)) hs ≡ true)
      × (every (λ g. not (covers pc g)) hs ≡ true → handler_for pc hs ≡ none)
unfolding handler_for
handler_for-none pc [] = (λ e. refl, λ e. refl)
handler_for-none pc (g ∷ hs) =
    (λ e. ground (arith, handler_for-none pc hs), λ e. ground (arith, handler_for-none pc hs))
