-- ===== src/Repl/ModuleTable.antt =====
-- repl/ModuleTable.cpp. Every operation holds the mutex, so it is one step on the two maps; the thread
-- that calls is an argument. A map is an association list with one entry for a key.
use proto_scala.Common.{
  ℕ, ◌≡◌, refl, sym, ap, false, ◌==◌, if◌then◌else◌, Bool-cases, inl, inr, List, [], ◌∷◌, Option,
  none, some, subst, Bytes, bytes_eq, bytes_eq_iff,
}

-- `std::map::find`
unfoldable pub find_in {ℓ} : {V : Type ℓ} → Bytes → List (Bytes × V) → Option V
unfolding bytes_eq
find_in p [] = none
find_in p ((q, v) ∷ entries) = if bytes_eq q p then some v else find_in p entries

-- `std::map::erase`
unfoldable pub erase {ℓ} : {V : Type ℓ} → Bytes → List (Bytes × V) → List (Bytes × V)
unfolding bytes_eq
erase p [] = []
erase p ((q, v) ∷ entries) =
    let rest = erase p entries in if bytes_eq q p then rest else (q, v) ∷ rest

-- What is loaded under each path, and which thread is loading which path.
pub record ModuleTable (M : Type 0) : Type 0 where
  pub loaded : List (Bytes × M)
  pub loading : List (Bytes × ℕ)

pub data Claim (M : Type 0) : Type 0 where
  -- true, false, and the error of a cyclic import
  claimed : ModuleTable M → Claim M
  held : Claim M
  cyclic : Claim M

module _ {M : Type 0} where
  unfoldable pub find : Bytes → ModuleTable M → Option M
  unfolding find_in
  find p t = find_in p t.loaded

  abbrev pub claim_by : ℕ → Bytes → ModuleTable M → Option ℕ → Claim M
  claim_by me p t none = claimed (record t { loading = (p, me) ∷ t.loading })
  claim_by me p t (some owner) = if owner == me then cyclic else held

  unfoldable pub claim : ℕ → Bytes → ModuleTable M → Claim M
  unfolding find_in
  claim me p t = claim_by me p t (find_in p t.loading)

  unfoldable pub publish : Bytes → M → ModuleTable M → ModuleTable M
  unfolding erase
  publish p m t = record { loaded = (p, m) ∷ erase p t.loaded; loading = erase p t.loading }

  unfoldable pub abandon : Bytes → ModuleTable M → ModuleTable M
  unfolding erase
  abandon p t = record t { loading = erase p t.loading }

  abbrev pub await_by : Bytes → ModuleTable M → Option ℕ → Option (Option M)
  await_by p t none = some (find p t)
  await_by p t (some owner) = none

  -- `none` is a wait that goes on.
  unfoldable pub await_loaded : Bytes → ModuleTable M → Option (Option M)
  unfolding find_in find
  await_loaded p t = await_by p t (find_in p t.loading)

pub find_in-erase_self {ℓ} :
    {V : Type ℓ} (p : Bytes) (entries : List (Bytes × V)) → find_in p (erase p entries) ≡ none
unfolding find_in erase
find_in-erase_self p [] = refl
find_in-erase_self p ((q, v) ∷ entries) = elim (Bool-cases (bytes_eq q p)) [
  | inl same ↦ rw same (find_in-erase_self p entries)
  | inr other ↦ rw (other, find_in, other) (find_in-erase_self p entries)
]

pub find_in-erase_other {ℓ} :
    {V : Type ℓ} (p q : Bytes) (entries : List (Bytes × V))
    → bytes_eq p q ≡ false
    → find_in q (erase p entries) ≡ find_in q entries
unfolding find_in erase
find_in-erase_other p q [] ne = refl
find_in-erase_other {V = V} p q ((r, v) ∷ entries) ne = elim (Bool-cases (bytes_eq r p)) [
  | inl same ↦
      let not_q : bytes_eq r q ≡ false =
        subst (λ x. bytes_eq x q ≡ false) (sym ((bytes_eq_iff r p).0 same)) ne in
      rw (same, not_q) (find_in-erase_other p q entries ne)
  | inr other ↦ rw other (
      ap (λ (o : Option V). if bytes_eq r q then some v else o)
        (find_in-erase_other p q entries ne))
]

module _ {M : Type 0} where
  -- Publishing a module ends the waits for its path with that module, and abandoning its load ends them
  -- with what was loaded before; what is found under every other path stays.
  await_loaded-publish :
      (p : Bytes) (m : M) (t : ModuleTable M)
      → (await_loaded p (publish p m t) ≡ some (some m))
        × (await_loaded p (abandon p t) ≡ some (find p t))
        × ((q : Bytes) → bytes_eq p q ≡ false → find q (publish p m t) ≡ find q t)
        × ((q : Bytes) → find q (abandon p t) ≡ find q t)
  unfolding await_loaded publish abandon find find_in
  await_loaded-publish p m t = (
    rw (find_in-erase_self p t.loading, (bytes_eq_iff p p).1 refl) refl,
    rw (find_in-erase_self p t.loading) refl,
    λ q ne. rw ne (find_in-erase_other p q t.loaded ne),
    λ q. refl,
  )
