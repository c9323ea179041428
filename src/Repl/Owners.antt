-- ===== src/Repl/Owners.antt =====
-- repl/Session.cpp and repl/ModuleTable.cpp: the table names the thread for each of its loads, so that no two
-- threads load one path at one time.
use proto_scala.Common.{
  ℕ, ◌≡◌, ◌≢◌, refl, sym, ap, ◌∙◌, Bool, true, not, ◌&&◌, ◌==◌, if-holds, Bool-cases, Option-cases,
  inl, inr, List, [], ◌∷◌, none, some, some-injective, subst, Bytes, bytes_eq, bytes_eq_iff, arith,
}
use proto_scala.Repl.ModuleTable.{
  ModuleTable, find_in, erase, claimed, claim, publish, abandon, find_in-erase_other,
}
use proto_scala.Repl.Loading.{
  Job, missed, loading, waiting, World, set_jobs, Step, missed_it, claimed_it, refused, waits,
  resumed, ran, failed, Reachable, at_first, after,
}

-- No job of the list is a load of the path.
abbrev loads_not : Bytes → List Job → Bool
loads_not p [] = true
loads_not p (loading q ∷ js) = not (bytes_eq p q) && loads_not p js
loads_not p (missed q ∷ js) = loads_not p js
loads_not p (waiting q ∷ js) = loads_not p js

-- The table names the thread for every load among its jobs, and no path is loaded twice among them.
abbrev Owns : ℕ → List (Bytes × ℕ) → List Job → Type 0
Owns me l [] = Unit
Owns me l (loading p ∷ js) = (find_in p l ≡ some me) × (loads_not p js ≡ true) × Owns me l js
Owns me l (missed p ∷ js) = Owns me l js
Owns me l (waiting p ∷ js) = Owns me l js

Owns-mono :
    (me : ℕ) (l k : List (Bytes × ℕ)) (js : List Job)
    → ((q : Bytes) → find_in q l ≡ some me → find_in q k ≡ some me)
    → Owns me l js
    → Owns me k js
Owns-mono me l k [] f o = tt
Owns-mono me l k (loading p ∷ js) f o = (f p o.0, o.1, Owns-mono me l k js f o.2)
Owns-mono me l k (missed p ∷ js) f o = Owns-mono me l k js f o
Owns-mono me l k (waiting p ∷ js) f o = Owns-mono me l k js f o

-- The end of a load of `p`, seen by the jobs around it.
Owns-erase_outer :
    (me : ℕ) (p : Bytes) (l : List (Bytes × ℕ)) (js : List Job)
    → loads_not p js ≡ true
    → Owns me l js
    → Owns me (erase p l) js
Owns-erase_outer me p l [] n o = tt
Owns-erase_outer me p l (loading q ∷ js) n o = (
  find_in-erase_other p q l (ground arith) ∙ o.0,
  o.1,
  Owns-erase_outer me p l js (ground arith) o.2,
)
Owns-erase_outer me p l (missed q ∷ js) n o = Owns-erase_outer me p l js n o
Owns-erase_outer me p l (waiting q ∷ js) n o = Owns-erase_outer me p l js n o

-- The end of a load of another thread.
Owns-erase_other :
    (me you : ℕ) (p : Bytes) (l : List (Bytes × ℕ)) (js : List Job)
    → find_in p l ≡ some you
    → me ≢ you
    → Owns me l js
    → Owns me (erase p l) js
Owns-erase_other me you p l js f ne o =
    Owns-mono me l (erase p l) js
      (λ q mine. elim (Bool-cases (bytes_eq p q)) [
        | inl same ↦
            elim (ne (
              some-injective _ _
                (sym mine ∙ ap (λ x. find_in x l) (sym ((bytes_eq_iff p q).0 same)) ∙ f))) [ ]
        | inr other ↦ find_in-erase_other p q l other ∙ mine
      ])
      o

-- A claim of a path that nobody loads.
Owns-claim :
    (me you : ℕ) (p : Bytes) (l : List (Bytes × ℕ)) (js : List Job)
    → find_in p l ≡ none
    → Owns me l js
    → Owns me ((p, you) ∷ l) js
unfolding find_in
Owns-claim me you p l js free o =
    Owns-mono me l ((p, you) ∷ l) js
      (λ q mine. elim (Bool-cases (bytes_eq p q)) [
        | inl same ↦ cc (sym free ∙ ap (λ x. find_in x l) ((bytes_eq_iff p q).0 same) ∙ mine)
        | inr other ↦ rw other mine
      ])
      o

unclaimed-loads_not :
    (me : ℕ) (p : Bytes) (l : List (Bytes × ℕ)) (js : List Job)
    → find_in p l ≡ none
    → Owns me l js
    → loads_not p js ≡ true
unclaimed-loads_not me p l [] free o = refl
unclaimed-loads_not me p l (loading q ∷ js) free o = elim (Bool-cases (bytes_eq p q)) [
  | inl same ↦ cc (sym free ∙ ap (λ x. find_in x l) ((bytes_eq_iff p q).0 same) ∙ o.0)
  | inr other ↦ rw other (unclaimed-loads_not me p l js free o.2)
]
unclaimed-loads_not me p l (missed q ∷ js) free o = unclaimed-loads_not me p l js free o
unclaimed-loads_not me p l (waiting q ∷ js) free o = unclaimed-loads_not me p l js free o

find_in-first : (p : Bytes) (me : ℕ) (l : List (Bytes × ℕ)) → find_in p ((p, me) ∷ l) ≡ some me
unfolding find_in
find_in-first p me l = rw ((bytes_eq_iff p p).1 refl) refl

-- Every thread owns its loads.
abbrev pub IsOwned : {M : Type 0} → World M → Type 0
IsOwned w = (u : ℕ) → Owns u w.table.loading (w.jobs u)

module _ {M : Type 0} where
  -- A step of a thread changes its jobs, and the table for the others.
  set_jobs-IsOwned :
      (me : ℕ) (js : List Job) (t : ModuleTable M) (w : World M)
      → Owns me t.loading js
      → ((u : ℕ) → u ≢ me → Owns u w.table.loading (w.jobs u) → Owns u t.loading (w.jobs u))
      → IsOwned w
      → IsOwned (set_jobs me js t w)
  set_jobs-IsOwned me js t w mine others o u =
      if-holds (Owns u t.loading) (u == me)
        (λ e. subst (λ x. Owns x t.loading js) {x = me} {y = u} (ground arith) mine)
        (λ e. others u (λ same. ground arith) (o u))

  claim-claimed :
      (me : ℕ) (p : Bytes) (t k : ModuleTable M)
      → claim me p t ≡ claimed k
      → (find_in p t.loading ≡ none) × (k ≡ record t { loading = (p, me) ∷ t.loading })
  unfolding claim
  claim-claimed me p t k h = elim (Option-cases (find_in p t.loading)) [
    | inl free ↦ (free, cc (rw free at h))
    | inr (owner, taken) ↦ elim (Bool-cases (owner == me)) [
      | inl mine ↦ cc (rw (taken, mine) at h)
      | inr other ↦ cc (rw (taken, other) at h)
    ]
  ]

  Step-IsOwned : {w v : World M} → IsOwned w → Step w v → IsOwned v
  unfolding publish abandon
  Step-IsOwned {w = w} o (missed_it me p run none_found) =
      set_jobs-IsOwned me (missed p ∷ w.jobs me) w.table w (o me) (λ u ne h. h) o
  Step-IsOwned {w = w} o (claimed_it me p js t top c) =
      let got = claim-claimed me p w.table t c in
      let mine : Owns me w.table.loading js = subst (Owns me w.table.loading) top (o me) in
      let here = ap (λ (k : ModuleTable M). k.loading) got.1 in
      set_jobs-IsOwned me (loading p ∷ js) t w
        (subst (λ l. Owns me l (loading p ∷ js)) (sym here)
          (
            find_in-first p me w.table.loading,
            unclaimed-loads_not me p w.table.loading js got.0 mine,
            Owns-claim me me p w.table.loading js got.0 mine,
          ))
        (λ u ne h.
          subst (λ l. Owns u l (w.jobs u)) (sym here)
            (Owns-claim u me p w.table.loading (w.jobs u) got.0 h))
        o
  Step-IsOwned {w = w} o (refused me p js top c) =
      set_jobs-IsOwned me js w.table w (subst (Owns me w.table.loading) top (o me)) (λ u ne h. h) o
  Step-IsOwned {w = w} o (waits me p js top c) =
      set_jobs-IsOwned me (waiting p ∷ js) w.table w (subst (Owns me w.table.loading) top (o me))
        (λ u ne h. h) o
  Step-IsOwned {w = w} o (resumed me p js r top c) =
      set_jobs-IsOwned me js w.table w (subst (Owns me w.table.loading) top (o me)) (λ u ne h. h) o
  Step-IsOwned {w = w} o (ran me p js m top) =
      let mine : Owns me w.table.loading (loading p ∷ js) =
        subst (Owns me w.table.loading) top (o me) in
      set_jobs-IsOwned me js (publish p m w.table) w
        (Owns-erase_outer me p w.table.loading js mine.1 mine.2)
        (λ u ne h. Owns-erase_other u me p w.table.loading (w.jobs u) mine.0 ne h) o
  Step-IsOwned {w = w} o (failed me p js top) =
      let mine : Owns me w.table.loading (loading p ∷ js) =
        subst (Owns me w.table.loading) top (o me) in
      set_jobs-IsOwned me js (abandon p w.table) w
        (Owns-erase_outer me p w.table.loading js mine.1 mine.2)
        (λ u ne h. Owns-erase_other u me p w.table.loading (w.jobs u) mine.0 ne h) o

  Reachable-IsOwned : {w : World M} → Reachable w → IsOwned w
  Reachable-IsOwned at_first = λ u. tt
  Reachable-IsOwned (after r s) = Step-IsOwned (Reachable-IsOwned r) s

-- The path is among the thread's loads.
pub data Loads (p : Bytes) : List Job → Type 0 where
  innermost : {js : List Job} → Loads p (loading p ∷ js)
  around : {j : Job} {js : List Job} → Loads p js → Loads p (j ∷ js)

Loads-owner :
    {p : Bytes} (me : ℕ) (l : List (Bytes × ℕ)) (js : List Job)
    → Loads p js
    → Owns me l js
    → find_in p l ≡ some me
Loads-owner me l js innermost o = o.0
Loads-owner me l (missed q ∷ js) (around h) o = Loads-owner me l js h o
Loads-owner me l (waiting q ∷ js) (around h) o = Loads-owner me l js h o
Loads-owner me l (loading q ∷ js) (around h) o = Loads-owner me l js h o.2

module _ {M : Type 0} where
  -- However the threads' steps are ordered, no two threads load one path at one time.
  pub Reachable-one_loader :
      {w : World M} (p : Bytes) (a b : ℕ)
      → Reachable w
      → Loads p (w.jobs a)
      → Loads p (w.jobs b)
      → a ≡ b
  Reachable-one_loader {w = w} p a b r la lb =
      let o = Reachable-IsOwned r in
      some-injective _ _ (
        sym (Loads-owner a w.table.loading (w.jobs a) la (o a))
        ∙ Loads-owner b w.table.loading (w.jobs b) lb (o b))
