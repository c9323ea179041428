-- ===== src/Frontend/Lexer/LetterLaws.antt =====
-- frontend/UnicodeLetters.h: the binary search finds what a walk through all ranges finds.
use proto_scala.Common.{
  ℕ, zero, suc, ◌≡◌, refl, sym, ap, ◌∙◌, ◌+◌, ◌-◌, ◌/◌, ◌^◌, ◌≤◌, ◌<◌, Bool, true, false, ◌&&◌,
  ◌||◌, ltb, leb, Bool-cases, List, [], ◌∷◌, Option, some, some-injective, ◌⊎◌, inl, inr, length,
  get_elem?, arith,
}
use proto_scala.Frontend.Lexer.Letters.{
  CodePointRange, search, is_symbol_letter, symbol_letter_ranges,
}

abbrev pub in_range : ℕ → CodePointRange → Bool
in_range cp (first, last) = leb first cp && leb cp last

-- A walk through all ranges.
unfoldable pub in_some_range : ℕ → List CodePointRange → Bool
in_some_range cp [] = false
in_some_range cp (r ∷ rs) = in_range cp r || in_some_range cp rs

-- Every range is in order, and begins behind the one before it.
unfoldable pub ascending_from : ℕ → List CodePointRange → Bool
ascending_from n [] = true
ascending_from n ((first, last) ∷ rs) =
    leb n first && leb first last && ascending_from (last + 1) rs

get-eq_some :
    {A : Type 0} (xs : List A) (i : ℕ) → i < length xs → (x : A) × (get_elem? xs i ≡ some x)
get-eq_some [] i h = ground arith
get-eq_some (x ∷ xs) zero h = (x, refl)
get-eq_some (x ∷ xs) (suc i) h = get-eq_some xs i (ground arith)

get-lt : {A : Type 0} (xs : List A) (i : ℕ) {x : A} → get_elem? xs i ≡ some x → i < length xs
get-lt [] i h = cc
get-lt (y ∷ xs) zero h = ground arith
get-lt (y ∷ xs) (suc i) h = ground (arith, get-lt xs i h)

ascending-bounds :
    (n i : ℕ) (rs : List CodePointRange) (r : CodePointRange)
    → ascending_from n rs ≡ true
    → get_elem? rs i ≡ some r
    → (n ≤ r.0) × (r.0 ≤ r.1)
unfolding ascending_from
ascending-bounds n i [] r a h = cc
ascending-bounds n zero ((first, last) ∷ rs) r a h = ground arith
ascending-bounds n (suc i) ((first, last) ∷ rs) r a h =
    let rest = ascending-bounds (last + 1) i rs r (ground arith) h in ground arith

ascending-order :
    (n i j : ℕ) (rs : List CodePointRange) (r s : CodePointRange)
    → ascending_from n rs ≡ true
    → i < j
    → get_elem? rs i ≡ some r
    → get_elem? rs j ≡ some s
    → r.1 < s.0
unfolding ascending_from
ascending-order n i j [] r s a lt hi hj = cc
ascending-order n i zero ((first, last) ∷ rs) r s a lt hi hj = ground arith
ascending-order n zero (suc j) ((first, last) ∷ rs) r s a lt hi hj =
    let b = ascending-bounds (last + 1) j rs s (ground arith) hj in ground arith
ascending-order n (suc i) (suc j) ((first, last) ∷ rs) r s a lt hi hj =
    ascending-order (last + 1) i j rs r s (ground arith) (ground arith) hi hj

in_some_range-get :
    (cp i : ℕ) (rs : List CodePointRange) (r : CodePointRange)
    → get_elem? rs i ≡ some r
    → in_range cp r ≡ true
    → in_some_range cp rs ≡ true
unfolding in_some_range
in_some_range-get cp i [] r h c = cc
in_some_range-get cp zero (q ∷ rs) r h c = ground arith
in_some_range-get cp (suc i) (q ∷ rs) r h c = ground (arith, in_some_range-get cp i rs r h c)

in_some_range-none :
    (cp : ℕ) (rs : List CodePointRange)
    → ((i : ℕ) (r : CodePointRange) → get_elem? rs i ≡ some r → in_range cp r ≡ false)
    → in_some_range cp rs ≡ false
unfolding in_some_range
in_some_range-none cp [] h = refl
in_some_range-none cp (q ∷ rs) h =
    rw (h zero q refl, in_some_range-none cp rs (λ i r e. h (suc i) r e))

-- Where the code point lies behind a range, no range up to that one holds it.
ranges_below-miss :
    (table : List CodePointRange) (cp mid i : ℕ) (q r : CodePointRange)
    → ascending_from 0 table ≡ true
    → get_elem? table mid ≡ some q
    → ltb q.1 cp ≡ true
    → i ≤ mid
    → get_elem? table i ≡ some r
    → in_range cp r ≡ false
ranges_below-miss table cp mid i q r a at h le g = elim (Bool-cases (ltb i mid)) [
  | inl less ↦
      let o = ascending-order 0 i mid table r q a (ground arith) g at in
      let b = ascending-bounds 0 mid table q a at in ground arith
  | inr same ↦
      let e =
        some-injective _ _ (sym g ∙ ap (get_elem? table) {x = i} {y = mid} (ground arith) ∙ at) in
      rw e (ground arith)
]

-- Where it lies before a range, none from that one on holds it.
ranges_above-miss :
    (table : List CodePointRange) (cp mid i : ℕ) (q r : CodePointRange)
    → ascending_from 0 table ≡ true
    → get_elem? table mid ≡ some q
    → ltb cp q.0 ≡ true
    → mid ≤ i
    → get_elem? table i ≡ some r
    → in_range cp r ≡ false
ranges_above-miss table cp mid i q r a at h le g = elim (Bool-cases (ltb mid i)) [
  | inl less ↦
      let o = ascending-order 0 mid i table q r a (ground arith) at g in
      let b = ascending-bounds 0 mid table q a at in ground arith
  | inr same ↦
      let e =
        some-injective _ _ (sym g ∙ ap (get_elem? table) {x = i} {y = mid} (ground arith) ∙ at) in
      rw e (ground arith)
]

-- What a search between two bounds returns.
record Searched (table : List CodePointRange) (cp lo hi : ℕ) (o : Option Bool) : Type 0 where
  found : Bool
  returned : o ≡ some found
  hit : found ≡ true → in_some_range cp table ≡ true
  miss :
      found ≡ false
      → (i : ℕ) (r : CodePointRange) → lo ≤ i
      → i < hi
      → get_elem? table i ≡ some r
      → in_range cp r ≡ false

-- The last turn: the bounds have met.
search_empty-Searched :
    (f : ℕ) (table : List CodePointRange) (cp lo hi : ℕ)
    → ltb lo hi ≡ false
    → Searched table cp lo hi (search (suc f) table cp lo hi)
unfolding search
search_empty-Searched f table cp lo hi e =
    rw (e, search)
      (record { found = false; returned = refl; hit = λ h. cc; miss = λ h i r l u g. ground arith })

mid-lt : (lo hi : ℕ) → ltb lo hi ≡ true → (lo ≤ lo + (hi - lo) / 2) × (lo + (hi - lo) / 2 < hi)
mid-lt lo hi h = ground arith

halves-lt :
    (f lo hi : ℕ)
    → ltb lo hi ≡ true
    → hi - lo < 2 ^ suc f
    → (hi - (lo + (hi - lo) / 2 + 1) < 2 ^ f) × (lo + (hi - lo) / 2 - lo < 2 ^ f)
halves-lt f lo hi h fits = ground arith

-- Bounds grow by ranges that do not hold the code point.
Searched-widen :
    (table : List CodePointRange) (cp lo hi lo' hi' : ℕ) (o : Option Bool)
    → ((i : ℕ) (r : CodePointRange)
        → lo ≤ i
        → i < hi
        → (i < lo') ⊎ (hi' ≤ i)
        → get_elem? table i ≡ some r
        → in_range cp r ≡ false)
    → Searched table cp lo' hi' o
    → Searched table cp lo hi o
Searched-widen table cp lo hi lo' hi' o out s = record {
  found = s.found;
  returned = s.returned;
  hit = s.hit;
  miss = λ h i r l u g. elim (Bool-cases (ltb i lo')) [
    | inl before ↦ out i r l u (inl (ground arith)) g
    | inr from ↦ elim (Bool-cases (ltb i hi')) [
      | inl inner ↦ s.miss h i r (ground arith) (ground arith) g
      | inr behind ↦ out i r l u (inr (ground arith)) g
    ]
  ];
}

search-Searched :
    (f : ℕ) (table : List CodePointRange) (cp lo hi : ℕ)
    → ascending_from 0 table ≡ true
    → hi ≤ length table
    → hi - lo < 2 ^ f
    → Searched table cp lo hi (search (suc f) table cp lo hi)
unfolding search
search-Searched zero table cp lo hi a le fits =
    search_empty-Searched 0 table cp lo hi (ground arith)
search-Searched (suc f) table cp lo hi a le fits = elim (Bool-cases (ltb lo hi)) [
  | inr empty ↦ search_empty-Searched (suc f) table cp lo hi empty
  | inl more ↦
      let mid = lo + (hi - lo) / 2 in
      let within = mid-lt lo hi more in
      let halves = halves-lt f lo hi more fits in
      let at = get-eq_some table mid (ground arith) in
      rw (more, search, at.1)
        (elim (Bool-cases (ltb at.0.1 cp)) [
          | inl above ↦ rw above (
              Searched-widen table cp lo hi (mid + 1) hi _
                (λ i r l v u g.
                  ranges_below-miss table cp mid i at.0 r a at.1 above (ground arith) g)
                (search-Searched f table cp (mid + 1) hi a le halves.0))
          | inr not_above ↦ rw not_above (elim (Bool-cases (ltb cp at.0.0)) [
            | inl below ↦ rw below (
                Searched-widen table cp lo hi lo mid _
                  (λ i r l v u g.
                    ranges_above-miss table cp mid i at.0 r a at.1 below (ground arith) g)
                  (search-Searched f table cp lo mid a (ground arith) halves.1))
            | inr inside ↦ rw inside (record {
              found = true;
              returned = refl;
              hit = λ h. in_some_range-get cp mid table at.0 at.1 (ground arith);
              miss = λ h. cc;
            })
          ])
        ])
]

Searched-found :
    {table : List CodePointRange} (cp : ℕ) (o : Option Bool)
    (s : Searched table cp 0 (length table) o)
    → s.found ≡ in_some_range cp table
Searched-found {table = table} cp o s = elim (Bool-cases s.found) [
  | inl hit_it ↦ hit_it ∙ sym (s.hit hit_it)
  | inr missed ↦
      missed
      ∙ sym (
          in_some_range-none cp table
            (λ i r g. s.miss missed i r (ground arith) (get-lt table i g) g))
]

symbol_letter_ranges-ascending : ascending_from 0 symbol_letter_ranges ≡ true
unfolding ascending_from symbol_letter_ranges
symbol_letter_ranges-ascending = refl

symbol_letter_ranges-length : length symbol_letter_ranges ≡ 781
unfolding symbol_letter_ranges
symbol_letter_ranges-length = refl

-- The binary search in the 781 ranges answers within ten probes, and as a walk through all of them
-- does, for every code point.
pub is_symbol_letter-in_some_range :
    (cp : ℕ)
    → (search 11 symbol_letter_ranges cp 0 (length symbol_letter_ranges)
        ≡ some (in_some_range cp symbol_letter_ranges))
      × (is_symbol_letter cp ≡ in_some_range cp symbol_letter_ranges)
unfolding is_symbol_letter
is_symbol_letter-in_some_range cp =
    let n = symbol_letter_ranges-length in
    let s =
      search-Searched 10 symbol_letter_ranges cp 0 (length symbol_letter_ranges)
        symbol_letter_ranges-ascending (ground arith) (ground arith) in
    let same = Searched-found cp _ s in (s.returned ∙ ap some same, rw s.returned same)
