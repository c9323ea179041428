-- ===== src/Runtime/Actors/Counts.antt =====
-- runtime/ActorScheduler.cpp: how often an actor is held, on a ready stack or by the calls of the
-- threads.
use proto_scala.Common.{
  ℕ, zero, suc, ◌+◌, ◌<◌, ◌≤◌, ◌≡◌, ◌≢◌, refl, ltb, ◌==◌, if◌then◌else◌, count, List, [], ◌∷◌, ◌++◌,
  arith,
}
use proto_scala.Runtime.Actors.State.{at_band}
use proto_scala.Runtime.Actors.Moves.{
  Pc, send_loop, send_saw, enqueueing, checking, releasing, Frame, frames, Effect, keep, pushes,
  pops, Applied, idle_threads,
}

-- A call that owns its actor's turn, or is about to queue the actor.
abbrev pub holds : Pc → ℕ
holds (send_loop b) = 0
holds (send_saw b s) = 0
holds Pc.resume_loop = 0
holds (Pc.resume_saw s) = 0
holds _ = 1

-- A call of `send` that has queued its message and has not yet seen the actor claimed.
abbrev pub in_flight : Pc → ℕ
in_flight (send_loop b) = 1
in_flight (send_saw b s) = 1
in_flight _ = 0

-- A call of `finishTurn` that has found band `c` empty.
abbrev pub passed : ℕ → Pc → ℕ
passed c (checking b) = if ltb c b then 1 else 0
passed c releasing = 1
passed c _ = 0

pub in_flight-le : (p : Pc) → in_flight p ≤ 1
in_flight-le (send_loop b) = omega arith
in_flight-le p = omega arith

pub holds-le : (p : Pc) → holds p ≤ 1
holds-le (send_loop b) = omega arith
holds-le p = omega arith

pub passed-le-holds : (c : ℕ) (p : Pc) → passed c p ≤ holds p
passed-le-holds c (checking b) = ground arith
passed-le-holds c releasing = omega arith
passed-le-holds c p = omega arith

-- A call with a band that is none of the three.
abbrev pub off_band : Pc → ℕ
off_band (send_loop b) = if ltb b 3 then 0 else 1
off_band (send_saw b s) = if ltb b 3 then 0 else 1
off_band (enqueueing b) = if ltb b 3 then 0 else 1
off_band _ = 0

-- The sum of `f` over calls.
abbrev pub sum_pcs : (Pc → ℕ) → List Pc → ℕ
sum_pcs f [] = 0
sum_pcs f (p ∷ ps) = f p + sum_pcs f ps

-- The sum of `f` over the calls on actor `a`.
abbrev pub sum_frames : (Pc → ℕ) → ℕ → List Frame → ℕ
sum_frames f a [] = 0
sum_frames f a (r ∷ rs) = (if r.actor == a then f r.pc else 0) + sum_frames f a rs

abbrev pub total : (Pc → ℕ) → ℕ → List (List Frame) → ℕ
total f a [] = 0
total f a (t ∷ ts) = sum_frames f a t + total f a ts

total-append :
    (f : Pc → ℕ) (a : ℕ) (ts us : List (List Frame))
    → total f a (ts ++ us) ≡ total f a ts + total f a us
total-append f a [] us = omega arith
total-append f a (t ∷ ts) us = omega (arith, total-append f a ts us)

sum_frames_self :
    (f : Pc → ℕ) (a : ℕ) (ps : List Pc) (under : List Frame)
    → sum_frames f a (frames a ps ++ under) ≡ sum_pcs f ps + sum_frames f a under
sum_frames_self f a [] under = omega arith
sum_frames_self f a (p ∷ ps) under = ground (arith, sum_frames_self f a ps under)

sum_frames_other :
    (f : Pc → ℕ) (a c : ℕ) (ps : List Pc) (under : List Frame)
    → a ≢ c
    → sum_frames f c (frames a ps ++ under) ≡ sum_frames f c under
sum_frames_other f a c [] under ne = refl
sum_frames_other f a c (p ∷ ps) under ne = ground (arith, sum_frames_other f a c ps under)

-- What the calls that a move leaves alone come to.
abbrev pub rest : (Pc → ℕ) → ℕ → List (List Frame) → List Frame → List (List Frame) → ℕ
rest f a before under after = total f a before + sum_frames f a under + total f a after

pub total_self :
    (f : Pc → ℕ) (a : ℕ) (before after : List (List Frame)) (under : List Frame) (ps : List Pc)
    → total f a (before ++ (frames a ps ++ under) ∷ after)
      ≡ sum_pcs f ps + rest f a before under after
total_self f a before after under ps =
    omega (
      arith,
      total-append f a before ((frames a ps ++ under) ∷ after),
      sum_frames_self f a ps under,
    )

pub total_other :
    (f : Pc → ℕ) (a c : ℕ) (before after : List (List Frame)) (under : List Frame) (ps : List Pc)
    → a ≢ c
    → total f c (before ++ (frames a ps ++ under) ∷ after) ≡ rest f c before under after
total_other f a c before after under ps ne = omega (
  arith,
  total-append f c before ((frames a ps ++ under) ∷ after),
  sum_frames_other f a c ps under ne,
)

sum_frames-le :
    (f g : Pc → ℕ) (a : ℕ) (rs : List Frame)
    → ((p : Pc) → f p ≤ g p)
    → sum_frames f a rs ≤ sum_frames g a rs
sum_frames-le f g a [] le = omega arith
sum_frames-le f g a (r ∷ rs) le = ground (arith, le r.pc, sum_frames-le f g a rs le)

pub total-le :
    (f g : Pc → ℕ) (a : ℕ) (ts : List (List Frame))
    → ((p : Pc) → f p ≤ g p)
    → total f a ts ≤ total g a ts
total-le f g a [] le = omega arith
total-le f g a (t ∷ ts) le = omega (arith, sum_frames-le f g a t le, total-le f g a ts le)

pub rest-le :
    (f g : Pc → ℕ) (a : ℕ) (before after : List (List Frame)) (under : List Frame)
    → ((p : Pc) → f p ≤ g p)
    → rest f a before under after ≤ rest g a before under after
rest-le f g a before after under le =
    omega (arith, total-le f g a before le, sum_frames-le f g a under le, total-le f g a after le)

pub total-idle : (f : Pc → ℕ) (a n : ℕ) → total f a (idle_threads n) ≡ 0
total-idle f a zero = refl
total-idle f a (suc n) = omega (arith, total-idle f a n)

-- How often an actor stands on the ready stacks.
abbrev pub queued : ℕ → (ℕ → List ℕ) → ℕ
queued a ready = count a (ready 0) + count a (ready 1) + count a (ready 2)

abbrev pub pushed : Effect → ℕ
pushed (pushes b) = 1
pushed _ = 0

abbrev pub popped : Effect → ℕ
popped (pops b) = 1
popped _ = 0

abbrev pub OnBand : Effect → Type 0
OnBand keep = Unit
OnBand (pushes b) = b < 3
OnBand (pops b) = b < 3

count-at_band :
    (a c b : ℕ) (r : ℕ → List ℕ)
    → b < 3
    → queued c (at_band b (a ∷ r b) r) ≡ (if a == c then 1 else 0) + queued c r
count-at_band a c zero r lt = omega arith
count-at_band a c (suc zero) r lt = omega arith
count-at_band a c (suc (suc zero)) r lt = omega arith
count-at_band a c (suc (suc (suc b))) r lt = absurd (omega arith)

-- An effect moves the actor that it is on, and no other.
pub queued-effect :
    (a c : ℕ) (e : Effect) (r r' : ℕ → List ℕ)
    → OnBand e
    → Applied e a r r'
    → queued c r' + (if a == c then popped e else 0) ≡ queued c r + (if a == c then pushed e else 0)
queued-effect a c keep r r' lt h = rw h (ground arith)
queued-effect a c (pushes b) r r' lt h = rw h (ground (arith, count-at_band a c b r lt))
queued-effect a c (pops b) r r' lt h = rw h (ground (arith, count-at_band a c b r' lt))

-- The entries of the ready stacks that a move leaves alone.
pub effect-balance :
    (e : Effect) (a : ℕ) (r r' : ℕ → List ℕ)
    → OnBand e
    → Applied e a r r'
    → (n : ℕ) × (queued a r ≡ popped e + n) × (queued a r' ≡ pushed e + n)
effect-balance keep a r r' l h =
    (queued a r, omega arith, ground (arith, queued-effect a a keep r r' l h))
effect-balance (pushes b) a r r' l h =
    (queued a r, omega arith, ground (arith, queued-effect a a (pushes b) r r' l h))
effect-balance (pops b) a r r' l h =
    (queued a r', ground (arith, queued-effect a a (pops b) r r' l h), omega arith)
