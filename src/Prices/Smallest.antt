-- ===== src/Prices/Smallest.antt =====
-- crates/callora-core/src/price_list.rs: the car that is quoted is the smallest that seats everyone.
use callora.Base.{
  ℕ, suc, Bool, true, false, Option, none, some, List, [], ◌∷◌, if◌then◌else◌, not, ◌&&◌, ◌||◌, leb,
  ltb, ◌==◌, all, retain, get_elem?, ◌≡◌, refl, arith, Bool-cases, inl, inr, ap,
}
use callora.Prices.{Vehicle, Section}
use callora.Prices.Quote.{before, or_before, least, vehicle_for}

before_asymmetric : (u v : Vehicle) → before u v ≡ true → not (before v u) ≡ true
before_asymmetric u v h = ground arith

before_negatively_transitive :
    (x u v : Vehicle) → not (before x u) ≡ true → not (before u v) ≡ true → not (before x v) ≡ true
before_negatively_transitive x u v h k = ground arith

abbrev pub seats_all : ℕ → Vehicle → Bool
seats_all people v = leb people v.seats

abbrev pub Among : List Vehicle → Vehicle → Type 0
Among vs v = (i : ℕ) × (get_elem? vs i ≡ some v)

-- No vehicle seats so many; or this one does, and none that does comes before it.
abbrev Least : List Vehicle → ℕ → Option Vehicle → Type 0
Least vs people none = all (λ v. not (seats_all people v)) vs ≡ true
Least vs people (some v) =
    (seats_all people v ≡ true)
    × (all (λ u. not (seats_all people u) || not (before u v)) vs ≡ true)
    × Among vs v

all-after :
    (people : ℕ) (u v : Vehicle) (vs : List Vehicle)
    → not (before u v) ≡ true
    → all (λ x. not (seats_all people x) || not (before x u)) vs ≡ true
    → all (λ x. not (seats_all people x) || not (before x v)) vs ≡ true
all-after people u v [] h k = refl
all-after people u v (x ∷ vs) h k = elim (Bool-cases (not (seats_all people x))) [
  | inl s ↦ rw s (all-after people u v vs h (ground arith))
  | inr s ↦
      rw (s, before_negatively_transitive x u v (ground arith) h)
        (all-after people u v vs h (ground arith))
]

all-none :
    (people : ℕ) (v : Vehicle) (vs : List Vehicle)
    → all (λ x. not (seats_all people x)) vs ≡ true
    → all (λ x. not (seats_all people x) || not (before x v)) vs ≡ true
all-none people v [] h = refl
all-none people v (x ∷ vs) h = ground (arith, all-none people v vs (ground arith))

and_true : (a b : Bool) → a ≡ true → b ≡ true → a && b ≡ true
and_true a b h k = ground arith

or_true : (a b : Bool) → b ≡ true → a || b ≡ true
or_true a b h = ground arith

before_irreflexive : (v : Vehicle) → not (before v v) ≡ true
before_irreflexive v = ground arith

chosen-Least :
    (people : ℕ) (u v : Vehicle) (vs : List Vehicle) (b : Bool)
    → before u v ≡ b
    → seats_all people v ≡ true
    → Least vs people (some u)
    → Least (v ∷ vs) people (some (if b then u else v))
chosen-Least people u v vs true b s (t, k, (i, e)) =
    (t, and_true _ _ (or_true _ _ (before_asymmetric u v b)) k, (suc i, e))
chosen-Least people u v vs false b s (t, k, (i, e)) = (
  s,
  and_true _ _ (or_true _ _ (before_irreflexive v)) (all-after people u v vs (ap not b) k),
  (0, refl),
)

-- One more vehicle that seats everyone.
more-Least :
    (people : ℕ) (v : Vehicle) (vs : List Vehicle) (o : Option Vehicle)
    → seats_all people v ≡ true
    → Least vs people o
    → Least (v ∷ vs) people (or_before v o)
more-Least people v vs none s h =
    (s, and_true _ _ (or_true _ _ (before_irreflexive v)) (all-none people v vs h), (0, refl))
more-Least people v vs (some u) s h = chosen-Least people u v vs (before u v) refl s h

-- One more that does not.
other-Least :
    (people : ℕ) (v : Vehicle) (vs : List Vehicle) (o : Option Vehicle)
    → seats_all people v ≡ false
    → Least vs people o
    → Least (v ∷ vs) people o
other-Least people v vs none s h = and_true _ _ (ap not s) h
other-Least people v vs (some u) s (t, k, (i, e)) =
    (t, and_true _ _ (ap (λ b. not b || not (before v u)) s) k, (suc i, e))

least-Least :
    (vs : List Vehicle) (people : ℕ) → Least vs people (least (retain (seats_all people) vs))
unfolding least
least-Least [] people = refl
least-Least (v ∷ vs) people = elim (Bool-cases (seats_all people v)) [
  | inl s ↦
      rw s (more-Least people v vs (least (retain (seats_all people) vs)) s (least-Least vs people))
  | inr s ↦
      rw s
        (other-Least people v vs (least (retain (seats_all people) vs)) s (least-Least vs people))
]

-- The car `u` has more seats than `v`, or as many and is roomy where `v` is ordinary, or is as roomy and no
-- cheaper.
abbrev pub no_better : Vehicle → Vehicle → Bool
no_better v u =
    ltb v.seats u.seats
    || (v.seats == u.seats
        && ((not v.roomy && u.roomy) || (not (v.roomy && not u.roomy) && leb v.one_way u.one_way)))

abbrev pub Smallest : List Vehicle → ℕ → Option Vehicle → Type 0
Smallest vs people none = all (λ u. not (leb people u.seats)) vs ≡ true
Smallest vs people (some v) =
    (leb people v.seats ≡ true)
    × (all (λ u. not (leb people u.seats) || no_better v u) vs ≡ true)
    × Among vs v

before-no_better : (u v : Vehicle) → not (before u v) ≡ true → no_better v u ≡ true
before-no_better u v h = ground arith

all-no_better :
    (people : ℕ) (v : Vehicle) (vs : List Vehicle)
    → all (λ u. not (seats_all people u) || not (before u v)) vs ≡ true
    → all (λ u. not (leb people u.seats) || no_better v u) vs ≡ true
all-no_better people v [] h = refl
all-no_better people v (u ∷ vs) h =
    ground (arith, before-no_better u v, all-no_better people v vs (ground arith))

Least-Smallest :
    (vs : List Vehicle) (people : ℕ) (o : Option Vehicle) → Least vs people o → Smallest vs people o
Least-Smallest vs people none h = h
Least-Smallest vs people (some v) (s, k, m) = (s, all-no_better people v vs k, m)

-- The car for a number of people is one of the section's that seats them, and each other that seats them has
-- more seats, or as many and is roomy where it is ordinary, or is as roomy and no cheaper; there is none
-- only when no car seats them.
pub vehicle_for-Smallest :
    (s : Section) (people : ℕ) → Smallest s.vehicles people (vehicle_for s people)
unfolding vehicle_for
vehicle_for-Smallest s people = Least-Smallest s.vehicles people _ (least-Least s.vehicles people)
