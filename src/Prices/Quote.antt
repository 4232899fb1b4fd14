-- ===== src/Prices/Quote.antt =====
-- crates/callora-core/src/price_list.rs: the quote for one ride.
use Prim.Native.String.{◌++◌ as str_append}
use callora.Base.{
  ℕ, max, Bool, true, false, Option, none, some, List, [], ◌∷◌, String, if◌then◌else◌, not, ◌&&◌,
  ◌||◌, ltb, leb, ◌==◌, any, find, retain, str_eq,
}
use callora.Prices.{Vehicle, Section, PriceList, Reader, is_empty}

-- The JSON object that `quote` answers; an absent key is `none`.
pub record Quoted : Type 0 where
  pub price : ℕ
  pub vehicle : String
  pub seats : ℕ
  pub neighborhood : Bool
  pub distance_km : Option ℕ
  pub duration : Option String
  pub tier : Option String
  pub more_than_one_car : Bool
  pub round_trip : Option ℕ
  pub price_6 : Option ℕ
  pub response : String

-- `(roomy, one_way)` is less.
abbrev pub plainer : Vehicle → Vehicle → Bool
plainer a b =
    (not a.roomy && b.roomy)
    || (not (a.roomy && not b.roomy) && not (not a.roomy && b.roomy) && ltb a.one_way b.one_way)

-- `(seats, roomy, one_way)` is less.
abbrev pub before : Vehicle → Vehicle → Bool
before a b = ltb a.seats b.seats || (a.seats == b.seats && plainer a b)

-- `(seats, Reverse((roomy, one_way)))` is greater.
abbrev pub above : Vehicle → Vehicle → Bool
above a b = ltb b.seats a.seats || (a.seats == b.seats && plainer a b)

abbrev pub or_before : Vehicle → Option Vehicle → Option Vehicle
or_before v none = some v
or_before v (some u) = some (if before u v then u else v)

-- Rust's `min_by_key`: the first of the least.
unfoldable pub least : List Vehicle → Option Vehicle
least [] = none
least (v ∷ vs) = or_before v (least vs)

abbrev pub or_above : Vehicle → Option Vehicle → Option Vehicle
or_above v none = some v
or_above v (some u) = some (if above v u then v else u)

-- Rust's `max_by_key`: the last of the greatest.
unfoldable pub greatest : List Vehicle → Option Vehicle
greatest [] = none
greatest (v ∷ vs) = or_above v (greatest vs)

-- The smallest car that seats `people`, the ordinary one before the roomy one.
unfoldable pub vehicle_for : Section → ℕ → Option Vehicle
unfolding least
vehicle_for s people = least (retain (λ v. leb people v.seats) s.vehicles)

unfoldable pub largest : Section → Option Vehicle
unfolding greatest
largest s = greatest s.vehicles

abbrev pub or_try {ℓ} : {A : Type ℓ} → Option A → Option A → Option A
or_try none b = b
or_try (some a) b = some a

abbrev pub head : List Section → Option Section
head [] = none
head (s ∷ _) = some s

abbrev pub bind {ℓ κ} : {A : Type ℓ} {B : Type κ} → Option A → (A → Option B) → Option B
bind none f = none
bind (some a) f = f a

abbrev six_more : Vehicle → Option Vehicle → Option ℕ
six_more car none = none
six_more car (some six) = if ltb car.seats six.seats then some six.one_way else none

abbrev padded : String → String
padded s = str_append " " (str_append s " ")

abbrev pub people_of : Option ℕ → ℕ
people_of none = 1
people_of (some n) = max n 1

abbrev pub big_group : PriceList → Section → Vehicle → Quoted
big_group l s big = record {
  price = big.one_way;
  vehicle = big.label;
  seats = big.seats;
  neighborhood = not (is_empty s.neighborhoods);
  distance_km = l.distance_km;
  duration = none;
  tier = l.tier;
  more_than_one_car = true;
  round_trip = none;
  price_6 = none;
  response = "price_answer_big_group";
}

abbrev one_price : PriceList → Section → Vehicle → Quoted
one_price l s car = record {
  price = car.one_way;
  vehicle = car.label;
  seats = car.seats;
  neighborhood = not (is_empty s.neighborhoods);
  distance_km = l.distance_km;
  duration = l.duration;
  tier = l.tier;
  more_than_one_car = false;
  round_trip = none;
  price_6 = none;
  response = "price_answer";
}

abbrev by_size : Quoted → Option ℕ → Option ℕ → Quoted
by_size q none (some p) = record q { price_6 = some p; response = "price_answer_sizes" }
by_size q none none = q
by_size q (some _) six = q

abbrev both_ways : Bool → Option ℕ → Option ℕ
both_ways false back = none
both_ways true back = back

abbrev pub car_quote : PriceList → Section → Option ℕ → Bool → Vehicle → Quoted
car_quote l s passengers round_trip car = elim (both_ways round_trip car.round_trip) [
  | some both ↦ record (one_price l s car) {
    round_trip = some both;
    response = "price_answer_round_trip";
  }
  | none ↦ by_size (one_price l s car) passengers (six_more car (vehicle_for s 6))
]

abbrev pub quote_of : PriceList → Section → Option ℕ → Bool → Option Vehicle → Option Quoted
quote_of l s passengers round_trip (some car) = some (car_quote l s passengers round_trip car)
quote_of l s passengers round_trip none = bind (largest s) (λ big. some (big_group l s big))

-- The quote in one section.
unfoldable pub quote_in : PriceList → Section → Option ℕ → Bool → Option Quoted
unfolding vehicle_for largest
quote_in l s passengers round_trip =
    quote_of l s passengers round_trip (vehicle_for s (people_of passengers))

module _ (rd : Reader) where
  abbrev pub named : List String → String → Bool
  named places n =
      not (str_eq (rd.normalize n) "")
      && any (λ p. rd.contains (padded (rd.normalize p)) (padded (rd.normalize n))) places

  -- The prices of a neighbourhood that is named, or of the route; without sections the source stops.
  unfoldable pub section_for : PriceList → List String → Option Section
  section_for l places =
      or_try (find (λ s. any (named places) s.neighborhoods) l.sections)
        (or_try (find (λ s. is_empty s.neighborhoods) l.sections) (head l.sections))

  unfoldable pub quote : PriceList → Option ℕ → Bool → List String → Option Quoted
  unfolding section_for quote_in
  quote l passengers round_trip places =
      bind (section_for l places) (λ s. quote_in l s passengers round_trip)
