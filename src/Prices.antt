-- ===== src/Prices.antt =====
-- crates/callora-core/src/price_list.rs: a price bot's reply, read into prices, and the quote for one ride. What
-- the regular expressions and the words of a line say is a parameter (`Reader`).
pub mod Quote
pub mod Smallest
pub mod Parsed
mod Tests
use callora.Base.{
  ℕ, Bool, true, false, Option, none, some, List, [], ◌∷◌, ◌++◌, String, if◌then◌else◌, not, ◌&&◌,
  ◌||◌, is_some,
}

pub record Vehicle : Type 0 where
  pub label : String
  pub seats : ℕ
  pub roomy : Bool
  pub one_way : ℕ
  pub round_trip : Option ℕ

pub record Section : Type 0 where
  pub neighborhoods : List String
  pub vehicles : List Vehicle

pub record PriceList : Type 0 where
  pub distance_km : Option ℕ
  pub duration : Option String
  pub tier : Option String
  pub sections : List Section

-- A trimmed line: whether it is empty, what it names, its price, seats and kilometres, and its parts.
pub record Reader : Type 0 where
  pub empty : String → Bool
  pub has_slash : String → Bool
  pub names_seats : String → Bool
  pub seats : String → Option ℕ
  pub price : String → Option ℕ
  pub kilometres : String → Option ℕ
  pub about_neighborhoods : String → Bool
  pub about_distance : String → Bool
  pub about_duration : String → Bool
  pub about_tier : String → Bool
  pub about_return : String → Bool
  pub about_roomy : String → Bool
  pub split : String → List String
  pub value_after_dash : String → Option String
  pub label : String → String
  pub normalize : String → String
  pub contains : String → String → Bool

abbrev pub no_vehicles : Section
no_vehicles = record { neighborhoods = []; vehicles = [] }

abbrev pub is_empty {ℓ} : {A : Type ℓ} → List A → Bool
is_empty [] = true
is_empty (_ ∷ _) = false

-- The variables of `parse`.
pub record Reading : Type 0 where
  pub list : PriceList
  pub current : Section
  pub expect_neighborhoods : Bool

abbrev get_or_insert : Option ℕ → ℕ → Option ℕ
get_or_insert none n = some n
get_or_insert (some m) n = some m

-- `last_mut` and `get_or_insert`.
unfoldable pub price_back : List Vehicle → ℕ → List Vehicle
price_back [] price = []
price_back (v ∷ []) price = record v { round_trip = get_or_insert v.round_trip price } ∷ []
price_back (v ∷ u ∷ us) price = v ∷ price_back (u ∷ us) price

abbrev pub with_vehicles : Reading → List Vehicle → Reading
with_vehicles r vs = record r { current = record (r.current) { vehicles = vs } }

abbrev pub with_list : Reading → PriceList → Reading
with_list r l = record r { list = l }

-- A section that has vehicles is closed.
abbrev pub close : Reading → Reading
close r = if is_empty r.current.vehicles then r else record r {
  list = record (r.list) { sections = r.list.sections ++ r.current ∷ [] };
  current = no_vehicles;
}

module _ (rd : Reader) where
  abbrev pub add_vehicle : Reading → String → ℕ → Option ℕ → Reading
  add_vehicle r line price none = r
  add_vehicle r line price (some seats) = with_vehicles r (
      r.current.vehicles
      ++ record {
        label = rd.label line;
        seats = seats;
        roomy = rd.about_roomy line;
        one_way = price;
        round_trip = none;
      }
        ∷ [])

  abbrev pub read_price : Reading → String → Option ℕ → Reading
  read_price r line none = r
  read_price r line (some price) =
      if rd.about_return line
      then with_vehicles r (price_back r.current.vehicles price)
      else add_vehicle r line price (rd.seats line)

  unfoldable pub read_line : Reading → String → Reading
  unfolding price_back
  read_line r line =
      if rd.about_neighborhoods line
      then record (close r) { expect_neighborhoods = true }
      else if rd.about_distance line
      then with_list r (record (r.list) { distance_km = rd.kilometres line })
      else if rd.about_duration line
      then with_list r (record (r.list) { duration = rd.value_after_dash line })
      else if rd.about_tier line
      then with_list r (record (r.list) { tier = rd.value_after_dash line })
      else read_price r line (rd.price line)

  abbrev pub expected : Reading → String → Reading
  expected r line =
      let r1 = record r { expect_neighborhoods = false } in
      if rd.has_slash line || (not (rd.names_seats line) && not (is_some (rd.price line)))
      then record r1 { current = record (r1.current) { neighborhoods = rd.split line } }
      else read_line r1 line

  abbrev pub read : Reading → String → Reading
  read r line =
      if rd.empty line
      then r
      else if r.expect_neighborhoods
      then expected r line
      else read_line r line

  unfoldable pub read_all : Reading → List String → Reading
  unfolding read_line
  read_all r [] = r
  read_all r (l ∷ ls) = read_all (read r l) ls

  abbrev pub blank : Reading
  blank = record {
    list = record { distance_km = none; duration = none; tier = none; sections = [] };
    current = no_vehicles;
    expect_neighborhoods = false;
  }

  abbrev pub listed : PriceList → Option PriceList
  listed l = if is_empty l.sections then none else some l

  -- The price list in a bot's reply, given its trimmed lines.
  unfoldable pub parse : List String → Option PriceList
  unfolding read_all
  parse lines = listed (close (read_all blank lines)).list
