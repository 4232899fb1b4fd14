-- ===== src/Prices/Tests.antt =====
-- A small reply, for the theorems on the price list.
use callora.Base.{
  ℕ, true, false, none, some, [], ◌∷◌, String, str_eq, is_some, ◌≡◌, refl, if◌then◌else◌,
}
use callora.Prices.{Reader, Vehicle, Section, PriceList, parse}
use callora.Prices.Quote.{quote, vehicle_for}
use callora.Prices.Smallest.{Smallest, vehicle_for-Smallest}
use callora.Prices.Parsed.{quote-parse}

-- A reader of the lines "four" and "six".
abbrev by_name : Reader
by_name = record {
  empty = λ l. str_eq l "";
  has_slash = λ l. false;
  names_seats = λ l. true;
  seats = λ l. if str_eq l "four" then some 4 else if str_eq l "six" then some 6 else none;
  price = λ l. if str_eq l "four" then some 220 else some 300;
  kilometres = λ l. none;
  about_neighborhoods = λ l. false;
  about_distance = λ l. false;
  about_duration = λ l. false;
  about_tier = λ l. false;
  about_return = λ l. false;
  about_roomy = λ l. false;
  split = λ l. [];
  value_after_dash = λ l. none;
  label = λ l. l;
  normalize = λ l. l;
  contains = λ a b. false;
}

abbrev car : String → ℕ → ℕ → Vehicle
car label seats price = record {
  label = label;
  seats = seats;
  roomy = false;
  one_way = price;
  round_trip = none;
}

abbrev route : Section
route = record { neighborhoods = []; vehicles = car "four" 4 220 ∷ car "six" 6 300 ∷ [] }

abbrev list : PriceList
list = record { distance_km = none; duration = none; tier = none; sections = route ∷ [] }

-- Five people go in the car of six.
five : vehicle_for route 5 ≡ some (car "six" 6 300)
unfolding vehicle_for
five = refl

-- The ordinary car of the same size goes before the roomy one, though it is dearer.
ordinary :
    vehicle_for
      (record {
        neighborhoods = [];
        vehicles = record (car "wide" 6 200) { roomy = true } ∷ car "six" 6 300 ∷ [];
      })
      5
    ≡ some (car "six" 6 300)
unfolding vehicle_for
ordinary = refl

vehicle_for-Smallest_example : Smallest route.vehicles 5 (vehicle_for route 5)
vehicle_for-Smallest_example = vehicle_for-Smallest route 5

quote-parse_example : is_some (quote by_name list (some 12) false []) ≡ true
quote-parse_example =
    quote-parse by_name ("four" ∷ "six" ∷ []) list (some 12) false [] (unfold parse in refl)
