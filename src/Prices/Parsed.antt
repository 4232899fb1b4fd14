-- ===== src/Prices/Parsed.antt =====
-- crates/callora-core/src/price_list.rs: every price list that is read can be quoted from.
use callora.Base.{
  ℕ, Bool, true, false, Option, none, some, List, [], ◌∷◌, ◌++◌, String, if◌then◌else◌, not, ◌&&◌,
  ◌||◌, is_some, all, any, find, ◌≡◌, refl, arith, Bool-cases, Option-cases, inl, inr, ◌∙◌, ap,
  subst,
}
use mathlib.Core.Option.{some-injective}
use callora.Prices.{
  Vehicle, Section, PriceList, Reader, Reading, is_empty, close, read, read_line, read_price,
  read_all, expected, parse, listed, blank, add_vehicle,
}
use callora.Prices.Quote.{
  Quoted, or_try, head, bind, named, section_for, quote, quote_in, quote_of, vehicle_for, largest,
  greatest, or_above, people_of, big_group,
}

abbrev has_vehicles : Section → Bool
has_vehicles s = not (is_empty s.vehicles)

abbrev Full : Reading → Type 0
Full r = all has_vehicles r.list.sections ≡ true

all-append :
    (xs : List Section) (s : Section)
    → all has_vehicles xs ≡ true
    → has_vehicles s ≡ true
    → all has_vehicles (xs ++ s ∷ []) ≡ true
all-append [] s h k = ground arith
all-append (x ∷ xs) s h k = ground (arith, all-append xs s (ground arith) k)

if-Full : (b : Bool) (x y : Reading) → Full x → Full y → Full (if b then x else y)
if-Full true x y h k = h
if-Full false x y h k = k

close-Full : (r : Reading) → Full r → Full (close r)
close-Full r h = elim (Bool-cases (is_empty r.current.vehicles)) [
  | inl e ↦ rw e h
  | inr e ↦ rw e (all-append r.list.sections r.current h (ap not e))
]

module _ (rd : Reader) where
  added-sections :
      (r : Reading) (line : String) (price : ℕ) (seats : Option ℕ)
      → (add_vehicle rd r line price seats).list.sections ≡ r.list.sections
  added-sections r line price none = refl
  added-sections r line price (some n) = refl

  priced-sections :
      (r : Reading) (line : String) (price : Option ℕ)
      → (read_price rd r line price).list.sections ≡ r.list.sections
  priced-sections r line none = refl
  priced-sections r line (some price) = elim (Bool-cases (rd.about_return line)) [
    | inl b ↦ rw b refl
    | inr b ↦ rw b (added-sections r line price (rd.seats line))
  ]

  read_line-Full : (r : Reading) (line : String) → Full r → Full (read_line rd r line)
  unfolding read_line
  read_line-Full r line h = elim (Bool-cases (rd.about_neighborhoods line)) [
    | inl n ↦ rw (read_line, n) (close-Full r h)
    | inr n ↦ elim (Bool-cases (rd.about_distance line)) [
      | inl d ↦ rw (read_line, n, d) h
      | inr d ↦ elim (Bool-cases (rd.about_duration line)) [
        | inl t ↦ rw (read_line, n, d, t) h
        | inr t ↦ elim (Bool-cases (rd.about_tier line)) [
          | inl k ↦ rw (read_line, n, d, t, k) h
          | inr k ↦
              rw (read_line, n, d, t, k)
                (ap (all has_vehicles) (priced-sections r line (rd.price line)) ∙ h)
        ]
      ]
    ]
  ]

  expected-Full : (r : Reading) (line : String) → Full r → Full (expected rd r line)
  expected-Full r line h =
      elim (Bool-cases
        (rd.has_slash line || (not (rd.names_seats line) && not (is_some (rd.price line))))) [
          | inl n ↦ rw n h
          | inr n ↦ rw n (read_line-Full (record r { expect_neighborhoods = false }) line h)
        ]

  read-Full : (r : Reading) (line : String) → Full r → Full (read rd r line)
  read-Full r line h =
      let read_on = if r.expect_neighborhoods then expected rd r line else read_line rd r line in
      if-Full (rd.empty line) r read_on h (
        if-Full r.expect_neighborhoods (expected rd r line) (read_line rd r line)
          (expected-Full r line h) (read_line-Full r line h))

  read_all-Full : (r : Reading) (lines : List String) → Full r → Full (read_all rd r lines)
  unfolding read_all
  read_all-Full r [] h = h
  read_all-Full r (l ∷ ls) h = read_all-Full (read rd r l) ls (read-Full r l h)

  find-has_vehicles :
      (p : Section → Bool) (xs : List Section) (s : Section)
      → all has_vehicles xs ≡ true
      → find p xs ≡ some s
      → has_vehicles s ≡ true
  find-has_vehicles p [] s h e = cc
  find-has_vehicles p (x ∷ xs) s h e = elim (Bool-cases (p x)) [
    | inl b ↦ ground (arith, b)
    | inr b ↦ find-has_vehicles p xs s (ground arith) (ground (arith, b))
  ]

  abbrev Quotable : Option Section → Type 0
  Quotable none = Unit
  Quotable (some s) = has_vehicles s ≡ true

  or_try-Quotable : (a b : Option Section) → Quotable a → Quotable b → Quotable (or_try a b)
  or_try-Quotable none b h k = k
  or_try-Quotable (some s) b h k = h

  find-Quotable :
      (p : Section → Bool) (xs : List Section) → all has_vehicles xs ≡ true → Quotable (find p xs)
  find-Quotable p xs h = elim (Option-cases (find p xs)) [
    | inl n ↦ rw (Quotable, n) tt
    | inr (s, n) ↦ rw (Quotable, n) (find-has_vehicles p xs s h n)
  ]

  head-Quotable : (xs : List Section) → all has_vehicles xs ≡ true → Quotable (head xs)
  head-Quotable [] h = tt
  head-Quotable (x ∷ xs) h = ground arith

  section_for-Quotable :
      (l : PriceList) (places : List String)
      → all has_vehicles l.sections ≡ true
      → Quotable (section_for rd l places)
  unfolding section_for
  section_for-Quotable l places h =
      let near : Section → Bool = λ s. any (named rd places) s.neighborhoods in
      let route : Section → Bool = λ s. is_empty s.neighborhoods in
      or_try-Quotable (find near l.sections) (or_try (find route l.sections) (head l.sections))
        (find-Quotable near l.sections h)
        (or_try-Quotable (find route l.sections) (head l.sections)
          (find-Quotable route l.sections h) (head-Quotable l.sections h))

  some-or_above : (v : Vehicle) (o : Option Vehicle) → is_some (or_above v o) ≡ true
  some-or_above v none = refl
  some-or_above v (some u) = refl

  some-greatest : (vs : List Vehicle) → not (is_empty vs) ≡ true → is_some (greatest vs) ≡ true
  unfolding greatest
  some-greatest [] h = cc
  some-greatest (v ∷ vs) h = some-or_above v (greatest vs)

  some-bind :
      (o : Option Vehicle) (f : Vehicle → Quoted)
      → is_some o ≡ true
      → is_some (bind o (λ v. some (f v))) ≡ true
  some-bind none f h = cc
  some-bind (some v) f h = refl

  quote_of-some :
      (l : PriceList) (s : Section) (p : Option ℕ) (round_trip : Bool) (car : Option Vehicle)
      → has_vehicles s ≡ true
      → is_some (quote_of l s p round_trip car) ≡ true
  unfolding largest
  quote_of-some l s p round_trip (some car) h = refl
  quote_of-some l s p round_trip none h =
      some-bind (greatest s.vehicles) (big_group l s) (some-greatest s.vehicles h)

  Quotable-quote :
      (l : PriceList) (p : Option ℕ) (round_trip : Bool) (o : Option Section)
      → Quotable o
      → is_some o ≡ true
      → is_some (bind o (λ s. quote_in l s p round_trip)) ≡ true
  unfolding quote_in
  Quotable-quote l p round_trip none h k = cc
  Quotable-quote l p round_trip (some s) h k =
      quote_of-some l s p round_trip (vehicle_for s (people_of p)) h

  or_try-head :
      (a b : Option Section) (xs : List Section)
      → not (is_empty xs) ≡ true
      → is_some (or_try a (or_try b (head xs))) ≡ true
  or_try-head none none [] h = cc
  or_try-head none none (x ∷ xs) h = refl
  or_try-head none (some b) xs h = refl
  or_try-head (some a) b xs h = refl

  listed-by :
      (l0 l : PriceList) (b : Bool)
      → is_empty l0.sections ≡ b
      → (if b then none else some l0) ≡ some l
      → all has_vehicles l0.sections ≡ true
      → (all has_vehicles l.sections ≡ true) × (not (is_empty l.sections) ≡ true)
  listed-by l0 l true b e h = cc
  listed-by l0 l false b e h =
      subst (λ l. (all has_vehicles l.sections ≡ true) × (not (is_empty l.sections) ≡ true))
        (some-injective l0 l e) (h, ap not b)

  -- From a price list that was read, every ride gets a quote: for any number of passengers or none, one way
  -- or there and back, and whatever places it goes to.
  pub quote-parse :
      (lines : List String) (l : PriceList) (passengers : Option ℕ) (round_trip : Bool)
      (places : List String)
      → parse rd lines ≡ some l
      → is_some (quote rd l passengers round_trip places) ≡ true
  unfolding parse quote section_for
  quote-parse lines l passengers round_trip places e =
      let last = close (read_all rd (blank rd) lines) in
      let (full, listed) =
        listed-by last.list l (is_empty last.list.sections) refl e
          (close-Full (read_all rd (blank rd) lines) (read_all-Full (blank rd) lines refl)) in
      Quotable-quote l passengers round_trip (section_for rd l places)
        (section_for-Quotable l places full) (or_try-head _ _ l.sections listed)
