-- ===== src/Metrics.antt =====
-- crates/callora-runtime/src/metrics.rs: the histograms of delays and the counters with a label. Each counter is a
-- word of 64 bits whose additions wrap around. The text that they are shown in is not modelled.
pub mod Counts
mod Tests
use callora.Base.{
  ℕ, ◌+◌, ◌%◌, ◌^◌, Option, none, some, List, [], ◌∷◌, String, if◌then◌else◌, leb, lookup, insert,
  replicate,
}

abbrev pub buckets_ms : List ℕ
buckets_ms =
    50 ∷ 100 ∷ 150 ∷ 200 ∷ 250 ∷ 300 ∷ 350 ∷ 450 ∷ 650 ∷ 900 ∷ 1300 ∷ 2000 ∷ 3500 ∷ 6000 ∷ []

pub record Histogram : Type 0 where
  pub buckets : List ℕ
  pub count : ℕ
  pub sum : ℕ

abbrev pub fetch_add : ℕ → ℕ → ℕ
fetch_add n m = (n + m) % 2 ^ 64

unfoldable pub no_observations : Histogram
no_observations = record { buckets = replicate 14 0; count = 0; sum = 0 }

-- The loop of `observe` over the buckets and their bounds.
abbrev pub bump : ℕ → List ℕ → List ℕ → List ℕ
bump ms [] buckets = buckets
bump ms (_ ∷ _) [] = []
bump ms (b ∷ bounds) (n ∷ buckets) =
    (if leb ms b then fetch_add n 1 else n) ∷ bump ms bounds buckets

unfoldable pub observe : Histogram → ℕ → Histogram
observe h ms = record {
  buckets = bump ms buckets_ms h.buckets;
  count = fetch_add h.count 1;
  sum = fetch_add h.sum ms;
}

abbrev pub or_zero : Option ℕ → ℕ
or_zero none = 0
or_zero (some n) = n

-- A counter split by one label.
abbrev pub LabeledCounter : Type 0
LabeledCounter = List (String × ℕ)

unfoldable pub get : LabeledCounter → String → ℕ
get c label = or_zero (lookup label c)

unfoldable pub inc : LabeledCounter → String → LabeledCounter
unfolding get
inc c label = insert label (fetch_add (get c label) 1) c
