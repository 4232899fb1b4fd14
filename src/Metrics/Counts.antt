-- ===== src/Metrics/Counts.antt =====
-- crates/callora-runtime/src/metrics.rs: what the histograms and the counters hold after any observations.
use callora.Base.{
  ℕ, ◌+◌, ◌%◌, ◌^◌, ◌≡◌, refl, arith, suc, List, [], ◌∷◌, String, str_eq, if◌then◌else◌, leb, map,
  length, lookup-insert, eq_iff,
}
use callora.Metrics.{
  buckets_ms, Histogram, fetch_add, bump, observe, no_observations, get, inc, LabeledCounter,
}

-- The values observed, the last one first.
abbrev pub observed : List ℕ → Histogram
observed [] = no_observations
observed (ms ∷ values) = observe (observed values) ms

abbrev pub at_most : ℕ → List ℕ → ℕ
at_most b [] = 0
at_most b (ms ∷ values) = if leb ms b then 1 + at_most b values else at_most b values

abbrev pub total : List ℕ → ℕ
total [] = 0
total (ms ∷ values) = ms + total values

add_again : (n m : ℕ) → fetch_add (n % 2 ^ 64) m ≡ (m + n) % 2 ^ 64
add_again n m = omega arith

add_one : (n : ℕ) → fetch_add (n % 2 ^ 64) 1 ≡ suc n % 2 ^ 64
add_one n = omega arith

abbrev shares : List ℕ → List ℕ → List ℕ
shares bounds values = map (λ b. at_most b values % 2 ^ 64) bounds

bump-shares :
    (ms : ℕ) (bounds values : List ℕ)
    → bump ms bounds (shares bounds values) ≡ shares bounds (ms ∷ values)
bump-shares ms [] values = refl
bump-shares ms (b ∷ bounds) values =
    ground (arith, bump-shares ms bounds values, add_again (at_most b values) 1)

-- After any values, each bucket holds how many of them are at most its bound, the counter how many there
-- are, and the sum their sum, each up to the wrap-around of 64 bits.
pub observed-counts :
    (values : List ℕ)
    → observed values ≡ record {
      buckets = map (λ b. at_most b values % 2 ^ 64) buckets_ms;
      count = length values % 2 ^ 64;
      sum = total values % 2 ^ 64;
    }
unfolding observe no_observations
observed-counts [] = refl
observed-counts (ms ∷ values) =
    rw
      (
        observed-counts values,
        bump-shares ms buckets_ms values,
        add_one (length values),
        add_again (total values) ms,
      )
      refl

-- The counter after a label was counted for each of `labels`, the last one first.
abbrev pub labelled : List String → LabeledCounter
labelled [] = []
labelled (l ∷ labels) = inc (labelled labels) l

abbrev pub occurrences : String → List String → ℕ
occurrences l [] = 0
occurrences l (k ∷ labels) = if str_eq k l then 1 + occurrences l labels else occurrences l labels

-- A label is shown with the number of times it was counted, whatever other labels were, up to the
-- wrap-around of 64 bits.
pub get-labelled :
    (labels : List String) (l : String) → get (labelled labels) l ≡ occurrences l labels % 2 ^ 64
unfolding get inc
get-labelled [] l = refl
get-labelled (k ∷ labels) l =
    rw (lookup-insert k l (fetch_add (get (labelled labels) k) 1) (labelled labels)) (
      ground (
        arith,
        eq_iff k l,
        get-labelled labels k,
        get-labelled labels l,
        add_again (occurrences l labels) 1,
      ))
