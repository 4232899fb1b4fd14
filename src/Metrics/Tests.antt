-- ===== src/Metrics/Tests.antt =====
-- A few delays and labels.
use callora.Base.{◌%◌, ◌^◌, [], ◌∷◌, ◌≡◌, List, ℕ, map, length}
use callora.Metrics.{buckets_ms}
use callora.Metrics.Counts.{observed, at_most, total, observed-counts}

abbrev delays : List ℕ
delays = 7000 ∷ 40 ∷ 350 ∷ 351 ∷ []

observed-counts_example : observed delays ≡ record {
  buckets = map (λ b. at_most b delays % 2 ^ 64) buckets_ms;
  count = length delays % 2 ^ 64;
  sum = total delays % 2 ^ 64;
}
observed-counts_example = observed-counts delays
