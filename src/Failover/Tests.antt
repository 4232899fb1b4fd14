-- ===== src/Failover/Tests.antt =====
-- A session that runs out of credit.
use callora.Base.{ℕ, All, ◌≢◌, true, false, some, none, [], ◌∷◌, List, ◌≡◌, refl, arith}
use callora.Failover.{
  partial, final, error, is_outage, SttFailover, Heard, watch, open_session, backup, primary,
  take_down,
}
use callora.Failover.Outage.{Fails, events}
use callora.Failover.Out.{Use, opens, fails, uses, uses-take_down}
use callora.Failover.Watch.{TakesOver, watch-TakesOver}

outage-credit : is_outage "You exceeded your current Quota" ≡ true
unfolding is_outage
outage-credit = refl

outage-noise : is_outage "audio too short" ≡ false
unfolding is_outage
outage-noise = refl

abbrev healthy : SttFailover
healthy = record { down_until = none; cool_down = 300000 }

abbrev two_failures : List Heard
two_failures =
    record { at = 100; event = error "audio too short" }
    ∷ record { at = 200; event = partial "to the" }
    ∷ record { at = 300; event = error "audio too short" }
    ∷ record { at = 400; event = final "to the harbour" }
    ∷ []

watch-TakesOver_example :
    (Fails (events two_failures)
      → TakesOver Fails healthy two_failures (watch healthy 0 9 two_failures))
    × (TakesOver Fails healthy two_failures (watch healthy 0 9 two_failures)
        → Fails (events two_failures))
watch-TakesOver_example = watch-TakesOver healthy 9 two_failures (omega arith)

abbrev meanwhile : List (ℕ × Use)
meanwhile = (300, opens true false) ∷ (250000, fails) ∷ (300299, opens true true) ∷ []

uses-take_down_example : All (λ s. s ≢ some primary) (uses (take_down healthy 300) meanwhile)
uses-take_down_example =
    uses-take_down healthy 300 meanwhile
      ((omega arith, omega arith), ((omega arith, omega arith), ((omega arith, omega arith), tt)))

next-backup :
    (open_session (watch healthy 0 9 two_failures).failover 300299 true true).0 ≡ some backup
unfolding watch is_outage open_session
next-backup = refl
