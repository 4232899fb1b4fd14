-- ===== src/Desk/Tests.antt =====
-- One caller and two desk numbers, for the theorems on crates/callora-runtime/src/desk.rs.
use callora.Base.{◌+◌, ◌≤◌, true, false, none, some, List, [], ◌∷◌, String, ◌≡◌, refl, mem, ◌||◌}
use callora.Desk.{
  Transfer, Event, say_hangup, fall_back, creates, dials_all, times_out, ends, answers, run, step,
  is_terminal, none_rung,
}
use callora.Desk.Dialing.{Request, Turn, fresh, ring_desk, dial_numbers, last_sections}
use callora.Desk.Once.{told}
use callora.Desk.Told.{ring_desk-told}
use callora.Desk.Winner.{joined, AllOf, joined-run_one, joined-run_over}
use callora.Desk.Settled.{cancelled, run-settled}
use callora.Desk.Rings.{undialed, rings, rings-ring_desk, ring_desk-refused}

abbrev refused_turns : List Turn
refused_turns =
    record { number = "+1"; outcome = none; during = []; after = [] }
    ∷ record { number = "+2"; outcome = none; during = []; after = [] }
    ∷ record { number = "+1"; outcome = none; during = []; after = [] }
    ∷ []

abbrev request : Request
request = record {
  call_sid = "CA1";
  conference = "desk-1";
  to = "+9";
  summary = "a ride";
  language = "he";
  unavailable = "nobody";
  base = "https://host";
  music_url = "m";
  status_url = "s";
  caller_id = none;
  max_wait_seconds = 40;
  before = [];
  turns = refused_turns;
  between = [];
}

abbrev waiting : Transfer
waiting = fresh request 5

-- The second leg is created while the first has the caller already, and the deadline passes.
abbrev busy_day : List Event
busy_day =
    creates "A" ∷ answers "A" "s" ∷ creates "B" ∷ dials_all ∷ ends "A" "completed" ∷ times_out ∷ []

busy_day-told : told (run waiting busy_day).1 ≡ 1
unfolding told run step fresh is_terminal
busy_day-told = refl

-- The first number rings and is not answered, and the call for the second one comes late.
abbrev rung_turns : List Turn
rung_turns =
    record { number = "+1"; outcome = some "A"; during = []; after = ends "A" "busy" ∷ [] }
    ∷ record { number = "+2"; outcome = some "B"; during = times_out ∷ []; after = [] }
    ∷ []

abbrev ringing : Request
ringing = record request { turns = rung_turns; between = answers "B" "s" ∷ [] }

-- The last callback comes after the dialing, and the deadline's section ran within it.
ring_desk-told_example :
    told (ring_desk ringing (fresh ringing 5)).1
      + told (run (ring_desk ringing (fresh ringing 5)).0 (ends "B" "canceled" ∷ [])).1
    ≤ 2
ring_desk-told_example =
    ring_desk-told ringing 5 (ends "B" "canceled" ∷ []) refl ((refl, refl), ((refl, refl), tt)) refl
      refl

-- Nobody could be rung, and the deadline's section runs between the dialing's last two.
abbrev late_deadline : Request
late_deadline = record request { between = times_out ∷ [] }

late_deadline-told : told (ring_desk late_deadline (fresh late_deadline 5)).1 ≡ 2
unfolding told ring_desk dial_numbers last_sections none_rung run step fresh
late_deadline-told = refl

refused-told : told (ring_desk request (fresh request 5)).1 ≡ 1
unfolding told ring_desk dial_numbers last_sections none_rung run step fresh
refused-told = refl

joined-run_one_example : (w : String) × AllOf w (joined (run waiting busy_day).1)
joined-run_one_example =
    joined-run_one waiting busy_day (unfold fresh in refl) (unfold fresh in refl)

abbrev over : Transfer
over = record {
  conference = "desk-1";
  caller = "CA1";
  summary = "a ride";
  language = "he";
  legs = "A" ∷ [];
  ended = [];
  dialed = true;
  give_up = say_hangup "nobody" "he";
  taken = true;
  winner = none;
  connected = false;
  at = 5;
}

joined-run_over_example : joined (run over (answers "A" "s" ∷ [])).1 ≡ []
joined-run_over_example = joined-run_over over (answers "A" "s" ∷ []) refl refl

run-settled_example :
    (mem "B" (cancelled (run waiting busy_day).1)
      || mem "B" (run waiting busy_day).0.ended
      || mem "B" (joined (run waiting busy_day).1))
    ≡ true
run-settled_example =
    run-settled "B" waiting busy_day (unfold fresh in refl) (unfold fresh in refl) refl
      (unfold run step fresh is_terminal in refl)

rings-ring_desk_example : rings "+1" (ring_desk request waiting).1 ≤ 1
rings-ring_desk_example = rings-ring_desk "+1" request waiting

ring_desk-refused_example :
    ((ring_desk request (fresh request 5)).0.taken ≡ true)
    × (undialed (ring_desk request (fresh request 5)).1
        ≡ fall_back "CA1" (say_hangup "nobody" "he") ∷ [])
ring_desk-refused_example =
    ring_desk-refused request 5 ((refl, refl, refl), ((refl, refl, refl), ((refl, refl, refl), tt)))
      refl refl
