-- ===== src/Desk/Dialing.antt =====
-- crates/callora-runtime/src/desk.rs: `leg_ended`, and `transfer` with its loop over the desk's
-- numbers, with the events that come between its sections.
use callora.Base.{
  ℕ, Bool, true, false, Option, none, some, List, [], ◌∷◌, ◌++◌, String, ◌||◌, not, if◌then◌else◌,
  mem, ltb, min, max, str_eq, insert, remove, ◌-◌,
}
use callora.Desk.{
  Transfer, Effect, Event, redirect, dial, run, created, dialing_done, none_rung,
  give_up_if_all_failed, leg_gone, is_terminal, say_hangup, conference_wait_status, none_of,
}

-- The whole callback of a desk call's end, with no event between its two sections.
unfoldable pub leg_ended : Transfer → String → String → Transfer × List Effect
unfolding leg_gone give_up_if_all_failed
leg_ended x leg status =
    if str_eq leg "" || not (is_terminal status)
    then (x, [])
    else let (x', out) = leg_gone x leg in if x.taken then (x', out) else give_up_if_all_failed x'

-- One number of the desk: what its call's creation answers, the events in the meantime, and those
-- from then on until the next number's turn or the end of the loop.
pub record Turn : Type 0 where
  pub number : String
  pub outcome : Option String
  pub during : List Event
  pub after : List Event

abbrev pub create : Transfer → Option String → Transfer × List Effect
create x none = (x, [])
create x (some sid) = created x sid

-- The loop: a number tried before is skipped, and a taken transfer ends it.
unfoldable pub dial_numbers :
    String → ℕ → List Turn → List String → Transfer → Transfer × List Effect
unfolding run created
dial_numbers from ring [] attempted x = (x, [])
dial_numbers from ring (t ∷ ts) attempted x =
    let skipped = dial_numbers from ring ts attempted x in
    let (x1, out1) = run x t.during in
    let (x2, out2) = create x1 t.outcome in
    let (x3, out3) = run x2 t.after in
    let rest = dial_numbers from ring ts (t.number ∷ attempted) x3 in
    if mem t.number attempted
    then skipped
    else if x.taken
    then (x, [])
    else (rest.0, dial t.number from ring ∷ out1 ++ out2 ++ out3 ++ rest.1)

abbrev pub Table : Type 0
Table = List (String × Transfer)

-- Transfers older than an hour are forgotten.
unfoldable pub recent : ℕ → Table → Table
recent now [] = []
recent now ((k, x) ∷ m) =
    let rest = recent now m in if ltb (now - x.at) 3600 then (k, x) ∷ rest else rest

unfoldable pub has_caller : String → Table → Bool
has_caller sid [] = false
has_caller sid ((k, x) ∷ m) = str_eq x.caller sid || has_caller sid m

-- What `transfer` is given: the call, the summary's text, the desk's settings and the token; and
-- the events before the loop and those between the two last sections.
pub record Request : Type 0 where
  pub call_sid : String
  pub conference : String
  pub to : String
  pub summary : String
  pub language : String
  pub unavailable : String
  pub base : String
  pub music_url : String
  pub status_url : String
  pub caller_id : Option String
  pub max_wait_seconds : ℕ
  pub before : List Event
  pub turns : List Turn
  pub between : List Event

unfoldable pub fresh : Request → ℕ → Transfer
fresh q now = record {
  conference = q.conference;
  caller = q.call_sid;
  summary = q.summary;
  language = q.language;
  legs = [];
  ended = [];
  dialed = false;
  give_up = say_hangup q.unavailable q.language;
  taken = false;
  winner = none;
  connected = false;
  at = now;
}

abbrev pub from_number : Option String → String → String
from_number none to = to
from_number (some id) to = id

unfoldable pub ring_seconds : ℕ → ℕ
ring_seconds n = min 60 (max 15 n)

-- What follows the loop, up to the last section: a transfer with no leg is given up, and a leg may
-- have been refused while the others were still being dialed.
unfoldable pub last_sections : List Event → Transfer → Transfer × List Effect
unfolding run none_rung give_up_if_all_failed
last_sections between x =
    let y = dialing_done x in
    let (x1, out1) = run y between in
    let (x2, out2) = if none_of y.legs then none_rung x1 else give_up_if_all_failed x1 in
    if y.taken then (y, []) else (x2, out1 ++ out2)

-- The dialing of `transfer` once the caller hears the hold music.
unfoldable pub ring_desk : Request → Transfer → Transfer × List Effect
unfolding run dial_numbers last_sections
ring_desk q x =
    let (x1, out1) = run x q.before in
    let (x2, out2) =
      dial_numbers (from_number q.caller_id q.to) (ring_seconds q.max_wait_seconds) q.turns [] x1 in
    let (x3, out3) = last_sections q.between x2 in (x3, out1 ++ out2 ++ out3)

abbrev pub none_of_turns : List Turn → Bool
none_of_turns [] = true
none_of_turns (_ ∷ _) = false

-- `redirected` is whether the caller could be moved to the conference.
unfoldable pub transfer : Request → ℕ → String → Bool → Table → Table × List Effect × Bool
unfolding recent has_caller fresh ring_desk
transfer q now token redirected table =
    let kept = recent now table in
    let x = fresh q now in
    let wait = redirect q.call_sid (conference_wait_status q.conference q.music_url q.status_url) in
    let (x', out) = ring_desk q x in
    if none_of_turns q.turns || str_eq q.base ""
    then (table, [], false)
    else if has_caller q.call_sid kept
    then (kept, [], true)
    else if not redirected
    then (remove token (insert token x kept), wait ∷ [], false)
    else (insert token x' kept, wait ∷ out, true)
