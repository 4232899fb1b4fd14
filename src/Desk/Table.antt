-- ===== src/Desk/Table.antt =====
-- crates/callora-runtime/src/desk.rs: the callbacks over the table of transfers, by token and by
-- caller, and what a caller's leaving does to it.
use callora.Base.{
  true, none, some, List, [], ◌∷◌, ◌++◌, String, ◌≡◌, arith, if◌then◌else◌, str_eq, eq_iff, lookup,
  insert,
}
use callora.Desk.{
  Transfer, Effect, reply, hangup_now, timed_out, abandoned, answered, conference_started,
}
use callora.Desk.Dialing.{Table, leg_ended}

-- One section on the transfer of a token, and `missing` where there is none.
abbrev with_token :
    String → List Effect → (Transfer → Transfer × List Effect) → Table → Table × List Effect
with_token token missing f table = elim (lookup token table) [
  | none ↦ (table, missing)
  | some x ↦ let (x', out) = f x in (insert token x' table, out)
]

unfoldable pub on_answered : String → String → String → Table → Table × List Effect
on_answered token leg status_url table =
    with_token token (reply leg hangup_now ∷ []) (λ x. answered x leg status_url) table

unfoldable pub on_leg_ended : String → String → String → Table → Table × List Effect
on_leg_ended token leg status table = with_token token [] (λ x. leg_ended x leg status) table

unfoldable pub on_timeout : String → Table → Table × List Effect
on_timeout token table = with_token token [] timed_out table

unfoldable pub caller_ended : String → Table → Table × List Effect
caller_ended caller [] = ([], [])
caller_ended caller ((k, x) ∷ m) =
    let (rest, out) = caller_ended caller m in
    let (x', legs) = abandoned x in
    if str_eq x.caller caller then ((k, x') ∷ rest, legs ++ out) else ((k, x) ∷ rest, out)

unfoldable pub on_conference_event : String → String → Table → Table × List Effect
unfolding caller_ended conference_started
on_conference_event token event table = elim (lookup token table) [
  | none ↦ (table, [])
  | some x ↦
      if str_eq event "conference-start"
      then (insert token (conference_started x) table, [])
      else if str_eq event "conference-end"
      then caller_ended x.caller table
      else (table, [])
]

-- What a caller's leaving does to one transfer.
abbrev pub left_by : String → Transfer → Transfer
left_by caller x = if str_eq x.caller caller then (abandoned x).0 else x

-- A caller who leaves has each of their transfers taken with nobody to join and no leg kept, and
-- every other transfer stays as it was.
pub lookup-caller_ended :
    (caller token : String) (table : Table) (x : Transfer)
    → lookup token table ≡ some x
    → lookup token (caller_ended caller table).0 ≡ some (left_by caller x)
unfolding caller_ended
lookup-caller_ended caller token [] x h = cc
lookup-caller_ended caller token ((k, y) ∷ m) x h =
    ground (arith, eq_iff k token, lookup-caller_ended caller token m x)

-- The end of a transfer's conference leaves nobody on that transfer, nor any leg, and later
-- answers find it taken.
pub conference_end-over :
    (token : String) (table : Table) (x : Transfer)
    → lookup token table ≡ some x
    → lookup token (on_conference_event token "conference-end" table).0
      ≡ some (record x { taken = true; winner = none; legs = [] })
unfolding on_conference_event abandoned
conference_end-over token table x h =
    rw (h, on_conference_event)
      (ground (arith, lookup-caller_ended x.caller token table x h, eq_iff x.caller x.caller))
