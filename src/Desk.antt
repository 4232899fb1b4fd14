-- ===== src/Desk.antt =====
-- crates/callora-runtime/src/desk.rs: handing a caller to the dispatch desk.
-- A function below is one section under the lock of `transfers`, with what it then asks of the
-- telephony as a list of effects. The sections of callbacks, the timeout and the dialing loop
-- interleave, and a sequence of events is any such interleaving.
pub mod Dialing
pub mod Rings
pub mod Table
pub mod Once
pub mod Told
pub mod Winner
pub mod Settled
mod Tests
use callora.Base.{
  ℕ, Bool, true, false, Option, none, some, List, [], ◌∷◌, ◌++◌, String, str_eq, if◌then◌else◌, mem,
  ◌&&◌, ◌||◌, not, all, retain, map, is_some,
}

-- The TwiML documents of twilio.rs, by the function that builds them and its arguments.
pub data Twiml : Type 0 where
  say_hangup : String → String → Twiml
  conference_wait_status : String → String → String → Twiml
  desk_join : String → String → String → String → Twiml
  hangup_now : Twiml

-- `fall_back` is a call of `fallback`; `reply` is what a desk leg's webhook is answered;
-- `dial` has the number, the caller ID and how long it rings.
pub data Effect : Type 0 where
  redirect : String → Twiml → Effect
  hangup : String → Effect
  cancel : String → Effect
  fall_back : String → Twiml → Effect
  reply : String → Twiml → Effect
  dial : String → String → ℕ → Effect

pub record Transfer : Type 0 where
  pub conference : String
  pub caller : String
  pub summary : String
  pub language : String
  pub legs : List String
  pub ended : List String
  pub dialed : Bool
  pub give_up : Twiml
  pub taken : Bool
  pub winner : Option String
  pub connected : Bool
  pub at : ℕ

abbrev pub is : Option String → String → Bool
is none leg = false
is (some w) leg = str_eq w leg

abbrev pub cancels : List String → List Effect
cancels [] = []
cancels (l ∷ ls) = cancel l ∷ cancels ls

-- `redirected` is whether the redirect went through.
unfoldable pub fallback : Bool → String → Twiml → List Effect
fallback redirected caller twiml =
    redirect caller twiml ∷ (if redirected then [] else hangup caller ∷ [])

-- A desk call was created.
unfoldable pub created : Transfer → String → Transfer × List Effect
created x sid =
    let late = x.taken && not (is x.winner sid) in
    (record x { legs = x.legs ++ sid ∷ [] }, if late then cancel sid ∷ [] else [])

abbrev pub none_of : List String → Bool
none_of [] = true
none_of (_ ∷ _) = false

-- Every number has been tried: the first of the two sections that end the dialing.
abbrev pub dialing_done : Transfer → Transfer
dialing_done x = record x { dialed = true }

-- The second one, entered when the first found the transfer not taken and without a leg. It does
-- not look again.
unfoldable pub none_rung : Transfer → Transfer × List Effect
none_rung x = (record x { taken = true }, fall_back x.caller x.give_up ∷ [])

-- The deadline of `arm_timeout`.
unfoldable pub timed_out : Transfer → Transfer × List Effect
timed_out x =
    if not x.taken || (is_some x.winner && not x.connected)
    then (
      record x { taken = true; winner = none; legs = [] },
      fall_back x.caller x.give_up ∷ cancels x.legs,
    )
    else (x, [])

abbrev terminal : List String
terminal = "busy" ∷ "failed" ∷ "no-answer" ∷ "canceled" ∷ "rejected" ∷ "completed" ∷ []

unfoldable pub is_terminal : String → Bool
is_terminal status = mem status terminal

-- The section of `leg_ended`; a leg that is not the winner's is noted.
unfoldable pub leg_gone : Transfer → String → Transfer × List Effect
leg_gone x leg =
    if x.taken
    then (if is x.winner leg
        then (if x.connected
            then (record x { winner = none }, [])
            else (record x { winner = none }, fall_back x.caller x.give_up ∷ []))
        else (x, []))
    else (record x { ended = if mem leg x.ended then x.ended else x.ended ++ leg ∷ [] }, [])

unfoldable pub give_up_if_all_failed : Transfer → Transfer × List Effect
give_up_if_all_failed x =
    if x.taken || not x.dialed || none_of x.legs || not (all (λ l. mem l x.ended) x.legs)
    then (x, [])
    else (record x { taken = true }, fall_back x.caller x.give_up ∷ [])

-- A transfer of the caller who left.
unfoldable pub abandoned : Transfer → Transfer × List Effect
abandoned x = (record x { taken = true; winner = none; legs = [] }, cancels x.legs)

abbrev pub join : Transfer → String → Twiml
join x status_url = desk_join x.summary x.language x.conference status_url

-- A desk number answered.
unfoldable pub answered : Transfer → String → String → Transfer × List Effect
answered x leg status_url =
    if is x.winner leg
    then (x, reply leg (join x status_url) ∷ [])
    else if x.taken || str_eq leg "" || mem leg x.ended
    then (x, reply leg hangup_now ∷ [])
    else (
      record x { taken = true; winner = some leg },
      reply leg (join x status_url) ∷ cancels (retain (λ l. not (str_eq l leg)) x.legs),
    )

unfoldable pub conference_started : Transfer → Transfer
conference_started x = if is_some x.winner then record x { connected = true } else x

-- What can happen to one transfer. `ends` carries the status that the callback gave; `gives_up` is
-- the second section at the end of the dialing, which has no leg then: only the dialing adds legs.
pub data Event : Type 0 where
  creates : String → Event
  dials_all : Event
  gives_up : Event
  times_out : Event
  ends : String → String → Event
  checks : Event
  caller_leaves : Event
  answers : String → String → Event
  conference_starts : Event

unfoldable pub step : Transfer → Event → Transfer × List Effect
unfolding created none_rung timed_out leg_gone give_up_if_all_failed abandoned answered
    conference_started
step x (creates sid) = created x sid
step x dials_all = (dialing_done x, [])
step x gives_up = if none_of x.legs then none_rung x else (x, [])
step x times_out = timed_out x
step x (ends leg status) =
    if str_eq leg "" || not (is_terminal status) then (x, []) else leg_gone x leg
step x checks = give_up_if_all_failed x
step x caller_leaves = abandoned x
step x (answers leg status_url) = answered x leg status_url
step x conference_starts = (conference_started x, [])

unfoldable pub run : Transfer → List Event → Transfer × List Effect
run x [] = (x, [])
run x (e ∷ es) = let (x', out) = step x e in let (x'', rest) = run x' es in (x'', out ++ rest)
