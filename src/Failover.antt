-- ===== src/Failover.antt =====
-- crates/callora-providers/src/stt_failover.rs: a recognizer backed by another. Times are in milliseconds of
-- one clock; how sure the recognizer was of a word is in thousandths. Whether a service opens is an input.
pub mod Outage
pub mod Watch
pub mod Out
mod Tests
use Prim.Native.Char.{code}
use callora.Base.{
  ℕ, zero, suc, ◌+◌, Bool, true, false, ◌&&◌, ◌||◌, Option, none, some, List, [], ◌∷◌, String,
  if◌then◌else◌, ltb, leb, ◌==◌, any, map,
}

pub data SttEvent : Type 0 where
  partial : String → SttEvent
  unsure : List (String × ℕ) → SttEvent
  final : String → SttEvent
  error : String → SttEvent
  closed : SttEvent

-- The code points of a text, as `str::contains` and `to_ascii_lowercase` read it.
abbrev pub codes : String → List ℕ
codes String.[] = []
codes (String.◌∷◌ c s) = code c ∷ codes s

abbrev pub to_ascii_lowercase : ℕ → ℕ
to_ascii_lowercase c = if leb 65 c && leb c 90 then c + 32 else c

abbrev pub starts_with : List ℕ → List ℕ → Bool
starts_with s [] = true
starts_with [] (_ ∷ _) = false
starts_with (c ∷ s) (d ∷ t) = (c == d) && starts_with s t

abbrev pub contains : List ℕ → List ℕ → Bool
contains [] t = starts_with [] t
contains (c ∷ s) t = starts_with (c ∷ s) t || contains s t

abbrev pub outage_words : List String
outage_words =
    "insufficient_quota" ∷ "quota" ∷ "billing" ∷ "credit" ∷ "payment" ∷ "402" ∷ "rate_limit" ∷ "429"
    ∷ "invalid_api_key" ∷ "unauthorized" ∷ "401" ∷ "403" ∷ []

-- An error that says the service cannot serve, not that one utterance went wrong.
unfoldable pub is_outage : String → Bool
is_outage e = any (λ k. contains (map to_ascii_lowercase (codes e)) (codes k)) outage_words

-- What the sessions of all calls share: until when the primary is out, and for how long it goes out.
pub record SttFailover : Type 0 where
  pub down_until : Option ℕ
  pub cool_down : ℕ

abbrev pub before : ℕ → Option ℕ → Bool
before now none = false
before now (some t) = ltb now t

abbrev pub primary_down : SttFailover → ℕ → Bool
primary_down f now = before now f.down_until

abbrev pub take_down : SttFailover → ℕ → SttFailover
take_down f now = record f { down_until = some (now + f.cool_down) }

pub data Serving : Type 0 where
  primary : Serving
  backup : Serving

abbrev pub opened : Serving → Bool → Option Serving
opened s ok = if ok then some s else none

-- `open` at the time `now`; `primary_opens` and `backup_opens` say which of the services answer.
unfoldable pub open_session : SttFailover → ℕ → Bool → Bool → Option Serving × SttFailover
open_session f now primary_opens backup_opens =
    if primary_down f now
    then (opened backup backup_opens, f)
    else if primary_opens
    then (some primary, f)
    else (opened backup backup_opens, take_down f now)

-- An event of the primary's session, and when it came.
pub record Heard : Type 0 where
  pub at : ℕ
  pub event : SttEvent

-- The end of a watched session: what the call was given, and whether the session was told to close.
pub record Watched : Type 0 where
  pub failover : SttFailover
  pub forwarded : List SttEvent
  pub closes : Bool

-- The failures in a row once an event is counted.
abbrev pub counted : ℕ → SttEvent → ℕ
counted failed_in_a_row (error _) = suc failed_in_a_row
counted failed_in_a_row (final _) = 0
counted failed_in_a_row (partial _) = failed_in_a_row
counted failed_in_a_row (unsure _) = failed_in_a_row
counted failed_in_a_row closed = failed_in_a_row

abbrev pub failing : ℕ → SttEvent → Bool
failing failed_in_a_row (error e) = is_outage e || leb 2 failed_in_a_row
failing failed_in_a_row (final _) = false
failing failed_in_a_row (partial _) = false
failing failed_in_a_row (unsure _) = false
failing failed_in_a_row closed = false

-- The last event of a session; a call that is gone does not get it.
abbrev pub parting : ℕ → List SttEvent
parting zero = []
parting (suc _) = closed ∷ []

abbrev pub fails_over : SttFailover → ℕ → ℕ → Watched
fails_over f takes now = record {
  failover = take_down f now;
  forwarded = parting takes;
  closes = true;
}

-- The task that watches the primary's events on their way to a call, which takes `takes` events before it
-- drops its end.
unfoldable pub watch : SttFailover → ℕ → ℕ → List Heard → Watched
watch f failed_in_a_row takes [] = record {
  failover = f;
  forwarded = parting takes;
  closes = false;
}
watch f failed_in_a_row zero (h ∷ hs) =
    if failing (counted failed_in_a_row h.event) h.event
    then fails_over f zero h.at
    else record { failover = f; forwarded = []; closes = false }
watch f failed_in_a_row (suc takes) (h ∷ hs) =
    let m = counted failed_in_a_row h.event in
    let rest = watch f m takes hs in
    if failing m h.event
    then fails_over f (suc takes) h.at
    else record rest { forwarded = h.event ∷ rest.forwarded }
