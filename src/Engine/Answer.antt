-- ===== src/Engine/Answer.antt =====
-- crates/callora-core/src/engine.rs: the turn that a final transcript, understood, moves (`on_utterance`).
-- What `check_place` answers, which looks places up in a gazetteer, is a function of the turn: what it notes
-- of the places, whether the value of another city is dropped, whether the place is refused, and the place, if
-- it can be taken.
pub mod Fills
use Prim.Native.String.{◌++◌ as str_append}
use callora.Base.{
  ℕ, suc, ◌+◌, min, Bool, true, false, Option, none, some, List, [], ◌∷◌, ◌++◌, String,
  if◌then◌else◌, str_eq, lookup, remove, or_insert, mem, any, all, find, not, ◌&&◌, ◌||◌, is_some,
  ltb, leb, ◌==◌,
}
use callora.Call.Run.{
  PipelineRun, SlotState, SlotValue, place, Provenance, rules, confirmed, Step, collecting,
  confirming_slot, awaiting_confirmation, executing, set, clear, value_eq,
}
use callora.Call.Run
use callora.Engine.Config.{
  Business, PipelineConfig, PipelineSlot, SlotConfig, IntentConfig, ConfirmConfig,
}
use callora.Engine.Out.{Out}
use callora.Engine.Out
use callora.Engine.State.{CallState, Engine, CompletedRun, Prompt}
use callora.Engine.Env.{Env}
use callora.Engine.Say.{pipeline_of, with_state, say_here, say_some, ask, bind}
use callora.Engine.Fill.{with_run}
use callora.Engine.Flow.{advance, finish_run, goodbye, offer_more}
use callora.Engine.Handoff.{handoff, fallback}
use callora.Engine.Understanding.{Understanding, SlotFill, IntentGuess, slot_of}
use callora.Engine.Rules.{Applied, takes_over, goes_on, apply_rules}

-- What `check_place` answers for a fill.
pub record Checked : Type 0 where
  pub place_cities : List (String × String)
  pub place_streets : List (String × String)
  pub place_numbers : List (String × (String × String))
  pub doubt_confirm : List (String × List Prompt)
  pub place_rejections : List (String × ℕ)
  pub dropped : Bool
  pub rejected : Bool
  pub value : Option SlotValue

abbrev pub Check : Type 0
Check = Engine → SlotFill → Checked

abbrev pub has_slot : PipelineConfig → String → Bool
has_slot p slot = any (λ ps. str_eq ps.slot slot) p.slots

-- The last completed task that was not cancelled; the last comes first.
abbrev pub last_done : List CompletedRun → Option CompletedRun
last_done cs = find (λ c. not (str_eq c.outcome "cancelled")) cs

abbrev given_before : SlotValue → SlotState
given_before v = record { value = v; confidence = 850; provenance = rules; confirmed = false }

abbrev pub prefilled :
    List PipelineSlot
    → List (String × SlotValue)
    → List (String × SlotState)
    → List (String × SlotState)
prefilled [] before slots = slots
prefilled (ps ∷ pss) before slots = elim (lookup ps.slot before) [
  | none ↦ prefilled pss before slots
  | some v ↦ prefilled pss before (or_insert ps.slot (given_before v) slots)
]

-- A new run, with what the caller gave before in this call.
unfoldable pub new_run : Engine → String → String → PipelineRun
unfolding Run.new
new_run e pipeline intent =
    let run = Run.new pipeline intent in
    elim (lookup pipeline e.business.pipelines) [
      | none ↦ run
      | some config ↦ elim (last_done e.state.completed) [
        | none ↦ run
        | some c ↦ record run { slots = prefilled config.slots c.slots run.slots }
      ]
    ]

abbrev fits : Engine → List SlotFill → IntentConfig → Option (String × String)
fits e fills i = bind i.pipeline (λ p.
    bind (lookup p e.business.pipelines)
      (λ config. if all (λ f. has_slot config f.slot) fills then some (p, i.id) else none))

abbrev candidates : Engine → List SlotFill → List IntentConfig → List (String × String)
candidates e fills [] = []
candidates e fills (i ∷ is) = elim (fits e fills i) [
  | none ↦ candidates e fills is
  | some c ↦ c ∷ candidates e fills is
]

abbrev only : List (String × String) → Option (String × String)
only [] = none
only (c ∷ []) = some c
only (c ∷ _ ∷ _) = none

-- The one task that has all of these values.
unfoldable pub infer_pipeline : Engine → List SlotFill → Option (String × String)
infer_pipeline e fills = only (candidates e fills e.business.intents)

abbrev pub stored : SlotFill → SlotState
stored f = record {
  value = f.value;
  confidence = f.confidence;
  provenance = f.provenance;
  confirmed = false;
}

abbrev pub same_as : Option SlotState → SlotValue → Bool
same_as none v = false
same_as (some s) v = value_eq s.value v

-- Whether a value is for the task, and certain enough to be taken.
abbrev pub accepted : Business → PipelineConfig → SlotFill → Bool
accepted b p f = has_slot p f.slot && elim (lookup f.slot b.slots) [
  | none ↦ false
  | some cfg ↦ not (ltb f.confidence cfg.reject_below)
]

abbrev pub store : PipelineRun → SlotFill → PipelineRun
store run f = if same_as (lookup f.slot run.slots) f.value then run else set run f.slot (stored f)

unfoldable pub store_all : Business → PipelineConfig → List SlotFill → PipelineRun → PipelineRun × ℕ
unfolding set value_eq
store_all b p [] run = (run, 0)
store_all b p (f ∷ fs) run = elim (accepted b p f) [
  | false ↦ store_all b p fs run
  | true ↦ let (r, n) = store_all b p fs (store run f) in (r, suc n)
]

abbrev pub collecting_again : Step → Step
collecting_again (collecting a) = collecting a
collecting_again (confirming_slot _) = collecting none
collecting_again awaiting_confirmation = collecting none
collecting_again (executing id) = executing id

abbrev pub taken : PipelineRun × ℕ → PipelineRun × ℕ
taken (run, n) = if n == 0 then (run, n) else (record run { step = collecting_again run.step }, n)

abbrev pub fill_run : Engine → List SlotFill → Option PipelineRun → Engine × ℕ
fill_run e fills none = (e, 0)
fill_run e fills (some run) =
    let (r, n) = taken (store_all e.business (pipeline_of e run) fills run) in (with_run e r, n)

unfoldable pub apply_fills : Engine → List SlotFill → Engine × ℕ
unfolding store_all pipeline_of
apply_fills e fills = fill_run e fills e.state.run

abbrev pub is_place : SlotValue → Bool
is_place (place _ _ _) = true
is_place _ = false

abbrev pub drops : Bool → String → Option PipelineRun → Option PipelineRun
drops true slot (some run) = some (record run { slots = remove slot run.slots })
drops _ slot run = run

abbrev pub noted : Engine → SlotFill → Checked → Engine
noted e f c = with_state e (record (e.state) {
  place_cities = c.place_cities;
  place_streets = c.place_streets;
  place_numbers = c.place_numbers;
  doubt_confirm = c.doubt_confirm;
  place_rejections = c.place_rejections;
  run = drops c.dropped f.slot e.state.run;
})

abbrev pub takes : Engine → SlotFill → Bool
takes e f = elim e.state.run [ none ↦ false | some run ↦ accepted e.business (pipeline_of e run) f ]

abbrev pub first_fill : SlotFill → Engine × List SlotFill × Bool → Engine × List SlotFill × Bool
first_fill f (e, fs, noticed) = (e, f ∷ fs, noticed)

abbrev pub with_noted : Bool → Engine × List SlotFill × Bool → Engine × List SlotFill × Bool
with_noted b (e, fs, noticed) = (e, fs, b || noticed)

-- The places are checked; a place that is only noted is not among the fills that are left.
unfoldable pub check_places : Check → Engine → List SlotFill → Engine × List SlotFill × Bool
unfolding pipeline_of
check_places check e [] = (e, [], false)
check_places check e (f ∷ fs) = elim (is_place f.value && takes e f) [
  | false ↦ first_fill f (check_places check e fs)
  | true ↦
      let c = check e f in
      elim c.value [
        | some v ↦ first_fill (record f { value = v }) (check_places check (noted e f c) fs)
        | none ↦ with_noted true (check_places check (noted e f c) fs)
      ]
]
