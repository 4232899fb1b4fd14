-- ===== src/Engine/Fill.antt =====
-- crates/callora-core/src/engine.rs: what a run is given without asking, from the call's other tasks,
-- the customer's record and the business's defaults.
use callora.Base.{
  ℕ, Bool, true, false, Option, none, some, List, [], ◌∷◌, String, if◌then◌else◌, str_eq, lookup,
  insert, contains_key, or_insert,
}
use callora.Call.Run.{
  PipelineRun, SlotState, SlotValue, place, text, Provenance, customer, by_default, confirmed,
}
use callora.Engine.Config.{Customer, PipelineConfig, PipelineSlot}
use callora.Engine.State.{CallState, Engine, CompletedRun}
use callora.Engine.Env.{Env}
use callora.Engine.Say.{pipeline_of}

abbrev slot_state : SlotValue → ℕ → Provenance → SlotState
slot_state v c p = record { value = v; confidence = c; provenance = p; confirmed = false }

abbrev with_slots : PipelineRun → List (String × SlotState) → PipelineRun
with_slots run slots = record run { slots = slots }

abbrev pub with_run : Engine → PipelineRun → Engine
with_run e run = record e { state = record (e.state) { run = some run } }

abbrev or_try {ℓ} : {A : Type ℓ} → Option A → Option A → Option A
or_try none b = b
or_try (some a) b = some a

in_suspended : String → List PipelineRun → Option SlotValue
in_suspended source [] = none
in_suspended source (r ∷ rs) = elim (lookup source r.slots) [
  | none ↦ in_suspended source rs
  | some s ↦ some s.value
]

in_completed : String → List CompletedRun → Option SlotValue
in_completed source [] = none
in_completed source (c ∷ cs) = or_try (lookup source c.slots) (in_completed source cs)

abbrev as_place : Option String → Option SlotValue
as_place none = none
as_place (some city) = some (place city none none)

unfoldable pub from_task : CallState → String → Option SlotValue
unfolding in_suspended in_completed
from_task s source =
    or_try (in_suspended source s.suspended)
      (or_try (in_completed source s.completed) (as_place (lookup source s.place_cities)))

abbrev taken_value : CallState → Option String → Bool → Option SlotValue
taken_value s none here = none
taken_value s (some source) true = none
taken_value s (some source) false = from_task s source

abbrev put_some :
    String
    → Option SlotValue
    → ℕ
    → Provenance
    → List (String × SlotState)
    → List (String × SlotState)
put_some slot none c p m = m
put_some slot (some v) c p m = insert slot (slot_state v c p) m

-- The values are all found before the first is stored: `before` is the run's slots by then.
unfoldable pub fill_slots_from_tasks :
    CallState
    → List (String × SlotState)
    → List PipelineSlot
    → List (String × SlotState)
    → List (String × SlotState)
unfolding from_task
fill_slots_from_tasks s before [] m = m
fill_slots_from_tasks s before (ps ∷ pss) m =
    fill_slots_from_tasks s before pss
      (put_some ps.slot (taken_value s ps.from_slot (contains_key ps.slot before)) 900 confirmed m)

unfoldable pub fill_from_other_tasks : Engine → Engine
unfolding fill_slots_from_tasks pipeline_of
fill_from_other_tasks e = elim e.state.run [
  | none ↦ e
  | some run ↦
      with_run e (
        with_slots run
          (fill_slots_from_tasks e.state run.slots (pipeline_of e run).slots run.slots))
]

abbrev saved : Customer → String → Option SlotValue
saved c key = elim (lookup key c.places) [
  | none ↦ none
  | some p ↦ some (place p.spoken p.address (some key))
]

abbrev place_of : Option String → Option Customer → Option SlotValue
place_of none c = none
place_of (some key) none = none
place_of (some key) (some c) = saved c key

abbrev pub is_name : Option String → Bool
is_name none = false
is_name (some key) = str_eq key "name"

module _ (w : Env) where
  abbrev spoken_name : Option String → Option SlotValue
  spoken_name none = none
  spoken_name (some name) = if w.is_blank name then none else some (text name)

  abbrev gives : Option String → Option Customer → Option SlotValue
  gives none c = none
  gives (some key) none = none
  gives (some key) (some c) = if str_eq key "name" then spoken_name c.name else saved c key

  unfoldable pub customer_gives : Engine → PipelineSlot → Option SlotValue
  customer_gives e ps = gives ps.from_customer e.state.customer

  abbrev or_insert_some :
      String → Option SlotValue → List (String × SlotState) → List (String × SlotState)
  or_insert_some slot none m = m
  or_insert_some slot (some v) m = or_insert slot (slot_state v 900 customer) m

  unfoldable pub fill_names :
      Engine → List PipelineSlot → List (String × SlotState) → List (String × SlotState)
  unfolding customer_gives
  fill_names e [] m = m
  fill_names e (ps ∷ pss) m =
      fill_names e pss
        (if is_name ps.from_customer then or_insert_some ps.slot (customer_gives e ps) m else m)

  abbrev default_of : Engine → PipelineSlot → Option SlotValue
  default_of e ps = elim ps.default [
    | none ↦ none
    | some json ↦ w.default_value e.business ps.slot json
  ]

  -- One slot that is still empty: the customer's place, or the default.
  abbrev fill_empty : Engine → PipelineSlot → List (String × SlotState) → List (String × SlotState)
  fill_empty e ps m = elim (place_of ps.from_customer e.state.customer) [
    | some v ↦ insert ps.slot (slot_state v 800 customer) m
    | none ↦ put_some ps.slot (default_of e ps) 1000 by_default m
  ]

  unfoldable pub fill_empties :
      Engine → List PipelineSlot → List (String × SlotState) → List (String × SlotState)
  fill_empties e [] m = m
  fill_empties e (ps ∷ pss) m =
      fill_empties e pss (if contains_key ps.slot m then m else fill_empty e ps m)

  unfoldable pub fill_defaults : Engine → PipelineConfig → Engine
  unfolding fill_from_other_tasks fill_names fill_empties
  fill_defaults e pipeline =
      let e1 = fill_from_other_tasks e in
      elim e1.state.run [
        | none ↦ e1
        | some run ↦ with_run e1 (
            with_slots run
              (fill_empties e1 pipeline.slots (fill_names e1 pipeline.slots run.slots)))
      ]
