-- ===== src/Engine/Summary.antt =====
-- crates/callora-core/src/engine.rs: what a person who takes the call over is told.
use callora.Base.{
  ◌-◌, Option, none, some, List, [], ◌∷◌, String, lookup, drop, length, find, str_eq,
}
use callora.Call.Run.{PipelineRun, SlotState}
use callora.Engine.Config.{PipelineSlot, SlotConfig}
use callora.Engine.Speech.{HandoffSummary}
use callora.Engine.State.{Engine}
use callora.Engine.Env.{Env}
use callora.Engine.Say.{pipeline_of, name_of}

abbrev current : Option PipelineRun → List PipelineRun → Option PipelineRun
current (some run) suspended = some run
current none [] = none
current none (s ∷ ss) = some s

abbrev map_some {ℓ κ} : {A : Type ℓ} {B : Type κ} → (A → B) → Option A → Option B
map_some f none = none
map_some f (some a) = some (f a)

module _ (w : Env) where
  described :
      List (String × SlotConfig)
      → List (String × SlotState)
      → List PipelineSlot
      → List (String × String)
  described configs slots [] = []
  described configs slots (ps ∷ pss) =
      let rest = described configs slots pss in
      elim (lookup ps.slot slots) [
        | none ↦ rest
        | some s ↦ elim (lookup ps.slot configs) [
          | none ↦ rest
          | some cfg ↦ (cfg.description, w.spoken s.value) ∷ rest
        ]
      ]

  abbrev slots_said : Engine → Option PipelineRun → List (String × String)
  slots_said e none = []
  slots_said e (some run) = described e.business.slots run.slots (pipeline_of e run).slots

  abbrev intent_description : Engine → Option PipelineRun → Option String
  intent_description e none = none
  intent_description e (some run) =
      map_some (λ i. i.description) (find (λ i. str_eq i.id run.intent) e.business.intents)

  unfoldable pub summary : Engine → String → HandoffSummary
  unfolding described pipeline_of
  summary e reason =
      let run = current e.state.run e.state.suspended in
      let slots = slots_said e run in
      let customer_name = name_of e.state.customer in
      record {
        reason = reason;
        business_id = e.business.id;
        intent = map_some (λ r. r.intent) run;
        pipeline = map_some (λ r. r.pipeline) run;
        slots = slots;
        customer_name = customer_name;
        recent = drop (length e.state.history - 6) e.state.history;
        text = w.summary_text e.business.name customer_name (intent_description e run) slots;
      }
