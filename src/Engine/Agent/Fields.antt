-- ===== src/Engine/Agent/Fields.antt =====
-- crates/callora-core/src/engine.rs: the values that the model passes on (`apply_agent_fields`), and the task that
-- it says the caller is on.
use callora.Base.{
  ℕ, suc, max, Bool, true, false, Option, none, some, List, [], ◌∷◌, String, if◌then◌else◌, str_eq,
  lookup, insert, remove, is_some, any, find, map, not, ◌&&◌, ltb, ◌==◌,
}
use callora.Call.Run.{
  PipelineRun, SlotState, SlotValue, Provenance, rules, llm, by_default, customer, rule, confirmed,
  Step, collecting, clear, value_eq,
}
use callora.Engine.Config.{PipelineConfig, SlotConfig, SlotKind, IntentConfig}
use callora.Engine.Speech.{has_none}
use callora.Engine.State.{Engine}
use callora.Engine.Say.{pipeline_of, with_state, or_else}
use callora.Engine.Fill.{with_run, fill_from_other_tasks}
use callora.Engine.Handoff.{is_executing}
use callora.Engine.Understanding.{SlotFill}
use callora.Engine.Answer.{
  Check, Checked, new_run, infer_pipeline, has_slot, apply_fills, is_place, noted,
}
use callora.Engine.Agent.{Hearing, note_unless, is_collecting, is_awaiting}

abbrev pub Said : Type 0
Said = List (String × String)

abbrev source_is : String → Option String → Bool
source_is slot none = false
source_is slot (some s) = str_eq s slot

abbrev for_task : PipelineConfig → Said → String × String → String × String
for_task p fields (slot, value) = elim (find (λ ps. source_is slot ps.from_slot) p.slots) [
  | none ↦ (slot, value)
  | some t ↦
      if not (has_slot p slot) && not (any (λ f. str_eq f.0 t.slot) fields)
      then (t.slot, value)
      else (slot, value)
]

-- A value for the detail of another task that this task takes it from.
unfoldable pub as_this_tasks : Engine → Said → Said
unfolding pipeline_of
as_this_tasks e fields = elim e.state.run [
  | none ↦ fields
  | some run ↦ map (for_task (pipeline_of e run) fields) fields
]

abbrev pub kind_is_place : SlotKind → Bool
kind_is_place SlotKind.place = true
kind_is_place SlotKind.text = false
kind_is_place SlotKind.integer = false
kind_is_place SlotKind.boolean = false
kind_is_place SlotKind.time = false
kind_is_place SlotKind.enum = false

-- The optional details of the current task that are asked before its read-back.
unfoldable pub is_optional : Engine → String → Bool
unfolding pipeline_of
is_optional e slot = elim e.state.run [
  | none ↦ false
  | some run ↦
      any (λ ps. ps.ask_before_confirm && not ps.required && str_eq ps.slot slot)
        (pipeline_of e run).slots
]

abbrev pub count_of : String → List (String × ℕ) → ℕ
count_of slot m = or_else (lookup slot m) 0

abbrev pub unheard_once_more : Engine → String → Engine
unheard_once_more e slot = with_state e (record (e.state) {
  unheard_rejections =
      insert slot (suc (count_of slot e.state.unheard_rejections)) e.state.unheard_rejections;
})

-- What one value leaves: the engine, the fill, and whether it was rejected.
abbrev pub Read : Type 0
Read = Engine × Option SlotFill × Bool

abbrev pub fill_of : String → ℕ → SlotValue → SlotFill
fill_of slot confidence v = record {
  slot = slot;
  value = v;
  confidence = confidence;
  provenance = llm;
}

abbrev pub placed : String → ℕ → Engine → Checked → Read
placed slot confidence e c = (
  e,
  elim c.value [ none ↦ none | some v ↦ some (fill_of slot (max confidence 900) v) ],
  c.rejected,
)

abbrev pub checked : (String → Check) → Engine → String → String → SlotValue → ℕ → Read
checked check e slot raw v confidence =
    if is_place v
    then (let f = fill_of slot confidence v in
        let c = check raw e f in placed slot confidence (noted e f c) c)
    else (e, some (fill_of slot (max confidence 900) v), false)

abbrev pub parsed :
    (String → Check) → Engine → SlotConfig → String → String → Option (SlotValue × ℕ) → Read
parsed check e cfg slot raw none = (e, none, true)
parsed check e cfg slot raw (some (v, confidence)) =
    if ltb confidence cfg.reject_below
    then (e, none, true)
    else checked check e slot raw v confidence

module _ (h : Hearing) (check : String → Check) where
  -- `before` is the engine before the turn's first value; `raw` is what the caller said, where it is a street.
  abbrev pub read_as : Engine → Engine → SlotConfig → String → String → Read
  read_as before e cfg slot raw =
      if is_optional before slot && h.says_nothing e.business raw
      then (note_unless true e slot, none, false)
      else if kind_is_place cfg.kind
          && h.unheard before raw
          && ltb (count_of slot e.state.unheard_rejections) 2
      then (unheard_once_more e slot, none, true)
      else parsed check e cfg slot raw (h.parse before slot raw)

  unfoldable pub read_field : Engine → Engine → String × String → Read
  unfolding is_optional
  read_field before e (slot, raw) = elim (lookup slot e.business.slots) [
    | none ↦ (e, none, false)
    | some cfg ↦
        read_as before e cfg slot
          (if kind_is_place cfg.kind then h.said_instead before slot raw else raw)
  ]

  abbrev pub collect :
      String
      → Option SlotFill
      → Bool
      → Engine × List SlotFill × List String
      → Engine × List SlotFill × List String
  collect slot none rejected (e, fills, refused) =
      (e, fills, if rejected then slot ∷ refused else refused)
  collect slot (some f) rejected (e, fills, refused) =
      (e, f ∷ fills, if rejected then slot ∷ refused else refused)

  unfoldable pub read_fields : Engine → Engine → Said → Engine × List SlotFill × List String
  unfolding read_field
  read_fields before e [] = (e, [], [])
  read_fields before e (f ∷ fs) =
      let (e1, fill, rejected) = read_field before e f in
      collect f.0 fill rejected (read_fields before e1 fs)

abbrev provenance_eq : Provenance → Provenance → Bool
provenance_eq rules rules = true
provenance_eq llm llm = true
provenance_eq by_default by_default = true
provenance_eq customer customer = true
provenance_eq rule rule = true
provenance_eq confirmed confirmed = true
provenance_eq _ _ = false

abbrev bool_eq : Bool → Bool → Bool
bool_eq true b = b
bool_eq false b = not b

abbrev state_eq : SlotState → SlotState → Bool
state_eq s t =
    value_eq s.value t.value
    && s.confidence == t.confidence
    && provenance_eq s.provenance t.provenance
    && bool_eq s.confirmed t.confirmed

unfoldable pub slots_eq : List (String × SlotState) → List (String × SlotState) → Bool
unfolding value_eq
slots_eq [] [] = true
slots_eq [] (_ ∷ _) = false
slots_eq (_ ∷ _) [] = false
slots_eq ((k, s) ∷ m) ((j, t) ∷ n) = str_eq k j && state_eq s t && slots_eq m n

abbrev pub with_task : Engine → Option (String × String) → Engine
with_task e none = e
with_task e (some (p, id)) = with_state e (record (e.state) { run = some (new_run e p id) })

abbrev pub unawaited : Step → Step
unawaited t = if is_awaiting t then collecting none else t

-- A changed task is collected again; `before` is what it had.
abbrev pub settle : List (String × SlotState) → Engine → Option PipelineRun → Engine × Bool
settle before e none = (e, false)
settle before e (some run) =
    if slots_eq run.slots before
    then (e, false)
    else (with_run e (record run { step = unawaited run.step }), true)

abbrev pub store_fields : Engine → List SlotFill → Option PipelineRun → Engine × Bool
store_fields e fills none = (e, false)
store_fields e fills (some run) =
    let e1 = (apply_fills e fills).0 in settle run.slots e1 e1.state.run

abbrev pub store_fills : Engine → List SlotFill → Engine × Bool
store_fills e [] = (e, false)
store_fills e (f ∷ fs) =
    let e1 = if is_some e.state.run then e else with_task e (infer_pipeline e (f ∷ fs)) in
    store_fields e1 (f ∷ fs) e1.state.run

-- Whether a value of the current task changed, and the details whose values were rejected.
unfoldable pub apply_agent_fields :
    Hearing → (String → Check) → Engine → Said → Engine × Bool × List String
unfolding as_this_tasks read_fields slots_eq apply_fills infer_pipeline new_run
apply_agent_fields h check e fields =
    let (e1, fills, rejected) = read_fields h check e e (as_this_tasks e fields) in
    let (e2, changed) = store_fills e1 fills in (e2, changed, rejected)

-- The current task, unless it has nothing yet or runs its action, waits for the other.
abbrev pub suspend_run : Option PipelineRun → List PipelineRun → List PipelineRun
suspend_run none suspended = suspended
suspend_run (some run) suspended =
    if not (has_none run.slots) && not (is_executing run.step) then run ∷ suspended else suspended

abbrev pub on_pipeline : Option PipelineRun → String → Bool
on_pipeline none p = false
on_pipeline (some run) p = str_eq run.pipeline p

unfoldable pub take_task : Engine → IntentConfig → Engine
unfolding new_run fill_from_other_tasks
take_task e i = elim i.pipeline [
  | none ↦ e
  | some p ↦
      if on_pipeline e.state.run p
      then e
      else (let s = record (e.state) {
        run = none;
        suspended = suspend_run e.state.run e.state.suspended;
      } in
          let e1 = with_state e s in
          fill_from_other_tasks
            (with_state e1 (record (e1.state) { run = some (new_run e1 p i.id) })))
]

abbrev pub clear_city : Engine → Option PipelineRun → Option String → Engine
clear_city e (some run) (some slot) = with_state e (record (e.state) {
  run = some (clear run slot);
  place_cities = remove slot e.state.place_cities;
})
clear_city e (some run) none = e
clear_city e none s = e

-- A city that was said with the other place's preposition is cleared.
unfoldable pub misplaced_city : Hearing → Engine → String → Engine
unfolding clear
misplaced_city h e transcript = elim e.state.run [
  | none ↦ e
  | some run ↦
      if is_collecting run.step then clear_city e (some run) (h.misplaced e transcript) else e
]
