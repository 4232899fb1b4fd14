-- ===== src/Engine/Agent/Kept.antt =====
-- crates/callora-core/src/engine.rs: taking a task and the values that the model passes on starts no action.
use callora.Base.{
  ℕ, Bool, true, false, Option, none, some, List, [], ◌∷◌, String, ◌≡◌, refl, arith, Option-cases,
  Bool-cases, inl, inr, ◌∙◌, ap, is_some, lookup, ltb, ◌&&◌, if◌then◌else◌,
}
use callora.Call.Run.{
  PipelineRun, SlotState, SlotValue, Step, collecting, confirming_slot, awaiting_confirmation,
  executing, clear,
}
use callora.Engine.Config.{PipelineConfig, SlotConfig, IntentConfig}
use callora.Engine.State.{Engine}
use callora.Engine.Env.{Env}
use callora.Engine.Say.{with_state}
use callora.Engine.Fill.{with_run, fill_defaults, fill_from_other_tasks}
use callora.Engine.Understanding.{SlotFill}
use callora.Engine.Answer.{Check, new_run, infer_pipeline, is_place, apply_fills, noted}
use callora.Engine.Frame.{Keeps}
use callora.Engine.Started.{ids_of, id_of}
use callora.Engine.Utterance.Steps.{Same}
use callora.Engine.Utterance.Stages.{new_run-step}
use callora.Engine.Utterance.Values.{apply_fills-Same, drops-ids}
use callora.Engine.Agent.{Hearing, is_collecting}
use callora.Engine.Agent.Fields.{
  read_field, fill_of, kind_is_place, is_optional, count_of, read_as, read_fields, checked, parsed,
  apply_agent_fields, take_task, misplaced_city, with_task, unawaited, settle, store_fields,
  store_fills, slots_eq, on_pipeline, clear_city, collect, as_this_tasks, suspend_run,
}

pub Same-refl : (e : Engine) → Same e e
Same-refl e = (refl, λ i. i, refl)

pub Same-trans : (e f g : Engine) → Same e f → Same f g → Same e g
Same-trans e f g (p, i, n) (q, j, m) = (q ∙ p, λ k. j (i k), m ∙ n)

pub Keeps-Same : (e e' : Engine) → Keeps e e' → Same e e'
Keeps-Same e e' k = (k.phase, λ i. ap ids_of k.run ∙ i, k.next_action_run)

-- A run with the same step, and nothing else that matters here.
pub with_run-Same :
    (e : Engine) (run : PipelineRun)
    → (ids_of e.state.run ≡ [] → ids_of (some run) ≡ [])
    → Same e (with_run e run)
with_run-Same e run i = (refl, i, refl)

abbrev pub at : Engine → Option PipelineRun → Engine
at e c = with_state e (record (e.state) { run = c })

fill_from-Same :
    (e : Engine) (c : Option PipelineRun) → Same (at e c) (fill_from_other_tasks (at e c))
unfolding fill_from_other_tasks
fill_from-Same e none = (refl, λ i. i, refl)
fill_from-Same e (some run) = (refl, λ i. i, refl)

pub fill_from_other_tasks-Same : (e : Engine) → Same e (fill_from_other_tasks e)
fill_from_other_tasks-Same e = fill_from-Same e e.state.run

filled-Same :
    (w : Env) (e : Engine) (p : PipelineConfig) (c : Option PipelineRun)
    → Same (at e c) (fill_defaults w (at e c) p)
unfolding fill_defaults fill_from_other_tasks
filled-Same w e p none = (refl, λ i. i, refl)
filled-Same w e p (some run) = (refl, λ i. i, refl)

pub fill_defaults-Same : (w : Env) (e : Engine) (p : PipelineConfig) → Same e (fill_defaults w e p)
fill_defaults-Same w e p = filled-Same w e p e.state.run

noted-Same : (check : Check) (e : Engine) (f : SlotFill) → Same e (noted e f (check e f))
noted-Same check e f = (refl, λ i. drops-ids (check e f).dropped f.slot e.state.run ∙ i, refl)

module _ (h : Hearing) (check : String → Check) where
  checked-Same :
      (e : Engine) (slot raw : String) (v : SlotValue) (confidence : ℕ)
      → Same e (checked check e slot raw v confidence).0
  checked-Same e slot raw v confidence = elim (Bool-cases (is_place v)) [
    | inl t ↦ rw t (noted-Same (check raw) e (fill_of slot confidence v))
    | inr t ↦ rw t (Same-refl e)
  ]

  parsed-Same :
      (e : Engine) (cfg : SlotConfig) (slot raw : String) (r : Option (SlotValue × ℕ))
      → Same e (parsed check e cfg slot raw r).0
  parsed-Same e cfg slot raw none = Same-refl e
  parsed-Same e cfg slot raw (some (v, c)) = elim (Bool-cases (ltb c cfg.reject_below)) [
    | inl t ↦ rw t (Same-refl e)
    | inr t ↦ rw t (checked-Same e slot raw v c)
  ]

  read_as-Same :
      (before e : Engine) (cfg : SlotConfig) (slot raw : String)
      → Same e (read_as h check before e cfg slot raw).0
  read_as-Same before e cfg slot raw =
      elim (Bool-cases (is_optional before slot && h.says_nothing e.business raw)) [
        | inl t ↦ rw t (refl, λ i. i, refl)
        | inr t ↦
            elim (Bool-cases (
              kind_is_place cfg.kind
              && h.unheard before raw
              && ltb (count_of slot e.state.unheard_rejections) 2)) [
                | inl u ↦ rw (t, u) (refl, λ i. i, refl)
                | inr u ↦ rw (t, u) (parsed-Same e cfg slot raw (h.parse before slot raw))
              ]
      ]

  read_field-Same :
      (before e : Engine) (f : String × String) → Same e (read_field h check before e f).0
  unfolding read_field
  read_field-Same before e (slot, raw) = elim (Option-cases (lookup slot e.business.slots)) [
    | inl n ↦ rw (read_field, n) (Same-refl e)
    | inr (cfg, n) ↦
        rw (read_field, n)
          (read_as-Same before e cfg slot
            (if kind_is_place cfg.kind then h.said_instead before slot raw else raw))
  ]

  collect-Same :
      (e : Engine) (slot : String) (fill : Option SlotFill) (b : Bool)
      (r : Engine × List SlotFill × List String)
      → Same e r.0
      → Same e (collect h check slot fill b r).0
  collect-Same e slot none b r s = s
  collect-Same e slot (some f) b r s = s

  read_fields-Same :
      (before e : Engine) (fs : List (String × String)) → Same e (read_fields h check before e fs).0
  unfolding read_fields
  read_fields-Same before e [] = Same-refl e
  read_fields-Same before e (f ∷ fs) =
      let r = read_field h check before e f in
      collect-Same e f.0 r.1 r.2 (read_fields h check before r.0 fs) (
        Same-trans e r.0 (read_fields h check before r.0 fs).0 (read_field-Same before e f)
          (read_fields-Same before r.0 fs))

unawaited-ids : (t : Step) → id_of (unawaited t) ≡ id_of t
unawaited-ids (collecting a) = refl
unawaited-ids (confirming_slot s) = refl
unawaited-ids awaiting_confirmation = refl
unawaited-ids (executing n) = refl

settle-Same :
    (e : Engine) (before : List (String × SlotState)) (c : Option PipelineRun)
    → Same (at e c) (settle before (at e c) c).0
settle-Same e before none = (refl, λ i. i, refl)
settle-Same e before (some run) = elim (Bool-cases (slots_eq run.slots before)) [
  | inl t ↦ rw t (refl, λ i. i, refl)
  | inr t ↦ rw t (refl, λ i. unawaited-ids run.step ∙ i, refl)
]

store_fields-Same :
    (e : Engine) (fills : List SlotFill) (c : Option PipelineRun)
    → Same e (store_fields e fills c).0
store_fields-Same e fills none = Same-refl e
store_fields-Same e fills (some run) =
    let e1 = (apply_fills e fills).0 in
    Same-trans e e1 (settle run.slots e1 e1.state.run).0 (apply_fills-Same e fills)
      (settle-Same e1 run.slots e1.state.run)

with_task-Same : (e : Engine) (t : Option (String × String)) → Same e (with_task e t)
with_task-Same e none = Same-refl e
with_task-Same e (some (p, id)) = (refl, λ i. new_run-step e p id, refl)

inferred-Same :
    (e : Engine) (b : Bool) (t : Option (String × String)) → Same e (if b then e else with_task e t)
inferred-Same e true t = Same-refl e
inferred-Same e false t = with_task-Same e t

store_fills-Same : (e : Engine) (fills : List SlotFill) → Same e (store_fills e fills).0
store_fills-Same e [] = Same-refl e
store_fills-Same e (f ∷ fs) =
    let e1 = if is_some e.state.run then e else with_task e (infer_pipeline e (f ∷ fs)) in
    Same-trans e e1 (store_fields e1 (f ∷ fs) e1.state.run).0
      (inferred-Same e (is_some e.state.run) (infer_pipeline e (f ∷ fs)))
      (store_fields-Same e1 (f ∷ fs) e1.state.run)

pub apply_agent_fields-Same :
    (h : Hearing) (check : String → Check) (e : Engine) (fields : List (String × String))
    → Same e (apply_agent_fields h check e fields).0
unfolding apply_agent_fields
apply_agent_fields-Same h check e fields =
    let fs = as_this_tasks e fields in
    let r = read_fields h check e e fs in
    Same-trans e r.0 (store_fills r.0 r.1).0 (read_fields-Same h check e e fs)
      (store_fills-Same r.0 r.1)

clear-step : (run : PipelineRun) (slot : String) → (clear run slot).step ≡ run.step
unfolding clear
clear-step run slot = ground arith

clear_city-Same :
    (e : Engine) (run : PipelineRun) (s : Option String)
    → Same (at e (some run)) (clear_city (at e (some run)) (some run) s)
clear_city-Same e run none = (refl, λ i. i, refl)
clear_city-Same e run (some slot) = (refl, λ i. ap id_of (clear-step run slot) ∙ i, refl)

misplaced-Same :
    (h : Hearing) (e : Engine) (t : String) (c : Option PipelineRun)
    → Same (at e c) (misplaced_city h (at e c) t)
unfolding misplaced_city
misplaced-Same h e t none = (refl, λ i. i, refl)
misplaced-Same h e t (some run) = elim (Bool-cases (is_collecting run.step)) [
  | inl b ↦ rw (misplaced_city, b) (clear_city-Same e run (h.misplaced (at e (some run)) t))
  | inr b ↦ rw (misplaced_city, b) (refl, λ i. i, refl)
]

pub misplaced_city-Same : (h : Hearing) (e : Engine) (t : String) → Same e (misplaced_city h e t)
misplaced_city-Same h e t = misplaced-Same h e t e.state.run

pub take_task-Same : (e : Engine) (i : IntentConfig) → Same e (take_task e i)
unfolding take_task
take_task-Same e i = elim (Option-cases i.pipeline) [
  | inl n ↦ rw (take_task, n) (Same-refl e)
  | inr (p, n) ↦ elim (Bool-cases (on_pipeline e.state.run p)) [
    | inl b ↦ rw (take_task, n, b) (Same-refl e)
    | inr b ↦
        rw (take_task, n, b)
          (let e1 = with_state e (record (e.state) {
            run = none;
            suspended = suspend_run e.state.run e.state.suspended;
          }) in
            let e2 = with_state e1 (record (e1.state) { run = some (new_run e1 p i.id) }) in
            Same-trans e e2 (fill_from_other_tasks e2) (refl, λ j. new_run-step e1 p i.id, refl)
              (fill_from_other_tasks-Same e2))
  ]
]
