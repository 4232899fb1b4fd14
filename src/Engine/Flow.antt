-- ===== src/Engine/Flow.antt =====
-- crates/callora-core/src/engine.rs: moving a task forward, finishing it, and giving up on it.
use callora.Base.{
  ℕ, suc, Bool, true, false, Option, none, some, List, [], ◌∷◌, String, if◌then◌else◌, ltb, str_eq,
  lookup, insert, contains_key, not, ◌&&◌, mem,
}
use callora.Call.Run.{
  PipelineRun, SlotState, Step, collecting, confirming_slot, awaiting_confirmation, executing,
  values_of,
}
use callora.Engine.Config.{
  PipelineConfig, PipelineSlot, SlotConfig, ActionConfig, ConfirmConfig, continue, hang_up,
  say_goodbye, AfterPipeline,
}
use callora.Engine.Speech.{ActionInput, run_action, hangup}
use callora.Engine.Out.{Out}
use callora.Engine.Out
use callora.Engine.State.{Engine, CompletedRun, Report, failed, ending}
use callora.Engine.Env.{Env}
use callora.Engine.Say.{
  pipeline_of, with_state, has_response, render_ctx, render_plan, say, say_here, say_some, ask,
  or_else,
}
use callora.Engine.Fill.{with_run, fill_defaults}

abbrev pub with_step : Engine → PipelineRun → Step → Engine
with_step e run step = with_run e (record run { step = step })

-- The first value, in the task's order, that is too uncertain to use without asking.
unfoldable pub first_doubtful :
    List (String × SlotConfig)
    → List PipelineSlot
    → List (String × SlotState)
    → Option (String × SlotState)
first_doubtful configs [] slots = none
first_doubtful configs (ps ∷ pss) slots =
    let rest = first_doubtful configs pss slots in
    elim (lookup ps.slot slots) [
      | none ↦ rest
      | some s ↦ elim (lookup ps.slot configs) [
        | none ↦ rest
        | some cfg ↦
            if not s.confirmed && ltb s.confidence cfg.confirm_below
            then some (ps.slot, s)
            else rest
      ]
    ]

unfoldable pub first_missing : List PipelineSlot → List (String × SlotState) → Option String
first_missing [] slots = none
first_missing (ps ∷ pss) slots =
    let rest = first_missing pss slots in
    if ps.required && not (contains_key ps.slot slots) then some ps.slot else rest

-- The first value below what the action accepts, in the order of the keys.
unfoldable pub first_below : ℕ → List (String × SlotState) → Option (String × SlotState)
first_below least [] = none
first_below least ((k, s) ∷ m) =
    let rest = first_below least m in
    if not s.confirmed && ltb s.confidence least then some (k, s) else rest

abbrev pub below_action : Option ActionConfig → PipelineRun → Option (String × SlotState)
below_action none run = none
below_action (some a) run = first_below a.min_confidence run.slots

abbrev pub changes_something : Option ActionConfig → Bool
changes_something none = false
changes_something (some a) = a.requires_confirmation

input_of : Engine → ℕ → PipelineRun → ActionInput
input_of e run_id run = record {
  run_id = run_id;
  pipeline = run.pipeline;
  intent = run.intent;
  slots = values_of run.slots;
  customer = e.state.customer;
  caller_phone = e.state.caller_phone;
}

unfoldable pub action_input : Engine → ℕ → Option ActionInput
unfolding input_of
action_input e run_id = elim e.state.run [ none ↦ none | some run ↦ some (input_of e run_id run) ]

completed_of : PipelineRun → String → Option Report → CompletedRun
completed_of run outcome result = record {
  pipeline = run.pipeline;
  outcome = outcome;
  slots = values_of run.slots;
  result = result;
}

unfoldable pub close_run : Engine → String → Option Report → Engine
unfolding completed_of
close_run e outcome result = elim e.state.run [
  | none ↦ e
  | some run ↦ with_state e (record (e.state) {
    run = none;
    completed = completed_of run outcome result ∷ e.state.completed;
  })
]

-- What `finish_run` does is passed to `advance` as a function.
abbrev pub Finish : Type 0
Finish = Engine → Out → String → Option Report → Engine × Out

module _ (w : Env) where
  unfoldable pub goodbye : Engine → Out → Engine × Out
  unfolding say
  goodbye e out =
      let response = or_else (e.business.meta_response say_goodbye) e.business.goodbye in
      let (e1, out1) = say_here w e out response true in
      (with_state e1 (record (e1.state) { phase = ending }), Out.push out1 hangup)

  unfoldable pub offer_more : Engine → Out → Engine × Out
  unfolding say
  offer_more e out =
      let (e1, out1) = say_here w e out e.business.anything_else true in
      (record e1 { offered_more = true }, out1)

  -- A value is read back alone.
  unfoldable pub confirm_value : Engine → Out → PipelineRun → String × SlotState → Engine × Out
  unfolding say
  confirm_value e out run (slot, s) =
      let e1 = with_step e run (confirming_slot slot) in
      let ctx = render_ctx e1 in
      say w e1 out e1.business.confirm_slot
        (record ctx { extra = insert "value" (w.spoken s.value) ctx.extra }) true

  abbrev pub speak_filler : Engine → Out → Option String → Engine × Out
  speak_filler e out none = (e, out)
  speak_filler e out (some filler) =
      if Out.has_speech out
      then (e, out)
      else (let (plan, e1) = render_plan w e filler (render_ctx e) in
          (e1, elim plan [ none ↦ out | some p ↦ Out.flush (Out.speak out p false) true ]))

  -- The action is started under a new run id.
  unfoldable pub execute :
      Engine → Out → PipelineRun → PipelineConfig → String → ℕ → Option ActionInput → Engine × Out
  unfolding render_plan
  execute e out run pipeline action_id run_id input =
      let e1 = with_run e (record run { step = executing run_id; attempts = 1 }) in
      let (e2, out2) = speak_filler e1 out pipeline.filler in
      (e2, Out.push out2 (run_action run_id action_id input))

  unfoldable pub act : Finish → Engine → Out → PipelineRun → PipelineConfig → String → Engine × Out
  unfolding confirm_value execute action_input say
  act finish e out run pipeline action_id =
      let action = lookup action_id e.business.actions in
      elim (below_action action run) [
        | some doubtful ↦ confirm_value e out run doubtful
        | none ↦
            let run_id = e.state.next_action_run in
            let e1 = with_state e (record (e.state) { next_action_run = suc run_id }) in
            let input = action_input e1 run_id in
            if not (changes_something action)
              && mem (w.failed_key action_id input) e1.state.failed_actions
            then (let (e2, out2) = say_some w e1 out pipeline.on_failure true in
                finish e2 out2 "failed" (some (failed "failed before in this call")))
            else execute e1 out run pipeline action_id run_id input
      ]

  abbrev pub unread : Option ConfirmConfig → PipelineRun → Option ConfirmConfig
  unread none run = none
  unread (some c) run = if run.confirmed then none else some c

  -- Nothing is doubtful or missing: the read-back, the action, or the end of the task.
  unfoldable pub complete : Finish → Engine → Out → PipelineRun → PipelineConfig → Engine × Out
  unfolding act say
  complete finish e out run pipeline = elim (unread pipeline.confirm run) [
    | some confirm ↦
        let e1 = with_step e run awaiting_confirmation in say_here w e1 out confirm.response true
    | none ↦ elim pipeline.action [
      | some action_id ↦ act finish e out run pipeline action_id
      | none ↦
          let (e1, out1) = say_some w e out pipeline.on_complete true in
          finish e1 out1 "completed" none
    ]
  ]

  unfoldable pub move_on :
      Finish → Engine → Out → Bool → PipelineRun → PipelineConfig → Engine × Out
  unfolding confirm_value complete first_doubtful first_missing ask
  move_on finish e out acknowledge run pipeline =
      elim (first_doubtful e.business.slots pipeline.slots run.slots) [
        | some doubtful ↦ confirm_value e out run doubtful
        | none ↦ elim (first_missing pipeline.slots run.slots) [
          | some slot ↦ ask w (with_step e run (collecting (some slot))) out slot acknowledge
          | none ↦ complete finish e out run pipeline
        ]
      ]

  abbrev pub advance_with : Finish → Engine → Out → Bool → Engine × Out
  advance_with finish e out acknowledge = elim e.state.run [
    | none ↦ (e, out)
    | some run ↦
        let pipeline = pipeline_of e run in
        let e1 = fill_defaults w e pipeline in
        elim e1.state.run [
          | none ↦ (e1, out)
          | some run1 ↦ move_on finish e1 out acknowledge run1 pipeline
        ]
  ]

  -- After the last task: goodbye, the task's own offer, or "anything else?".
  unfoldable pub after_run : Engine → Out → AfterPipeline → Option String → String → Engine × Out
  unfolding goodbye offer_more say
  after_run e out hang_up offer outcome =
      if str_eq outcome "success" then goodbye e out else offer_more e out
  after_run e out continue none outcome = offer_more e out
  after_run e out continue (some offer) outcome =
      if has_response e offer
      then (let (e1, out1) = say_here w e out offer true in
          (record e1 { offered_more = true }, out1))
      else offer_more e out

  -- `finish_run` where these tasks are suspended, the next to resume first.
  unfoldable pub finish_with : List PipelineRun → Finish
  unfolding after_run close_run move_on fill_defaults pipeline_of
  finish_with [] e out outcome result = elim e.state.run [
    | none ↦ (e, out)
    | some run ↦
        let pipeline = pipeline_of e run in
        after_run (close_run e outcome result) out pipeline.after pipeline.offer outcome
  ]
  finish_with (resumed ∷ rest) e out outcome result = elim e.state.run [
    | none ↦ (e, out)
    | some run ↦
        let closed = close_run e outcome result in
        let s = record (closed.state) { run = some resumed; suspended = rest } in
        advance_with (finish_with rest) (with_state closed s) out false
  ]

  unfoldable pub finish_run : Finish
  unfolding finish_with
  finish_run e = finish_with e.state.suspended e

  unfoldable pub advance : Engine → Out → Bool → Engine × Out
  unfolding finish_run move_on fill_defaults pipeline_of
  advance e out acknowledge = advance_with (finish_with e.state.suspended) e out acknowledge
