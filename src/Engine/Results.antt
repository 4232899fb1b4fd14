-- ===== src/Engine/Results.antt =====
-- crates/callora-core/src/engine.rs: the results of business actions, and forced handoffs.
pub mod Once
pub mod Retry
pub mod Last
use callora.Base.{
  ℕ, ◌+◌, suc, Bool, true, false, Option, none, some, List, [], ◌∷◌, ◌++◌, String, if◌then◌else◌,
  ltb, leb, str_eq, not, lookup, mem, ◌==◌,
}
use callora.Call.Run.{
  PipelineRun, Step, executing, collecting, confirming_slot, awaiting_confirmation,
}
use callora.Engine.Config.{Json, Fields, object, field, end, str, PipelineConfig, ActionConfig}
use callora.Engine.Speech.{Directive, run_action, hangup}
use callora.Engine.Out.{Out}
use callora.Engine.Out
use callora.Engine.State.{
  CallState, Engine, Phase, active, ending, handing_off, returned, failed, outcome_unknown,
}
use callora.Engine.Env.{Env}
use callora.Engine.Say.{
  with_state, has_response, pipeline_of, render_ctx, say, say_some, or_else, finish,
}
use callora.Engine.Fill.{with_run}
use callora.Engine.Flow.{finish_run, close_run, action_input, changes_something}
use callora.Engine.Handoff.{handoff, has_desk, with_phase}

pub record ActionFailure : Type 0 where
  pub error : String
  pub outcome_unknown : Bool

pub data ActionResult : Type 0 where
  ok : Json → ActionResult
  err : ActionFailure → ActionResult

abbrev pub get_field : String → Fields → Option Json
get_field k end = none
get_field k (field j v fs) = if str_eq j k then some v else get_field k fs

abbrev pub text_of : Option Json → Option String
text_of (some (str s)) = some s
text_of _ = none

-- The response that a result names, if the business has it.
abbrev pub named_response : Engine → Json → Option String
named_response e (object fs) = elim (text_of (get_field "response" fs)) [
  | none ↦ none
  | some r ↦ if has_response e r then some r else none
]
named_response e _ = none

abbrev pub or_option : Option String → Option String → Option String
or_option none b = b
or_option (some a) b = some a

abbrev pub max_attempts_of : Option ActionConfig → ℕ
max_attempts_of none = 1
max_attempts_of (some a) = a.max_attempts

abbrev pub runs_as : Step → ℕ → Bool
runs_as (executing id) run_id = id == run_id
runs_as (collecting _) run_id = false
runs_as (confirming_slot _) run_id = false
runs_as awaiting_confirmation run_id = false

-- The run whose action this is the result of.
abbrev pub awaited : Option PipelineRun → ℕ → Option PipelineRun
awaited none run_id = none
awaited (some run) run_id = if runs_as run.step run_id then some run else none

module _ (w : Env) where
  abbrev pub say_result : Engine → Out → Option String → Json → Engine × Out
  say_result e out none value = (e, out)
  say_result e out (some r) value =
      let ctx = render_ctx e in say w e out r (record ctx { result = some value }) true

  unfoldable pub succeeded : Engine → PipelineConfig → Json → Engine × Out
  unfolding say finish_run
  succeeded e pipeline value =
      let named = or_option (named_response e value) pipeline.on_success in
      let (e1, out1) = say_result e Out.empty named value in
      finish_run w e1 out1 "success" (some (returned value))

  -- The same run id again: the backend tells a retry from a new request by it.
  unfoldable pub retried : Engine → PipelineRun → String → ℕ → Engine × Out
  unfolding action_input
  retried e run action_id run_id =
      let input = action_input e run_id in
      (
        with_run e (record run { attempts = suc run.attempts }),
        Out.push Out.empty (run_action run_id action_id input),
      )

  unfoldable pub left_unknown : Engine → PipelineConfig → String → ℕ → Engine × Out
  unfolding has_desk say handoff close_run finish_run
  left_unknown e pipeline error run_id =
      let result = some (outcome_unknown error run_id) in
      if has_desk e
      then (let (e1, out1) = say_some w e Out.empty pipeline.on_unknown true in
          let (e2, out2) = handoff w e1 out1 "action_outcome_unknown" in
          (close_run e2 "unknown" result, out2))
      else finish_run w e Out.empty "unknown" result

  -- A task that changes something counts toward handing the call over.
  abbrev pub count_failure : Engine → String → ℕ → Bool → Engine
  count_failure e action_id run_id true =
      with_state e (record (e.state) { action_failures = suc e.state.action_failures })
  count_failure e action_id run_id false =
      let key = w.failed_key action_id (action_input e run_id) in
      with_state e (record (e.state) {
        failed_actions =
            if mem key e.state.failed_actions
            then e.state.failed_actions
            else e.state.failed_actions ++ key ∷ [];
      })

  unfoldable pub failed_for_good : Engine → PipelineConfig → String → ℕ → String → Engine × Out
  unfolding say handoff finish_run action_input
  failed_for_good e pipeline action_id run_id error =
      let changes = changes_something (lookup action_id e.business.actions) in
      let e1 = count_failure e action_id run_id changes in
      let (e2, out2) = say_some w e1 Out.empty pipeline.on_failure true in
      if leb e2.business.after_action_failures e2.state.action_failures
      then handoff w e2 out2 "action_failed"
      else finish_run w e2 out2 "failed" (some (failed error))

  unfoldable pub handle_result : Engine → PipelineRun → ℕ → ActionResult → Engine × Out
  unfolding succeeded retried left_unknown failed_for_good pipeline_of
  handle_result e run run_id (ok value) = succeeded e (pipeline_of e run) value
  handle_result e run run_id (err failure) =
      let pipeline = pipeline_of e run in
      let action_id = or_else pipeline.action "" in
      if ltb run.attempts (max_attempts_of (lookup action_id e.business.actions))
      then retried e run action_id run_id
      else if failure.outcome_unknown
      then left_unknown e pipeline failure.error run_id
      else failed_for_good e pipeline action_id run_id failure.error

  unfoldable pub on_action_result : Engine → ℕ → ActionResult → Engine × List Directive
  unfolding handle_result finish
  on_action_result e run_id result = elim (awaited e.state.run run_id) [
    | none ↦ (e, [])
    | some run ↦ let (e1, out1) = handle_result e run run_id result in finish w e1 out1
  ]

  abbrev pub ended_if_active : Engine → Out → Phase → Engine × Out
  ended_if_active e out active = (with_phase e ending, Out.push out hangup)
  ended_if_active e out _ = (e, out)

  unfoldable pub force_handoff : Engine → String → Engine × List Directive
  unfolding handoff finish
  force_handoff e reason = elim e.state.phase [
    | active ↦
        let (e1, out1) = handoff w e Out.empty reason in
        let (e2, out2) = ended_if_active e1 out1 e1.state.phase in finish w e2 out2
    | handing_off ↦ (e, [])
    | ending ↦ (e, [])
  ]
