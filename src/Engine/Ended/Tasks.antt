-- ===== src/Engine/Ended/Tasks.antt =====
-- crates/callora-core/src/engine.rs: the steps of `advance` end the call exactly when they hang up.
use callora.Base.{
  ℕ, suc, Bool, true, false, Option, none, some, String, ◌≡◌, refl, arith, Option-cases, Bool-cases,
  inl, inr, ◌∙◌, ap, lookup, mem, not, ◌&&◌,
}
use callora.Call.Run.{
  PipelineRun, SlotState, awaiting_confirmation, executing, collecting, confirming_slot,
}
use callora.Engine.Config.{PipelineConfig}
use callora.Engine.Speech.{SpeechPlan, ActionInput, run_action}
use callora.Engine.Out.{Out}
use callora.Engine.Out
use callora.Engine.State.{Engine, Report, active}
use callora.Engine.Env.{Env, Context}
use callora.Engine.Say.{render_ctx, render_plan, say, say_some, ask, with_state}
use callora.Engine.Fill.{with_run}
use callora.Engine.Flow.{
  first_doubtful, first_missing, below_action, confirm_value, speak_filler, execute, act, unread,
  complete, move_on, Finish, with_step, action_input, changes_something,
}
use callora.Engine.Frame.{
  say-Keeps, say-directives, say_some-Keeps, say_some-directives, ask-Keeps, ask-directives,
  speak-directives, render_plan-Keeps,
}
use callora.Engine.Ended.{ends, EndsOnce, flush-ends, push-ends, kept, FinishEnds}

module _ (w : Env) where
  pub said-EndsOnce :
      (e : Engine) (o : Out) (r : String) (ctx : Context) (recording : Bool)
      → e.state.phase ≡ active
      → EndsOnce o (say w e o r ctx recording)
  said-EndsOnce e o r ctx recording h =
      kept o (say w e o r ctx recording) (ap ends (say-directives w e o r ctx recording))
        ((say-Keeps w e o r ctx recording).phase ∙ h)

  pub asked-EndsOnce :
      (e : Engine) (o : Out) (slot : String) (acknowledge : Bool)
      → e.state.phase ≡ active
      → EndsOnce o (ask w e o slot acknowledge)
  asked-EndsOnce e o slot acknowledge h =
      kept o (ask w e o slot acknowledge) (ap ends (ask-directives w e o slot acknowledge))
        ((ask-Keeps w e o slot acknowledge).phase ∙ h)

  confirm_value-EndsOnce :
      (e : Engine) (o : Out) (run : PipelineRun) (d : String × SlotState)
      → e.state.phase ≡ active
      → EndsOnce o (confirm_value w e o run d)
  unfolding confirm_value
  confirm_value-EndsOnce e o run (slot, s) h =
      said-EndsOnce (with_step e run (confirming_slot slot)) o _ _ true h

  abbrev filled : Out → Option SpeechPlan → Out
  filled o plan = elim plan [ none ↦ o | some p ↦ Out.flush (Out.speak o p false) true ]

  filled-ends :
      (o : Out) (plan : Option SpeechPlan) → ends (filled o plan).directives ≡ ends o.directives
  filled-ends o none = refl
  filled-ends o (some p) =
      flush-ends (Out.speak o p false) true ∙ ap ends (speak-directives o p false)

  speak_filler-ends :
      (e : Engine) (o : Out) (f : Option String)
      → ((speak_filler w e o f).0.state.phase ≡ e.state.phase)
        × (ends (speak_filler w e o f).1.directives ≡ ends o.directives)
  speak_filler-ends e o none = (refl, refl)
  speak_filler-ends e o (some f) = elim (Bool-cases (Out.has_speech o)) [
    | inl h ↦ rw h (refl, refl)
    | inr h ↦ rw h (
      (render_plan-Keeps w e f (render_ctx e)).phase,
      filled-ends o (render_plan w e f (render_ctx e)).0,
    )
  ]

  execute-EndsOnce :
      (e : Engine) (o : Out) (run : PipelineRun) (p : PipelineConfig) (a : String) (n : ℕ)
      (input : Option ActionInput)
      → e.state.phase ≡ active
      → EndsOnce o (execute w e o run p a n input)
  unfolding execute
  execute-EndsOnce e o run p a n input h =
      let e1 = with_run e (record run { step = executing n; attempts = 1 }) in
      let f = speak_filler w e1 o p.filler in
      let (same, quiet) = speak_filler-ends e1 o p.filler in
      kept o (execute w e o run p a n input)
        (omega (arith, push-ends f.1 (run_action n a input), quiet)) (same ∙ h)

  finished :
      (finish : Finish)
      → FinishEnds finish
      → (e : Engine) (o : Out) (r : Option String) (outcome : String) (result : Option Report)
      → e.state.phase ≡ active
      → EndsOnce o (finish (say_some w e o r true).0 (say_some w e o r true).1 outcome result)
  finished finish ok e o r outcome result h =
      let s = say_some w e o r true in
      omega (
        arith,
        ok s.0 s.1 outcome result ((say_some-Keeps w e o r true).phase ∙ h),
        ap ends (say_some-directives w e o r true),
      )

  act-EndsOnce :
      (finish : Finish)
      → FinishEnds finish
      → (e : Engine) (o : Out) (run : PipelineRun) (p : PipelineConfig) (a : String)
      → e.state.phase ≡ active
      → EndsOnce o (act w finish e o run p a)
  unfolding act
  act-EndsOnce finish ok e o run p a h =
      elim (Option-cases (below_action (lookup a e.business.actions) run)) [
        | inr (v, b) ↦ rw (b, act) (confirm_value-EndsOnce e o run v h)
        | inl b ↦ elim (Bool-cases known) [
          | inl t ↦ rw (b, act, t) (finished finish ok e1 o p.on_failure "failed" _ h)
          | inr t ↦ rw (b, act, t) (execute-EndsOnce e1 o run p a n (action_input e1 n) h)
        ]
      ]
    where
      n : ℕ
      n = e.state.next_action_run

      e1 : Engine
      e1 = with_state e (record (e.state) { next_action_run = suc n })

      known : Bool
      known =
          not (changes_something (lookup a e.business.actions))
          && mem (w.failed_key a (action_input e1 n)) e1.state.failed_actions

  complete-EndsOnce :
      (finish : Finish)
      → FinishEnds finish
      → (e : Engine) (o : Out) (run : PipelineRun) (p : PipelineConfig) → e.state.phase ≡ active
      → EndsOnce o (complete w finish e o run p)
  unfolding complete
  complete-EndsOnce finish ok e o run p h = elim (Option-cases (unread w p.confirm run)) [
    | inr (c, u) ↦
        rw (u, complete) (said-EndsOnce (with_step e run awaiting_confirmation) o _ _ true h)
    | inl u ↦ elim (Option-cases p.action) [
      | inr (a, q) ↦ rw (u, complete, q) (act-EndsOnce finish ok e o run p a h)
      | inl q ↦ rw (u, complete, q) (finished finish ok e o p.on_complete "completed" none h)
    ]
  ]

  pub move_on-EndsOnce :
      (finish : Finish)
      → FinishEnds finish
      → (e : Engine) (o : Out) (acknowledge : Bool) (run : PipelineRun) (p : PipelineConfig)
      → e.state.phase ≡ active
      → EndsOnce o (move_on w finish e o acknowledge run p)
  unfolding move_on
  move_on-EndsOnce finish ok e o acknowledge run p h =
      elim (Option-cases (first_doubtful e.business.slots p.slots run.slots)) [
        | inr (v, d) ↦ rw (d, move_on) (confirm_value-EndsOnce e o run v h)
        | inl d ↦ elim (Option-cases (first_missing p.slots run.slots)) [
          | inr (slot, m) ↦
              rw (d, move_on, m)
                (asked-EndsOnce (with_step e run (collecting (some slot))) o slot acknowledge h)
          | inl m ↦ rw (d, move_on, m) (complete-EndsOnce finish ok e o run p h)
        ]
      ]
