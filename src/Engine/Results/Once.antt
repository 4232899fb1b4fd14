-- ===== src/Engine/Results/Once.antt =====
-- crates/callora-core/src/engine.rs: a successful action's result is handled once.
use callora.Base.{
  ℕ, ◌≤◌, ◌<◌, true, false, Option, none, some, [], String, ◌≡◌, refl, arith, Option-cases, inl,
  inr, ap, ◌∙◌, All,
}
use callora.Call.Run.{
  PipelineRun, Step, executing, collecting, confirming_slot, awaiting_confirmation,
}
use callora.Engine.Config.{Json, PipelineConfig}
use callora.Engine.Out.{Out}
use callora.Engine.Out
use callora.Engine.State.{Engine, returned}
use callora.Engine.Env.{Env}
use callora.Engine.Say.{pipeline_of, finish, remember}
use callora.Engine.Frame.{say-Keeps, Keeps, Keeps-refl}
use callora.Engine.Started.{id_of, ids_of}
use callora.Engine.Started.Advance.{finish_run-Started}
use callora.Engine.Results.{
  ActionResult, ok, awaited, runs_as, succeeded, handle_result, on_action_result, say_result,
  named_response, or_option,
}

fresh_step :
    (s : Step) (n id k : ℕ) → id < n → All (λ i. (n ≤ i) × (i < k)) (id_of s) → runs_as s id ≡ false
fresh_step (executing i) n id k h f = ground (arith, f.0)
fresh_step (collecting _) n id k h f = refl
fresh_step (confirming_slot _) n id k h f = refl
fresh_step awaiting_confirmation n id k h f = refl

fresh_awaited :
    (r : Option PipelineRun) (n id k : ℕ)
    → id < n
    → All (λ i. (n ≤ i) × (i < k)) (ids_of r)
    → awaited r id ≡ none
fresh_awaited none n id k h f = refl
fresh_awaited (some run) n id k h f = rw (fresh_step run.step n id k h f) refl

module _ (w : Env) where
  say_result-Keeps :
      (e : Engine) (o : Out) (r : Option String) (value : Json)
      → Keeps e (say_result w e o r value).0
  say_result-Keeps e o none value = Keeps-refl e
  say_result-Keeps e o (some r) value = say-Keeps w e o r _ true

  succeeded-fresh :
      (e : Engine) (p : PipelineConfig) (value : Json) (id : ℕ)
      → id < e.state.next_action_run
      → awaited (succeeded w e p value).0.state.run id ≡ none
  unfolding succeeded
  succeeded-fresh e p value id h =
      let named = or_option (named_response e value) p.on_success in
      let k = say_result-Keeps e Out.empty named value in
      let (e1, o1) = say_result w e Out.empty named value in
      let s = finish_run-Started w e1 o1 "success" (some (returned value)) in
      fresh_awaited _ e1.state.next_action_run id _ (omega (arith, h, k.next_action_run)) s.fresh

  finish-run : (e : Engine) (o : Out) → (finish w e o).0.state.run ≡ e.state.run
  unfolding finish remember
  finish-run e o = ground arith

  settled :
      (e : Engine) (id : ℕ) (again : ActionResult)
      → awaited e.state.run id ≡ none
      → on_action_result w e id again ≡ (e, [])
  unfolding on_action_result
  settled e id again h = rw (h, on_action_result)

  on_action_result-ok :
      (e : Engine) (id : ℕ) (value : Json)
      → id < e.state.next_action_run
      → awaited (on_action_result w e id (ok value)).0.state.run id ≡ none
  unfolding on_action_result handle_result
  on_action_result-ok e id value h = elim (Option-cases (awaited e.state.run id)) [
    | inl a ↦ rw (a, on_action_result) a
    | inr (run, a) ↦
        let r = succeeded w e (pipeline_of e run) value in
        rw (a, on_action_result)
          (ap (λ x. awaited x id) (finish-run r.0 r.1)
            ∙ succeeded-fresh e (pipeline_of e run) value id h)
  ]

  -- Once a run's action has succeeded, any further result under its run id, a failure
  -- included, changes nothing and says nothing. The id is one that the call has given out.
  pub on_action_result-once :
      (e : Engine) (id : ℕ) (value : Json) (again : ActionResult)
      → id < e.state.next_action_run
      → on_action_result w (on_action_result w e id (ok value)).0 id again
        ≡ ((on_action_result w e id (ok value)).0, [])
  on_action_result-once e id value again h =
      settled (on_action_result w e id (ok value)).0 id again (on_action_result-ok e id value h)
