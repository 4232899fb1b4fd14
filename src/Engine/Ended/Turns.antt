-- ===== src/Engine/Ended/Turns.antt =====
-- crates/callora-core/src/engine.rs: handoffs, the results of actions and silences end the call once.
use callora.Base.{
  ℕ, suc, ◌+◌, Bool, true, false, Option, none, some, String, ◌≡◌, refl, arith, Option-cases,
  Bool-cases, inl, inr, ◌∙◌, ap, sym, subst, str_eq, ◌||◌, is_some, leb, ltb, lookup,
}
use callora.Call.Run.{PipelineRun}
use callora.Engine.Config.{Json, PipelineConfig}
use callora.Engine.Speech.{hand_off, hangup, run_action}
use callora.Engine.Out.{Out}
use callora.Engine.Out
use callora.Engine.State.{
  Engine, Phase, active, ending, handing_off, Report, returned, failed, outcome_unknown,
}
use callora.Engine.Env.{Env}
use callora.Engine.Say.{
  say_here, say_some, render_ctx, with_state, finish, remember, pipeline_of, or_else,
}
use callora.Engine.Flow.{close_run, changes_something, action_input}
use callora.Engine.Handoff.{handoff, has_desk, to_desk, without_desk, restart_once, with_phase}
use callora.Engine.Frame.{say-Keeps, say-directives, say_some-Keeps, say_some-directives}
use callora.Engine.Summary.{summary}
use callora.Engine.Results.{
  ActionResult, ok, err, awaited, handle_result, on_action_result, force_handoff, ended_if_active,
  succeeded, retried, left_unknown, failed_for_good, count_failure, say_result, named_response,
  or_option, max_attempts_of,
}
use callora.Engine.Ended.{ends, still, EndsOnce, flush-ends, push-ends, kept, left}
use callora.Engine.Ended.Tasks.{said-EndsOnce}
use callora.Engine.Ended.Finishing.{advance-EndsOnce, finish_run-EndsOnce}

module _ (w : Env) where
  to_desk-EndsOnce : (e : Engine) (o : Out) (reason : String) → EndsOnce o (to_desk w e o reason)
  to_desk-EndsOnce e o reason =
      let s = say_here w e o e.business.handoff_response true in
      left o (to_desk w e o reason)
        (push-ends s.1 (hand_off (summary w (with_phase s.0 handing_off) reason))
          ∙ ap (λ n. n + 1)
              (ap ends (say-directives w e o e.business.handoff_response (render_ctx e) true)))
        refl

  without_desk-EndsOnce :
      (e : Engine) (o : Out) (reason : String)
      → e.state.phase ≡ active
      → EndsOnce o (without_desk w e o reason)
  without_desk-EndsOnce e o reason h =
      elim (Bool-cases (str_eq reason "not_understood" || str_eq reason "action_failed")) [
        | inl t ↦ rw t (
            left o (with_phase s.0 ending, Out.push s.1 hangup)
              (push-ends s.1 hangup ∙ ap (λ n. n + 1) quiet) refl)
        | inr t ↦ elim (Bool-cases (is_some s.0.state.run)) [
          | inl r ↦ rw (t, r) (omega (arith, advance-EndsOnce w s.0 s.1 false on, quiet))
          | inr r ↦ rw (t, r) (kept o s quiet on)
        ]
      ]
    where
      s : Engine × Out
      s = say_here w e o e.business.unavailable_response true

      quiet : ends s.1.directives ≡ ends o.directives
      quiet = ap ends (say-directives w e o e.business.unavailable_response (render_ctx e) true)

      on : s.0.state.phase ≡ active
      on = (say-Keeps w e o e.business.unavailable_response (render_ctx e) true).phase ∙ h

  abbrev restarted : Engine → Engine
  restarted e =
      with_state e
        (record (e.state) { fallback_restarts = suc e.state.fallback_restarts; fallback_level = 0 })

  pub handoff-EndsOnce :
      (e : Engine) (o : Out) (reason : String)
      → e.state.phase ≡ active
      → EndsOnce o (handoff w e o reason)
  unfolding handoff
  handoff-EndsOnce e o reason h = elim (Bool-cases (has_desk e)) [
    | inl d ↦ rw (handoff, d) (to_desk-EndsOnce e o reason)
    | inr d ↦ elim (Option-cases (restart_once e reason)) [
      | inl r ↦ rw (handoff, d, r) (without_desk-EndsOnce e o reason h)
      | inr (restart, r) ↦
          rw (handoff, d, r)
            (said-EndsOnce w (restarted e) o restart (render_ctx (restarted e)) true h)
    ]
  ]

  pub finish-ends :
      (e : Engine) (o : Out)
      → ends (finish w e o).1 + still (finish w e o).0.state.phase
        ≡ ends o.directives + still e.state.phase
  unfolding finish remember
  finish-ends e o = ground (arith, flush-ends o false)

  finish-phase : (e : Engine) (o : Out) → (finish w e o).0.state.phase ≡ e.state.phase
  unfolding finish remember
  finish-phase e o = ground arith

  say_result-EndsOnce :
      (e : Engine) (o : Out) (r : Option String) (value : Json)
      → (ends (say_result w e o r value).1.directives ≡ ends o.directives)
        × ((say_result w e o r value).0.state.phase ≡ e.state.phase)
  say_result-EndsOnce e o none value = (refl, refl)
  say_result-EndsOnce e o (some r) value =
      (ap ends (say-directives w e o r _ true), (say-Keeps w e o r _ true).phase)

  succeeded-EndsOnce :
      (e : Engine) (p : PipelineConfig) (value : Json)
      → e.state.phase ≡ active
      → EndsOnce Out.empty (succeeded w e p value)
  unfolding succeeded
  succeeded-EndsOnce e p value h =
      let named = or_option (named_response e value) p.on_success in
      let s = say_result w e Out.empty named value in
      let (quiet, same) = say_result-EndsOnce e Out.empty named value in
      omega
        (arith, finish_run-EndsOnce w s.0 s.1 "success" (some (returned value)) (same ∙ h), quiet)

  abbrev after_words : Engine → Option String → Engine × Out
  after_words e r = say_some w e Out.empty r true

  words_quiet :
      (e : Engine) (r : Option String)
      → ends (after_words e r).1.directives ≡ ends Out.empty.directives
  words_quiet e r = ap ends (say_some-directives w e Out.empty r true)

  closed-phase :
      (e : Engine) (outcome : String) (result : Option Report) (r : Option PipelineRun)
      → (close_run (record e { state = record (e.state) { run = r } }) outcome result).state.phase
        ≡ e.state.phase
  unfolding close_run
  closed-phase e outcome result none = refl
  closed-phase e outcome result (some run) = refl

  left_unknown-EndsOnce :
      (e : Engine) (p : PipelineConfig) (error : String) (id : ℕ)
      → e.state.phase ≡ active
      → EndsOnce Out.empty (left_unknown w e p error id)
  unfolding left_unknown
  left_unknown-EndsOnce e p error id h = elim (Bool-cases (has_desk e)) [
    | inl d ↦
        rw (left_unknown, d)
          (omega (
            arith,
            handoff-EndsOnce s.0 s.1 "action_outcome_unknown" on,
            words_quiet e p.on_unknown,
            ap still (closed-phase k "unknown" (some (outcome_unknown error id)) k.state.run),
          ))
    | inr d ↦
        rw (left_unknown, d)
          (finish_run-EndsOnce w e Out.empty "unknown" (some (outcome_unknown error id)) h)
  ]
    where
      s : Engine × Out
      s = after_words e p.on_unknown

      k : Engine
      k = (handoff w s.0 s.1 "action_outcome_unknown").0

      on : s.0.state.phase ≡ active
      on = (say_some-Keeps w e Out.empty p.on_unknown true).phase ∙ h

  failed_for_good-EndsOnce :
      (e : Engine) (p : PipelineConfig) (a : String) (id : ℕ) (error : String)
      → e.state.phase ≡ active
      → EndsOnce Out.empty (failed_for_good w e p a id error)
  unfolding failed_for_good
  failed_for_good-EndsOnce e p a id error h =
      elim (Bool-cases (leb s.0.business.after_action_failures s.0.state.action_failures)) [
        | inl t ↦
            rw (failed_for_good, t)
              (omega
                (arith, handoff-EndsOnce s.0 s.1 "action_failed" on, words_quiet e1 p.on_failure))
        | inr t ↦
            rw (failed_for_good, t)
              (omega (
                arith,
                finish_run-EndsOnce w s.0 s.1 "failed" (some (failed error)) on,
                words_quiet e1 p.on_failure,
              ))
      ]
    where
      e1 : Engine
      e1 = count_failure w e a id (changes_something (lookup a e.business.actions))

      counted : (changes : Bool) → (count_failure w e a id changes).state.phase ≡ e.state.phase
      counted true = refl
      counted false = refl

      s : Engine × Out
      s = after_words e1 p.on_failure

      on : s.0.state.phase ≡ active
      on = (say_some-Keeps w e1 Out.empty p.on_failure true).phase ∙ counted _ ∙ h

  handle_result-EndsOnce :
      (e : Engine) (run : PipelineRun) (id : ℕ) (result : ActionResult)
      → e.state.phase ≡ active
      → EndsOnce Out.empty (handle_result w e run id result)
  unfolding handle_result retried
  handle_result-EndsOnce e run id (ok value) h = succeeded-EndsOnce e (pipeline_of e run) value h
  handle_result-EndsOnce e run id (err f) h =
      elim (Bool-cases (ltb run.attempts (max_attempts_of (lookup a e.business.actions)))) [
        | inl t ↦
            rw (handle_result, t)
              (omega (arith, push-ends Out.empty (run_action id a (action_input e id)), ap still h))
        | inr t ↦ elim (Bool-cases f.outcome_unknown) [
          | inl u ↦ rw (handle_result, t, u) (left_unknown-EndsOnce e p f.error id h)
          | inr u ↦ rw (handle_result, t, u) (failed_for_good-EndsOnce e p a id f.error h)
        ]
      ]
    where
      p : PipelineConfig
      p = pipeline_of e run

      a : String
      a = or_else p.action ""

  pub nothing_yet : ends Out.empty.directives ≡ 0
  unfolding Out.empty
  nothing_yet = refl

  -- Whatever an action answers in an active call, the directives that follow hand the call over or
  -- hang up once when the call stops being active, and not at all when it goes on.
  pub on_action_result-ends :
      (e : Engine) (id : ℕ) (result : ActionResult)
      → e.state.phase ≡ active
      → ends (on_action_result w e id result).1
          + still (on_action_result w e id result).0.state.phase
        ≡ 1
  unfolding on_action_result
  on_action_result-ends e id result h = elim (Option-cases (awaited e.state.run id)) [
    | inl a ↦ rw (on_action_result, a) (omega (arith, ap still h))
    | inr (run, a) ↦
        let r = handle_result w e run id result in
        rw (on_action_result, a)
          (omega
            (arith, finish-ends r.0 r.1, handle_result-EndsOnce e run id result h, nothing_yet))
  ]

  ended-once :
      (e : Engine) (o : Out) (p : Phase)
      → e.state.phase ≡ p
      → ends o.directives + still p ≡ 1
      → (ends (ended_if_active w e o p).1.directives ≡ 1)
        × (still (ended_if_active w e o p).0.state.phase ≡ 0)
  ended-once e o active h n = (omega (arith, push-ends o hangup, n), refl)
  ended-once e o handing_off h n = (omega (arith, n), ap still h)
  ended-once e o ending h n = (omega (arith, n), ap still h)

  abbrev Forced : Engine → String → Type 0
  Forced e reason =
      (ends (force_handoff w e reason).1 ≡ 1) × (still (force_handoff w e reason).0.state.phase ≡ 0)

  forced : (e : Engine) (reason : String) → Forced (with_phase e active) reason
  unfolding force_handoff
  forced e reason =
      let r = handoff w (with_phase e active) Out.empty reason in
      let once = handoff-EndsOnce (with_phase e active) Out.empty reason refl in
      let x = ended_if_active w r.0 r.1 r.0.state.phase in
      let (one, gone) =
        ended-once r.0 r.1 r.0.state.phase refl (omega (arith, once, nothing_yet)) in
      let f = finish-ends x.0 x.1 in
      let same = finish-phase x.0 x.1 in
      (omega (arith, f, one, ap still same), omega (arith, ap still same, gone))

  -- A call that is forced to a person stops being active, with one directive that hands it over or
  -- hangs up, whether or not anyone is at the desk.
  pub force_handoff-ends :
      (e : Engine) (reason : String)
      → e.state.phase ≡ active
      → (ends (force_handoff w e reason).1 ≡ 1)
        × (still (force_handoff w e reason).0.state.phase ≡ 0)
  force_handoff-ends e reason h =
      subst (λ p. Forced (with_phase e p) reason) (sym h) (forced e reason)
