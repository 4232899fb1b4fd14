-- ===== src/Engine/Silence/Ends.antt =====
-- crates/callora-core/src/engine.rs: a caller who stays silent does not hold the line for ever.
use callora.Base.{
  ℕ, ◌+◌, ◌≤◌, suc, zero, Bool, true, false, Option, none, some, [], String, ◌≡◌, refl, arith, ltb,
  ◌&&◌, not, is_some, Bool-cases, ◌⊎◌, inl, inr, ap, ap₂, sym, ◌||◌, if◌then◌else◌, ◌∙◌, subst,
}
use callora.Call.Run.{PipelineRun}
use callora.Engine.Config.{SilenceConfig, Business}
use callora.Engine.Out.{Out}
use callora.Engine.Out
use callora.Engine.State.{Engine, ending}
use callora.Engine.Env.{Env}
use callora.Engine.Say.{finish, remember, say_here, say_some, render_ctx, with_state}
use callora.Engine.Flow.{goodbye}
use callora.Engine.Handoff.{executes}
use callora.Engine.Frame.{Keeps, Keeps-refl, Keeps-trans, say-Keeps, say_some-Keeps}
use callora.Engine.Silence.{
  is_active, is_busy, patience, on_silence, counted_silence, said_goodbye, reprompt, patiently,
  bump, succeeded_last, in_task,
}

-- The silences that a business lets pass while a task is in this state.
abbrev limit : Business → Option PipelineRun → ℕ
limit b run =
    b.silence.max_reprompts
    + (if in_task run && is_some b.silence.patient_response then b.silence.patient_reprompts else 0)

module _ (w : Env) where
  -- The engine after this many silences in a row.
  abbrev pub silences : ℕ → Engine → Engine
  silences zero e = e
  silences (suc n) e = silences n (on_silence w e).0

  finish-Keeps : (e : Engine) (o : Out) → Keeps e (finish w e o).0
  unfolding finish remember
  finish-Keeps e o = ground (arith, Keeps-refl e)

  goodbye-phase : (e : Engine) → (said_goodbye w e).0.state.phase ≡ ending
  unfolding said_goodbye goodbye
  goodbye-phase e = (finish-Keeps (goodbye w e Out.empty).0 (goodbye w e Out.empty).1).phase

  reprompt-Keeps : (e : Engine) → Keeps e (reprompt w e).0
  unfolding reprompt
  reprompt-Keeps e =
      let s = say_some w e Out.empty e.business.silence.response false in
      Keeps-trans e s.0 _ (say_some-Keeps w e Out.empty e.business.silence.response false)
        (finish-Keeps s.0 _)

  said-Keeps :
      (e : Engine) (r : String)
      → Keeps e (finish w (say_here w e Out.empty r false).0 (say_here w e Out.empty r false).1).0
  said-Keeps e r =
      let s = say_here w e Out.empty r false in
      Keeps-trans e s.0 _ (say-Keeps w e Out.empty r (render_ctx e) false) (finish-Keeps s.0 s.1)

  patiently-Keeps : (e : Engine) (r : Option String) → Keeps e (patiently w e r).0
  patiently-Keeps e none = reprompt-Keeps e
  patiently-Keeps e (some r) = said-Keeps e r

  -- A silence ends the call or is counted, and changes nothing else of the task.
  counted_cases :
      (e : Engine)
      → ((counted_silence w e).0.state.phase ≡ ending)
        ⊎ (Keeps e (counted_silence w e).0
            × (ltb (e.business.silence.max_reprompts + patience e) e.state.silence_reprompts
                ≡ false))
  unfolding counted_silence
  counted_cases e =
      elim (Bool-cases (ltb (s.max_reprompts + patience e) e.state.silence_reprompts)) [
        | inl h ↦ rw (counted_silence, h) (inl (goodbye-phase e))
        | inr h ↦ elim (Bool-cases (ltb s.max_reprompts e.state.silence_reprompts)) [
          | inr k ↦ rw (counted_silence, h, k) (inr (reprompt-Keeps e, refl))
          | inl k ↦ rw (counted_silence, h, k) (inr (patiently-Keeps e s.patient_response, refl))
        ]
      ]
    where
      s : SilenceConfig
      s = e.business.silence

  busy_silent : (e : Engine) → is_busy e ≡ true → on_silence w e ≡ (e, [])
  unfolding on_silence
  busy_silent e h = rw (on_silence, h)

  ended_busy : (e : Engine) → e.state.phase ≡ ending → is_busy e ≡ true
  ended_busy e h = ap (λ p. not (is_active p) || executes e.state.run) h

  ended_stays : (n : ℕ) (e : Engine) → e.state.phase ≡ ending → (silences n e).state.phase ≡ ending
  ended_stays zero e h = h
  ended_stays (suc n) e h =
      subst (λ r. (silences n r.0).state.phase ≡ ending) (sym (busy_silent e (ended_busy e h)))
        (ended_stays n e h)

  silence_cases :
      (e : Engine)
      → is_busy e ≡ false
      → ((on_silence w e).0.state.phase ≡ ending)
        ⊎ (Keeps (bump (with_state e (record (e.state) { waiting = false }))) (on_silence w e).0
            × (e.state.silence_reprompts + 1 ≤ e.business.silence.max_reprompts + patience e))
  unfolding on_silence
  silence_cases e b = elim (Bool-cases done) [
    | inl d ↦ rw (on_silence, b, d) (inl (goodbye-phase e1))
    | inr d ↦
        rw (on_silence, b, d)
          (elim (counted_cases (bump e1)) [
            | inl h ↦ inl h
            | inr (k, h) ↦ inr (k, ground (arith, h))
          ])
  ]
    where
      e1 : Engine
      e1 = with_state e (record (e.state) { waiting = false })

      done : Bool
      done = e.offered_more && not (is_some e.state.run) && succeeded_last e.state.completed

  still_free :
      (e e' : Engine)
      → Keeps (bump (with_state e (record (e.state) { waiting = false }))) e'
      → is_busy e ≡ false
      → is_busy e' ≡ false
  still_free e e' k b = ap₂ (λ p r. not (is_active p) || executes r) k.phase k.run ∙ b

  same_limit :
      (e e' : Engine)
      → Keeps (bump (with_state e (record (e.state) { waiting = false }))) e'
      → e'.business.silence.max_reprompts + patience e'
        ≡ e.business.silence.max_reprompts + patience e
  same_limit e e' k = ap₂ (λ b r. limit b r) k.business k.run

  -- A caller who stays silent is hung up on: when the call is active and no action is running,
  -- as many silences as the business allows beyond those counted, patient ones included, and one
  -- more, leave the call ending.
  pub silences-end :
      (n : ℕ) (e : Engine)
      → is_busy e ≡ false
      → e.business.silence.max_reprompts + patience e ≤ e.state.silence_reprompts + n
      → (silences (suc n) e).state.phase ≡ ending
  silences-end zero e b h = elim (silence_cases e b) [
    | inl ended ↦ ended
    | inr (k, more) ↦ grind (arith, more, h)
  ]
  silences-end (suc n) e b h = elim (silence_cases e b) [
    | inl ended ↦ ended_stays (suc n) (on_silence w e).0 ended
    | inr (k, more) ↦
        silences-end n (on_silence w e).0 (still_free e (on_silence w e).0 k b)
          (omega (arith, h, same_limit e (on_silence w e).0 k, k.silence_reprompts))
  ]
