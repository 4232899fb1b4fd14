-- ===== src/Engine/Conversation/Ends.antt =====
-- crates/callora-core/src/engine.rs: a call is handed over or hung up once, whatever is said and in whatever order.
use callora.Base.{
  ◌+◌, Bool, true, false, Option, none, some, List, [], ◌∷◌, String, ◌≡◌, refl, arith, ◌∙◌, ap, ap₂,
  ◌⊎◌, inl, inr, Bool-cases, Option-cases, is_some,
}
use callora.Call.Run.{PipelineRun}
use callora.Engine.Speech.{Directive}
use callora.Engine.Out.{Out}
use callora.Engine.Out
use callora.Engine.State.{Engine, Phase, active, handing_off, ending}
use callora.Engine.Env.{Env, Context}
use callora.Engine.Say.{render_plan}
use callora.Engine.Handoff.{with_phase}
use callora.Engine.Results.{force_handoff}
use callora.Engine.Silence.{is_active, on_noise, on_unheard, on_hello, on_silence}
use callora.Engine.Utterance.{on_utterance}
use callora.Engine.Agent.{Hearing}
use callora.Engine.Agent.Whole.{on_agent_turn}
use callora.Engine.Shortcuts.{
  start, replay_last, on_no_to_optional, no_in, on_closing, greet, greetings, greeting_ctx,
}
use callora.Engine.Frame.{speak-directives, render_plan-Keeps}
use callora.Engine.Ended.{ends, still, ends-append}
use callora.Engine.Ended.Turns.{finish-ends, force_handoff-ends, on_action_result-ends, nothing_yet}
use callora.Engine.Utterance.Ends.{GoingOn, Once, on_utterance-ends}
use callora.Engine.Agent.Ends.{on_agent_turn-ends, agent_steps}
use callora.Engine.Conversation.{
  Event, greeting, customer, utterance, decision, no_said, farewell, result, noise, unheard, hello,
  silence, replay, forced, tried, turn, InTime, Conversation, begun, goes_on,
}
use callora.Engine.Conversation.Closed

module _ (w : Env) (h : Hearing) where
  abbrev Ended : Engine × List Directive → Type 0
  Ended r = ends r.1 + still r.0.state.phase ≡ 1

  -- Each turn of an active call.
  turn-Ended : (e : Engine) (ev : Event) → e.state.phase ≡ active → Ended (turn w h e ev)
  unfolding turn
  turn-Ended e greeting p =
      Closed.start-Closed w h (GoingOn w) (Once w) Ended (agent_steps w) e (p, nothing_yet w)
  turn-Ended e (customer c) p = omega (arith, ap still p)
  turn-Ended e (utterance check u) p = on_utterance-ends w check e u p
  turn-Ended e (decision check transcript t spoken) p =
      on_agent_turn-ends w h check e transcript t spoken p
  turn-Ended e (no_said text) p =
      Closed.on_no_to_optional-Closed w h (GoingOn w) (Once w) Ended (agent_steps w) e text
        (p, nothing_yet w)
  turn-Ended e (farewell text) p =
      Closed.on_closing-Closed w h (GoingOn w) (Once w) Ended (agent_steps w) e text
        (p, nothing_yet w)
  turn-Ended e (result id r) p = on_action_result-ends w e id r p
  turn-Ended e (noise i) p =
      Closed.on_noise-Closed w h (GoingOn w) (Once w) Ended (agent_steps w) e i (p, nothing_yet w)
  turn-Ended e unheard p =
      Closed.on_unheard-Closed w h (GoingOn w) (Once w) Ended (agent_steps w) e (p, nothing_yet w)
  turn-Ended e hello p =
      Closed.on_hello-Closed w h (GoingOn w) (Once w) Ended (agent_steps w) e (p, nothing_yet w)
  turn-Ended e silence p =
      Closed.on_silence-Closed w h (GoingOn w) (Once w) Ended (agent_steps w) e (p, nothing_yet w)
  turn-Ended e replay p =
      Closed.replay_last-Closed w h (GoingOn w) (Once w) Ended (agent_steps w) e (p, nothing_yet w)
  turn-Ended e (forced reason) p =
      let (one, gone) = force_handoff-ends w e reason p in omega (arith, one, gone)

  -- Nothing ends the call, and it stays as over as it was.
  abbrev Over : Engine × List Directive → Type 0
  Over r = (ends r.1 ≡ 0) × (still r.0.state.phase ≡ 0)

  greet-ends :
      (e : Engine) (o : Out) (ctx : Context) (gs : List String)
      → (ends (greet w e o ctx gs).1.directives ≡ ends o.directives)
        × ((greet w e o ctx gs).0.state.phase ≡ e.state.phase)
  unfolding greet
  greet-ends e o ctx [] = (refl, refl)
  greet-ends e o ctx (g ∷ gs) =
      let r = render_plan w e g ctx in
      let same = (render_plan-Keeps w e g ctx).phase in
      elim (Option-cases r.0) [
        | inl n ↦ rw (greet, n) (let (d, p) = greet-ends r.1 o ctx gs in (d, p ∙ same))
        | inr (q, n) ↦ rw (greet, n) (ap ends (speak-directives o q true), same)
      ]

  start-Over : (e : Engine) → still e.state.phase ≡ 0 → Over (start w e)
  unfolding start
  start-Over e s =
      let r = greet w e Out.empty (greeting_ctx e.state.customer) (greetings e) in
      let (d, p) = greet-ends e Out.empty (greeting_ctx e.state.customer) (greetings e) in
      let f = finish-ends w r.0 r.1 in
      let total = f ∙ ap₂ (λ m n. m + n) (d ∙ nothing_yet w) (ap still p ∙ s) in
      (omega (arith, total), omega (arith, total))

  no_in-Over :
      (e : Engine) (text : String) (c : Option PipelineRun)
      → is_active e.state.phase ≡ false
      → still e.state.phase ≡ 0
      → Over (tried e (no_in w h e text c))
  no_in-Over e text none p s = (refl, s)
  no_in-Over e text (some run) p s = rw p (refl, s)

  forced-Over :
      (e : Engine) (reason : String) (p : Phase)
      → still p ≡ 0
      → Over (force_handoff w (with_phase e p) reason)
  unfolding force_handoff
  forced-Over e reason active s = cc
  forced-Over e reason handing_off s = (refl, refl)
  forced-Over e reason ending s = (refl, refl)

  on_noise-Over :
      (e : Engine) (i : Bool)
      → is_active e.state.phase ≡ false
      → still e.state.phase ≡ 0
      → Over (on_noise w e i)
  unfolding on_noise
  on_noise-Over e i p s = rw (on_noise, p) (refl, s)

  on_unheard-Over :
      (e : Engine)
      → is_active e.state.phase ≡ false
      → still e.state.phase ≡ 0
      → Over (on_unheard w e)
  unfolding on_unheard
  on_unheard-Over e p s = elim (Bool-cases (is_some e.state.run)) [
    | inl t ↦ rw (on_unheard, t) (on_noise-Over e false p s)
    | inr t ↦ rw (on_unheard, t) (refl, s)
  ]

  replay_last-Over :
      (e : Engine)
      → is_active e.state.phase ≡ false
      → still e.state.phase ≡ 0
      → Over (replay_last w e)
  unfolding replay_last
  replay_last-Over e p s =
      rw (replay_last, p)
        (let f = finish-ends w e Out.empty in
          (omega (arith, f, nothing_yet w, s), omega (arith, f, nothing_yet w, s)))

  -- Each turn of a call that is over.
  turn-Over :
      (e : Engine) (ev : Event)
      → is_active e.state.phase ≡ false
      → still e.state.phase ≡ 0
      → InTime w h e ev
      → Over (turn w h e ev)
  unfolding turn on_utterance on_agent_turn on_no_to_optional on_closing on_hello on_silence
  turn-Over e greeting p s t = start-Over e s
  turn-Over e (customer c) p s t = (refl, s)
  turn-Over e (utterance check u) p s t = rw (on_utterance, p) (refl, s)
  turn-Over e (decision check transcript a spoken) p s t = rw (on_agent_turn, p) (refl, s)
  turn-Over e (no_said text) p s t = no_in-Over e text e.state.run p s
  turn-Over e (farewell text) p s t = rw (on_closing, p) (refl, s)
  turn-Over e (result id r) p s t = cc (ap is_active t, p)
  turn-Over e (noise i) p s t = on_noise-Over e i p s
  turn-Over e unheard p s t = on_unheard-Over e p s
  turn-Over e hello p s t = rw (on_hello, p) (refl, s)
  turn-Over e silence p s t = rw (on_silence, p) (refl, s)
  turn-Over e replay p s t = replay_last-Over e p s
  turn-Over e (forced reason) p s t = forced-Over e reason e.state.phase s

  phase-cases : (p : Phase) → (p ≡ active) ⊎ ((is_active p ≡ false) × (still p ≡ 0))
  phase-cases active = inl refl
  phase-cases handing_off = inr (refl, refl)
  phase-cases ending = inr (refl, refl)

  turn-ends :
      (e : Engine) (ev : Event)
      → InTime w h e ev
      → ends (turn w h e ev).1 + still (turn w h e ev).0.state.phase ≡ still e.state.phase
  turn-ends e ev t = elim (phase-cases e.state.phase) [
    | inl a ↦ omega (arith, turn-Ended e ev a, ap still a)
    | inr (i, s) ↦ let (none_new, gone) = turn-Over e ev i s t in omega (arith, none_new, gone, s)
  ]

  -- However the turns of a call follow each other, from its greeting on (what is understood, the model's
  -- decisions, noise, silences, results, forced handoffs, the customer's record that comes late), as long as the
  -- results of actions come while the call is active: it was handed over or hung up once in all if it is not
  -- active any more, and not at all if it is.
  pub Conversation-ends :
      (e e' : Engine) (ds : List Directive)
      → Conversation w h e ds e'
      → ends ds + still e'.state.phase ≡ still e.state.phase
  Conversation-ends _ _ _ (begun e) = omega arith
  Conversation-ends _ _ _ (goes_on e ds e1 ev c t) =
      omega
        (arith, ends-append ds (turn w h e1 ev).1, turn-ends e1 ev t, Conversation-ends e e1 ds c)
