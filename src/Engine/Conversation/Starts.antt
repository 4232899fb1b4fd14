-- ===== src/Engine/Conversation/Starts.antt =====
-- crates/callora-core/src/engine.rs: whatever a turn is, it starts an action only when the task is ready for it.
use callora.Base.{ℕ, true, Option, none, some, List, [], ◌≡◌, refl, arith, Bool-cases, inl, inr}
use callora.Call.Run.{
  PipelineRun, Step, collecting, confirming_slot, awaiting_confirmation, executing,
}
use callora.Engine.Out.{Out}
use callora.Engine.Out
use callora.Engine.State.{Engine, Phase, active, handing_off, ending}
use callora.Engine.Env.{Env}
use callora.Engine.Results.{awaited, on_action_result}
use callora.Engine.Silence.{is_active}
use callora.Engine.Utterance.{on_utterance}
use callora.Engine.Agent.{Hearing}
use callora.Engine.Agent.Whole.{on_agent_turn}
use callora.Engine.Agent.Steps.{AgentSteps}
use callora.Engine.Started.{ids_of, id_of, Started, quiet}
use callora.Engine.Utterance.Starts.{given, nothing_said, Idle, on_utterance-Started}
use callora.Engine.Agent.Starts.{agent_steps, on_agent_turn-Started}
use callora.Engine.Conversation.{
  Event, greeting, customer, utterance, decision, no_said, farewell, result, noise, unheard, hello,
  silence, replay, forced, turn,
}
use callora.Engine.Conversation.Closed

abbrev Taken : Engine → Engine × List callora.Engine.Speech.Directive → Type 0
Taken e r = Started e.state.next_action_run [] (r.0, given r.1)

nothing-Taken : (e : Engine) → ids_of e.state.run ≡ [] → Taken e (e, [])
nothing-Taken e i = quiet e.state.next_action_run [] (e, given []) refl i (omega arith)

is_active-active : (p : Phase) → is_active p ≡ true → p ≡ active
is_active-active active t = refl
is_active-active handing_off t = cc
is_active-active ending t = cc

awaited_at :
    (run : PipelineRun) (s : Step) (id : ℕ)
    → id_of s ≡ []
    → awaited (some (record run { step = s })) id ≡ none
awaited_at run (executing k) id i = cc
awaited_at run (collecting a) id i = refl
awaited_at run (confirming_slot a) id i = refl
awaited_at run awaiting_confirmation id i = refl

awaits_none : (c : Option PipelineRun) (id : ℕ) → ids_of c ≡ [] → awaited c id ≡ none
awaits_none none id i = refl
awaits_none (some run) id i = awaited_at run run.step id i

module _ (w : Env) (h : Hearing) where
  -- Whatever comes to the engine while no action runs, and whether or not the call is still active, the turn
  -- adds no action or one: that of the task it leaves waiting for an action, if it leaves one. The run id was
  -- not given out before. The read-back of that task is accepted where it has one, every required detail is
  -- given, and none of its details is too doubtful.
  pub turn-Started :
      (e : Engine) (ev : Event)
      → ids_of e.state.run ≡ []
      → let r = turn w h e ev in Started e.state.next_action_run [] (r.0, given r.1)
  unfolding turn on_utterance on_agent_turn on_action_result
  turn-Started e ev i = go ev
    where
      n : ℕ
      n = e.state.next_action_run

      k : Idle w n e Out.empty
      k = (nothing_said, i, omega arith)

      steps : AgentSteps w (Idle w n) (Started n []) (λ r. Started n [] (r.0, given r.1))
      steps = agent_steps w n

      go : (ev : Event) → Taken e (turn w h e ev)
      go greeting = Closed.start-Closed w h (Idle w n) (Started n []) (Taken e) steps e k
      go (customer c) =
          quiet n [] (callora.Engine.Shortcuts.set_customer e c, given []) refl i (omega arith)
      go (utterance check u) = elim (Bool-cases (is_active e.state.phase)) [
        | inl t ↦ on_utterance-Started w check e u (is_active-active e.state.phase t) i
        | inr t ↦ rw (on_utterance, t) (nothing-Taken e i)
      ]
      go (decision check transcript a spoken) = elim (Bool-cases (is_active e.state.phase)) [
        | inl t ↦
            on_agent_turn-Started w h check e transcript a spoken (is_active-active e.state.phase t)
              i
        | inr t ↦ rw (on_agent_turn, t) (nothing-Taken e i)
      ]
      go (no_said text) =
          Closed.on_no_to_optional-Closed w h (Idle w n) (Started n []) (Taken e) steps e text k
      go (farewell text) =
          Closed.on_closing-Closed w h (Idle w n) (Started n []) (Taken e) steps e text k
      go (result id r) = rw (on_action_result, awaits_none e.state.run id i) (nothing-Taken e i)
      go (noise b) = Closed.on_noise-Closed w h (Idle w n) (Started n []) (Taken e) steps e b k
      go unheard = Closed.on_unheard-Closed w h (Idle w n) (Started n []) (Taken e) steps e k
      go hello = Closed.on_hello-Closed w h (Idle w n) (Started n []) (Taken e) steps e k
      go silence = Closed.on_silence-Closed w h (Idle w n) (Started n []) (Taken e) steps e k
      go replay = Closed.replay_last-Closed w h (Idle w n) (Started n []) (Taken e) steps e k
      go (forced reason) = steps.forces e reason k
