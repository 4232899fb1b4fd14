-- ===== src/Engine/Agent/Ends.antt =====
-- crates/callora-core/src/engine.rs: the agent's turn ends the call exactly when it hangs up or hands it over.
use callora.Base.{◌+◌, ◌≡◌, String, arith, ◌∙◌, ap}
use callora.Engine.State.{Engine, active}
use callora.Engine.Env.{Env}
use callora.Engine.Frame.{
  say_some-Keeps, say_some-directives, say-Keeps, say-directives, speak-directives,
}
use callora.Engine.Answer.{Check}
use callora.Engine.Ended.{ends, still}
use callora.Engine.Ended.Turns.{finish-ends, force_handoff-ends, nothing_yet}
use callora.Engine.Utterance.Ends.{GoingOn, Once, steps}
use callora.Engine.Agent.{AgentTurn, Hearing}
use callora.Engine.Agent.Whole.{on_agent_turn}
use callora.Engine.Agent.Steps.{AgentSteps}
use callora.Engine.Agent.Closed.{on_agent_turn-Closed}

module _ (w : Env) where
  pub agent_steps : AgentSteps w (GoingOn w) (Once w) (λ r. ends r.1 + still r.0.state.phase ≡ 1)
  agent_steps = record {
    steps = steps w;
    says_in = λ e o r ctx recording (h, n). (
      (say-Keeps w e o r ctx recording).phase ∙ h,
      ap ends (say-directives w e o r ctx recording) ∙ n,
    );
    notes = λ e o p (h, n). (h, n);
    notes_after = λ e o p k. k;
    speaks_after = λ e o p recording k. omega (arith, ap ends (speak-directives o p recording), k);
    says_after = λ e o r recording k. omega (
      arith,
      ap ends (say_some-directives w e o r recording),
      ap still (say_some-Keeps w e o r recording).phase,
      k,
    );
    closes = λ r k. omega (arith, finish-ends w r.0 r.1, k);
    forces = λ e reason (h, n).
        let (one, gone) = force_handoff-ends w e reason h in omega (arith, one, gone);
    restarts = λ e o (h, n). (h, nothing_yet w);
  }

  -- Whatever the language model decides for what a caller said in an active call, and whatever of it was played
  -- already, the directives of the turn hand the call over or hang up once when the call stops being active,
  -- and not at all when it goes on.
  pub on_agent_turn-ends :
      (h : Hearing) (check : String → Check) (e : Engine) (transcript : String) (t : AgentTurn)
      (spoken : String)
      → e.state.phase ≡ active
      → ends (on_agent_turn w h check e transcript t spoken).1
          + still (on_agent_turn w h check e transcript t spoken).0.state.phase
        ≡ 1
  on_agent_turn-ends h check e transcript t spoken p =
      on_agent_turn-Closed w h (GoingOn w) (Once w) (λ r. ends r.1 + still r.0.state.phase ≡ 1)
        agent_steps check e transcript t spoken p (p, nothing_yet w)
