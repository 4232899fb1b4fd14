-- ===== src/Engine/Conversation.antt =====
-- crates/callora-core/src/engine.rs: a call as the sequence of what its session hands to the engine
-- (crates/callora-runtime/src/session.rs and its folder), in any order.
pub mod Closed
pub mod Ends
pub mod Starts
mod Tests
use callora.Base.{ℕ, Bool, Option, none, some, List, [], ◌++◌, String, ◌≡◌}
use callora.Engine.Config.{Customer}
use callora.Engine.Speech.{Directive}
use callora.Engine.State.{Engine, active}
use callora.Engine.Env.{Env}
use callora.Engine.Results.{ActionResult, on_action_result, force_handoff}
use callora.Engine.Silence.{on_noise, on_unheard, on_hello, on_silence}
use callora.Engine.Understanding.{Understanding}
use callora.Engine.Answer.{Check}
use callora.Engine.Utterance.{on_utterance}
use callora.Engine.Agent.{AgentTurn, Hearing}
use callora.Engine.Agent.Whole.{on_agent_turn}
use callora.Engine.Shortcuts.{start, set_customer, replay_last, on_no_to_optional, on_closing}

pub data Event : Type 0 where
  greeting : Event
  customer : Option Customer → Event
  utterance : Check → Understanding → Event
  decision : (String → Check) → String → AgentTurn → String → Event
  no_said : String → Event
  farewell : String → Event
  result : ℕ → ActionResult → Event
  noise : Bool → Event
  unheard : Event
  hello : Event
  silence : Event
  replay : Event
  forced : String → Event

-- A shortcut that does not apply does nothing.
abbrev pub tried : Engine → Option (Engine × List Directive) → Engine × List Directive
tried e none = (e, [])
tried e (some r) = r

module _ (w : Env) (h : Hearing) where
  unfoldable pub turn : Engine → Event → Engine × List Directive
  unfolding start on_utterance on_agent_turn on_no_to_optional on_closing on_action_result on_noise
      on_unheard on_hello on_silence replay_last force_handoff
  turn e greeting = start w e
  turn e (customer c) = (set_customer e c, [])
  turn e (utterance check u) = on_utterance w check e u
  turn e (decision check transcript t spoken) = on_agent_turn w h check e transcript t spoken
  turn e (no_said text) = tried e (on_no_to_optional w h e text)
  turn e (farewell text) = tried e (on_closing w h e text)
  turn e (result id r) = on_action_result w e id r
  turn e (noise interrupted) = on_noise w e interrupted
  turn e unheard = on_unheard w e
  turn e hello = on_hello w e
  turn e silence = on_silence w e
  turn e replay = replay_last w e
  turn e (forced reason) = force_handoff w e reason

  -- Results are of actions that end while the call is active; all else may come at any time.
  abbrev pub InTime : Engine → Event → Type 0
  InTime e (result id r) = e.state.phase ≡ active
  InTime e _ = Unit

  -- From one engine to another by turns that gave these directives.
  pub data Conversation : Engine → List Directive → Engine → Type 0 where
    begun : (e : Engine) → Conversation e [] e
    goes_on :
        (e : Engine) (ds : List Directive) (e' : Engine) (ev : Event)
        → Conversation e ds e'
        → InTime e' ev
        → Conversation e (ds ++ (turn e' ev).1) (turn e' ev).0
