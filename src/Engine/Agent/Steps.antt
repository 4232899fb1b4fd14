-- ===== src/Engine/Agent/Steps.antt =====
-- crates/callora-core/src/engine.rs: the steps that a turn of the agent has beside those of an utterance's turn.
use callora.Base.{Bool, Option, List, String}
use callora.Engine.Speech.{Directive, SpeechPlan}
use callora.Engine.Out.{Out}
use callora.Engine.Out
use callora.Engine.State.{Engine}
use callora.Engine.Env.{Env, Context}
use callora.Engine.Say.{say, say_some, finish}
use callora.Engine.Results.{force_handoff}
use callora.Engine.Utterance.Steps.{Steps}

abbrev pub noted_as : Out → Option SpeechPlan → Out
noted_as o p = record o { recorded = p }

-- `Closed` holds of a turn whose directives are handed out.
pub record AgentSteps (w : Env) (During : Engine → Out → Type 0) (After : Engine × Out → Type 0)
    (Closed : Engine × List Directive → Type 0) : Type 0 where
  pub steps : Steps w During After
  pub says_in :
      (e : Engine) (o : Out) (r : String) (ctx : Context) (recording : Bool)
      → During e o
      → During (say w e o r ctx recording).0 (say w e o r ctx recording).1
  pub notes : (e : Engine) (o : Out) (p : Option SpeechPlan) → During e o → During e (noted_as o p)
  pub notes_after :
      (e : Engine) (o : Out) (p : Option SpeechPlan) → After (e, o) → After (e, noted_as o p)
  pub speaks_after :
      (e : Engine) (o : Out) (p : SpeechPlan) (recording : Bool)
      → After (e, o)
      → After (e, Out.speak o p recording)
  pub says_after :
      (e : Engine) (o : Out) (r : Option String) (recording : Bool)
      → After (e, o)
      → After (say_some w e o r recording)
  pub closes : (r : Engine × Out) → After r → Closed (finish w r.0 r.1)
  pub forces :
      (e : Engine) (reason : String) → During e Out.empty → Closed (force_handoff w e reason)
  pub restarts : (e : Engine) (o : Out) → During e o → During e Out.empty
