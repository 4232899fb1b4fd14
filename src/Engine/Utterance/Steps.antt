-- ===== src/Engine/Utterance/Steps.antt =====
-- crates/callora-core/src/engine.rs: what the parts of an utterance's turn keep, given that the steps they are
-- made of keep it.
use callora.Base.{Bool, Option, none, [], String, ◌≡◌}
use callora.Engine.Speech.{SpeechPlan, hangup}
use callora.Engine.Out.{Out}
use callora.Engine.Out
use callora.Engine.State.{Engine, ending}
use callora.Engine.Env.{Env}
use callora.Engine.Say.{say_some, ask}
use callora.Engine.Flow.{advance, finish_run, goodbye, offer_more}
use callora.Engine.Handoff.{handoff, with_phase}
use callora.Engine.Started.{ids_of}

-- The same phase and next run id, and no run that waits for an action where there was none.
abbrev pub Same : Engine → Engine → Type 0
Same e e' =
    (e'.state.phase ≡ e.state.phase)
    × (ids_of e.state.run ≡ [] → ids_of e'.state.run ≡ [])
    × (e'.state.next_action_run ≡ e.state.next_action_run)

-- `During` holds while a turn goes on, and `After` where it is over.
pub record Steps (w : Env) (During : Engine → Out → Type 0) (After : Engine × Out → Type 0)
    : Type 0 where
  pub stays : (e : Engine) (o : Out) → During e o → After (e, o)
  pub moves : (e e' : Engine) (o : Out) → Same e e' → During e o → During e' o
  pub says :
      (e : Engine) (o : Out) (r : Option String) (recording : Bool)
      → During e o
      → During (say_some w e o r recording).0 (say_some w e o r recording).1
  pub speaks :
      (e : Engine) (o : Out) (p : SpeechPlan) (recording : Bool)
      → During e o
      → During e (Out.speak o p recording)
  pub asks :
      (e : Engine) (o : Out) (slot : String) (acknowledge : Bool)
      → During e o
      → After (ask w e o slot acknowledge)
  pub advances :
      (e : Engine) (o : Out) (acknowledge : Bool) → During e o → After (advance w e o acknowledge)
  pub finishes :
      (e : Engine) (o : Out) (outcome : String) → During e o → After (finish_run w e o outcome none)
  pub hands_off :
      (e : Engine) (o : Out) (reason : String) → During e o → After (handoff w e o reason)
  pub says_goodbye : (e : Engine) (o : Out) → During e o → After (goodbye w e o)
  pub offers : (e : Engine) (o : Out) → During e o → After (offer_more w e o)
  pub hangs_up :
      (e : Engine) (o : Out) → During e o → After (with_phase e ending, Out.push o hangup)
