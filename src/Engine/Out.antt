-- ===== src/Engine/Out.antt =====
-- crates/callora-core/src/engine.rs: `Out`, the builder of a turn's directives.
use callora.Base.{
  Bool, false, Option, none, some, List, [], ◌∷◌, ◌++◌, if◌then◌else◌, ◌||◌, not, any,
}
use callora.Engine.Speech.{SpeechPlan, Directive, then_say, is_empty}
use callora.Engine.Speech

pub record Out : Type 0 where
  pub directives : List Directive
  pub pending : Option SpeechPlan
  pub recorded : Option SpeechPlan

unfoldable pub empty : Out
empty = record { directives = []; pending = none; recorded = none }

abbrev pub joined : Option SpeechPlan → SpeechPlan → SpeechPlan
joined none plan = plan
joined (some p) plan = then_say p plan

unfoldable pub speak : Out → SpeechPlan → Bool → Out
unfolding then_say
speak o plan recording = record o {
  recorded = if recording then some (joined o.recorded plan) else o.recorded;
  pending = some (joined o.pending plan);
}

unfoldable pub flush : Out → Bool → Out
unfolding is_empty
flush o filler = elim o.pending [
  | none ↦ o
  | some plan ↦ record o {
    pending = none;
    directives =
        if is_empty plan
        then o.directives
        else o.directives ++ Speech.Directive.speak plan filler ∷ [];
  }
]

unfoldable pub push : Out → Directive → Out
unfolding flush
push o d =
    let flushed = flush o false in record flushed { directives = flushed.directives ++ d ∷ [] }

abbrev says : Directive → Bool
says (Speech.Directive.speak plan filler) = not (is_empty plan)
says (Speech.Directive.run_action _ _ _) = false
says (Speech.Directive.hand_off _) = false
says Speech.Directive.hangup = false

abbrev speaks : Option SpeechPlan → Bool
speaks none = false
speaks (some p) = not (is_empty p)

unfoldable pub has_speech : Out → Bool
unfolding is_empty
has_speech o = speaks o.pending || any says o.directives
