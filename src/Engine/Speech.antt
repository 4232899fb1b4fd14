-- ===== src/Engine/Speech.antt =====
-- crates/callora-core/src/render.rs and engine.rs: speech plans, the directives of a turn and the
-- builder that keeps them in order.
use callora.Base.{ℕ, Bool, true, false, Option, List, [], ◌∷◌, ◌++◌, String, if◌then◌else◌}
use callora.Call.Run.{SlotValue}
use callora.Engine.Config.{Customer}

pub data SegmentOrigin : Type 0 where
  static template dynamic : SegmentOrigin

pub record SpeechSegment : Type 0 where
  pub text : String
  pub response_id : String
  pub delivery : String
  pub origin : SegmentOrigin
  pub prefix : Bool

-- The gain is in decibels; the engine only uses 0, 4 and 8.
pub record SpeechPlan : Type 0 where
  pub segments : List SpeechSegment
  pub gain_db : ℕ

unfoldable pub empty : SpeechPlan
empty = record { segments = []; gain_db = 0 }

abbrev pub has_none {ℓ} : {A : Type ℓ} → List A → Bool
has_none [] = true
has_none (_ ∷ _) = false

unfoldable pub is_empty : SpeechPlan → Bool
is_empty p = has_none p.segments

-- The acknowledgements that a plan begins with.
unfoldable pub skip_prefix : List SpeechSegment → List SpeechSegment
skip_prefix [] = []
skip_prefix (s ∷ ss) = let rest = skip_prefix ss in if s.prefix then rest else s ∷ ss

unfoldable pub then_say : SpeechPlan → SpeechPlan → SpeechPlan
unfolding skip_prefix
then_say p other = record p {
  segments =
      p.segments ++ (if has_none p.segments then other.segments else skip_prefix other.segments);
}

-- What a business action receives.
pub record ActionInput : Type 0 where
  pub run_id : ℕ
  pub pipeline : String
  pub intent : String
  pub slots : List (String × SlotValue)
  pub customer : Option Customer
  pub caller_phone : Option String

pub data Speaker : Type 0 where
  caller agent : Speaker

pub record Turn : Type 0 where
  pub speaker : Speaker
  pub text : String

pub record HandoffSummary : Type 0 where
  pub reason : String
  pub business_id : String
  pub intent : Option String
  pub pipeline : Option String
  pub slots : List (String × String)
  pub customer_name : Option String
  pub recent : List Turn
  pub text : String

pub data Directive : Type 0 where
  speak : SpeechPlan → Bool → Directive
  run_action : ℕ → String → Option ActionInput → Directive
  hand_off : HandoffSummary → Directive
  hangup : Directive
