-- ===== src/Engine/Env.antt =====
-- What crates/callora-core/src/engine.rs calls and the development leaves open: the renderer of
-- render.rs, the text functions of text.rs and of `str`, address_form.rs, the parsers of values, and
-- the JSON text of an action's
-- input. `summary_text` is the Hebrew wording of a handoff's summary. The theorems hold for every choice of these.
use callora.Base.{ℕ, Bool, Option, List, String}
use callora.Call.Run.{SlotValue}
use callora.Engine.Config.{Json, Business}
use callora.Engine.Speech.{SpeechPlan, ActionInput}
use callora.Engine.State.{AddressForm}

pub record Context : Type 0 where
  pub slots : List (String × SlotValue)
  pub extra : List (String × String)
  pub result : Option Json

-- `render` takes the delivery, the gain, the response, its context, the chooser's seed and the last
-- variants, and gives the last two anew. `asks` is whether a text ends in a question mark, and
-- `question_tail` the last sentence of a text with several.
pub record Env : Type 0 where
  pub render :
      Business
      → Option String
      → ℕ
      → String
      → Context
      → ℕ
      → List (String × ℕ)
      → Option SpeechPlan × ℕ × List (String × ℕ)
  pub normalize : String → String
  pub is_abusive : Business → String → Bool
  pub detect : String → Option AddressForm
  pub default_value : Business → String → Json → Option SlotValue
  pub spoken : SlotValue → String
  pub is_blank : String → Bool
  pub asks : String → Bool
  pub contains : String → String → Bool
  pub question_tail : String → Option String
  pub failed_key : String → Option ActionInput → String
  pub summary_text : String → Option String → Option String → List (String × String) → String
