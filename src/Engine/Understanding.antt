-- ===== src/Engine/Understanding.antt =====
-- crates/callora-core/src/understanding.rs and values.rs: a final transcript, understood. Confidences are in
-- thousandths; the share of the words that was explained, and by which path, does not reach the engine's turn.
use callora.Base.{ℕ, Bool, Option, List, String, str_eq, find}
use callora.Call.Run.{SlotValue, Provenance}
use callora.Engine.Config.{MetaIntent}

pub record SlotFill : Type 0 where
  pub slot : String
  pub value : SlotValue
  pub confidence : ℕ
  pub provenance : Provenance

pub record IntentGuess : Type 0 where
  pub id : String
  pub confidence : ℕ

pub record Understanding : Type 0 where
  pub transcript : String
  pub meta : Option MetaIntent
  pub intent : Option IntentGuess
  pub affirm : Option Bool
  pub slots : List SlotFill
  pub frustrated : Bool
  pub noise : Bool

unfoldable pub slot_of : Understanding → String → Option SlotFill
slot_of u id = find (λ f. str_eq f.slot id) u.slots
