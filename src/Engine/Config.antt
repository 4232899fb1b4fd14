-- ===== src/Engine/Config.antt =====
-- crates/callora-core/src/config.rs and customer.rs: the parts of a business's file that the
-- conversation engine reads, and what it knows of a customer. Maps keyed by an id are lists of
-- entries; a confidence is in thousandths.
use callora.Base.{ℕ, Bool, Option, List, String}
use callora.Call.Run.{ℤ}

-- A `serde_json::Value`; a number that is no `i64` is kept as its text.
mutual
  pub data Json : Type 0 where
    null : Json
    bool : Bool → Json
    number : ℤ → Json
    fraction : String → Json
    str : String → Json
    array : Items → Json
    object : Fields → Json

  pub data Items : Type 0 where
    nil : Items
    cons : Json → Items → Items

  pub data Fields : Type 0 where
    end : Fields
    field : String → Json → Fields → Fields

pub record CustomerPlace : Type 0 where
  pub spoken : String
  pub address : Option String

pub record Customer : Type 0 where
  pub id : Option String
  pub name : Option String
  pub places : List (String × CustomerPlace)
  pub values : List (String × Json)

pub record PipelineSlot : Type 0 where
  pub slot : String
  pub required : Bool
  pub ask : Option String
  pub default : Option Json
  pub from_customer : Option String
  pub from_slot : Option String
  pub ask_before_confirm : Bool

pub record ConfirmConfig : Type 0 where
  pub response : String
  pub ask_change : String

pub data AfterPipeline : Type 0 where
  continue hang_up : AfterPipeline

pub record PipelineConfig : Type 0 where
  pub slots : List PipelineSlot
  pub confirm : Option ConfirmConfig
  pub action : Option String
  pub filler : Option String
  pub on_success : Option String
  pub on_failure : Option String
  pub on_unknown : Option String
  pub on_complete : Option String
  pub after : AfterPipeline
  pub offer : Option String
  pub strict_order : Bool

pub data SlotKind : Type 0 where
  text place integer boolean time enum : SlotKind

pub record SlotConfig : Type 0 where
  pub kind : SlotKind
  pub description : String
  pub confirm_below : ℕ
  pub reject_below : ℕ

pub record ActionConfig : Type 0 where
  pub requires_confirmation : Bool
  pub min_confidence : ℕ
  pub max_attempts : ℕ

pub record ResponseConfig : Type 0 where
  pub variants : List String
  pub prefix : Option String
  pub again : Option String
  pub alone : Bool

-- A threshold is an `f64`: a test has what comparing an integer with it gives.
pub data ConditionTest : Type 0 where
  gt lt : (ℤ → Bool) → ConditionTest
  eq : Json → ConditionTest
  present : Bool → ConditionTest

pub data RuleEffect : Type 0 where
  reject : String → RuleEffect
  hand_off : Option String → String → RuleEffect
  sets : String → Json → RuleEffect

pub record RuleConfig : Type 0 where
  pub id : String
  pub pipeline : Option String
  pub when_slot : String
  pub test : ConditionTest
  pub effect : RuleEffect

pub record IntentConfig : Type 0 where
  pub id : String
  pub description : String
  pub pipeline : Option String
  pub respond : Option String
  pub handoff : Bool
  pub switch_confidence : ℕ
  pub decisive : Bool

pub record SilenceConfig : Type 0 where
  pub reprompt_after_ms : ℕ
  pub max_reprompts : ℕ
  pub response : Option String
  pub patient_after_ms : ℕ
  pub patient_reprompts : ℕ
  pub patient_response : Option String

pub record CustomerLookupConfig : Type 0 where
  pub known_greeting : Option String
  pub returning_greeting : Option String

pub data MetaIntent : Type 0 where
  repeat_last did_not_understand speak_slower speak_louder cancel_current_flow go_back : MetaIntent
  transfer_human say_goodbye wait : MetaIntent

pub record Business : Type 0 where
  pub id : String
  pub name : String
  pub greeting : String
  pub goodbye : String
  pub anything_else : String
  pub confirm_slot : String
  pub acknowledgement : Option String
  pub pipelines : List (String × PipelineConfig)
  pub slots : List (String × SlotConfig)
  pub actions : List (String × ActionConfig)
  pub responses : List (String × ResponseConfig)
  pub intents : List IntentConfig
  pub rules : List RuleConfig
  pub ladder : List String
  pub restart : Option String
  pub handoff_response : String
  pub unavailable_response : String
  pub after_action_failures : ℕ
  pub silence : SilenceConfig
  pub deliveries : List String
  pub meta_response : MetaIntent → Option String
  pub handoff_number : Option String
  pub customer_lookup : Option CustomerLookupConfig
