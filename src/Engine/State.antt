-- ===== src/Engine/State.antt =====
-- crates/callora-core/src/state.rs and engine.rs: the state of a call and of its engine. The
-- fields that only the agent's prompt and the checks of a place read are left out.
use callora.Base.{
  ℕ, ◌-◌, Bool, false, Option, none, List, [], ◌∷◌, ◌++◌, String, if◌then◌else◌, ltb, length, drop,
}
use callora.Call.Run.{PipelineRun, SlotValue}
use callora.Engine.Config.{Json, Customer, Business}
use callora.Engine.Speech.{SpeechPlan, Turn}

pub data Phase : Type 0 where
  active handing_off ending : Phase

pub data Tone : Type 0 where
  neutral friendly joking rushed frustrated sarcastic confused rude : Tone

pub data AddressForm : Type 0 where
  unknown masculine feminine : AddressForm

-- The JSON objects that the engine stores with a completed run.
pub data Report : Type 0 where
  returned : Json → Report
  failed : String → Report
  outcome_unknown : String → ℕ → Report

pub record CompletedRun : Type 0 where
  pub pipeline : String
  pub outcome : String
  pub slots : List (String × SlotValue)
  pub result : Option Report

-- A response to say, with the values put in it.
pub record Prompt : Type 0 where
  pub response : String
  pub values : List (String × String)

-- The last of `suspended`, `completed` and `history` comes first in `suspended` and `completed`,
-- and last in `history` and `moods`.
pub record CallState : Type 0 where
  pub phase : Phase
  pub run : Option PipelineRun
  pub suspended : List PipelineRun
  pub failed_actions : List String
  pub completed : List CompletedRun
  pub last_plan : Option SpeechPlan
  pub fallback_level : ℕ
  pub fallback_restarts : ℕ
  pub action_failures : ℕ
  pub silence_reprompts : ℕ
  pub delivery : Option String
  pub gain_db : ℕ
  pub customer : Option Customer
  pub last_variant : List (String × ℕ)
  pub turns : ℕ
  pub history : List Turn
  pub place_cities : List (String × String)
  pub place_streets : List (String × String)
  pub place_numbers : List (String × (String × String))
  pub asked_before_confirm : List String
  pub open_questions : List String
  pub last_asks : List String
  pub asked_slots : List String
  pub address_form : AddressForm
  pub caller_phone : Option String
  pub next_action_run : ℕ
  pub waiting : Bool
  pub noise_apology_turn : Option ℕ
  pub abuse_strikes : ℕ
  pub moods : List Tone
  pub doubt_confirm : List (String × List Prompt)
  pub place_rejections : List (String × ℕ)
  pub unheard_rejections : List (String × ℕ)
  pub goodbye_doubted : Bool
  pub same_city : Bool

abbrev pub history_limit : ℕ
history_limit = 40

abbrev pub moods_kept : ℕ
moods_kept = 6

-- A `Vec` cut at its front to the limit.
unfoldable pub keep_last {ℓ} : {A : Type ℓ} → ℕ → List A → List A
keep_last limit xs = if ltb limit (length xs) then drop (length xs - limit) xs else xs

unfoldable pub new : CallState
new = record {
  phase = active;
  run = none;
  suspended = [];
  failed_actions = [];
  completed = [];
  last_plan = none;
  fallback_level = 0;
  fallback_restarts = 0;
  action_failures = 0;
  silence_reprompts = 0;
  delivery = none;
  gain_db = 0;
  customer = none;
  last_variant = [];
  turns = 0;
  history = [];
  place_cities = [];
  place_streets = [];
  place_numbers = [];
  asked_before_confirm = [];
  open_questions = [];
  last_asks = [];
  asked_slots = [];
  address_form = unknown;
  caller_phone = none;
  next_action_run = 1;
  waiting = false;
  noise_apology_turn = none;
  abuse_strikes = 0;
  moods = [];
  doubt_confirm = [];
  place_rejections = [];
  unheard_rejections = [];
  goodbye_doubted = false;
  same_city = false;
}

unfoldable pub remember_mood : CallState → Tone → CallState
unfolding keep_last
remember_mood s tone = record s { moods = keep_last moods_kept (s.moods ++ tone ∷ []) }

-- `seed` is the chooser's; `desk` is the owner's setting, if known.
pub record Engine : Type 0 where
  pub business : Business
  pub state : CallState
  pub seed : ℕ
  pub offered_more : Bool
  pub desk : Option Bool
