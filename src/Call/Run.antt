-- ===== src/Call/Run.antt =====
-- crates/callora-core/src/state.rs, values.rs and time.rs: the run of one task, with its slots,
-- its step and the journal that "go back" undoes.
pub mod Undo
mod Tests
use callora.Base.{
  ℕ, Bool, true, false, Option, none, some, List, [], ◌∷◌, String, str_eq, if◌then◌else◌, lookup,
  insert, remove, ◌&&◌, ◌==◌, map,
}

-- An `i64`; `negsuc n` is -(n + 1).
pub data ℤ : Type 0 where
  pos : ℕ → ℤ
  negsuc : ℕ → ℤ

pub data TimeSpec : Type 0 where
  now : TimeSpec
  in_minutes : ℕ → TimeSpec
  at : ℕ → ℕ → ℕ → TimeSpec

-- `place` has what is spoken, the address and the name of the customer's place.
pub data SlotValue : Type 0 where
  text : String → SlotValue
  place : String → Option String → Option String → SlotValue
  integer : ℤ → SlotValue
  boolean : Bool → SlotValue
  time : TimeSpec → SlotValue
  enum : String → SlotValue

pub data Provenance : Type 0 where
  rules llm by_default customer rule confirmed : Provenance

abbrev pub bool_eq : Bool → Bool → Bool
bool_eq true b = b
bool_eq false true = false
bool_eq false false = true

abbrev pub int_eq : ℤ → ℤ → Bool
int_eq (pos a) (pos b) = a == b
int_eq (negsuc a) (negsuc b) = a == b
int_eq _ _ = false

abbrev pub option_eq : Option String → Option String → Bool
option_eq none none = true
option_eq (some a) (some b) = str_eq a b
option_eq _ _ = false

abbrev pub time_eq : TimeSpec → TimeSpec → Bool
time_eq now now = true
time_eq (in_minutes a) (in_minutes b) = a == b
time_eq (at h m d) (at h' m' d') = (h == h') && (m == m') && (d == d')
time_eq _ _ = false

-- The derived `PartialEq`.
unfoldable pub value_eq : SlotValue → SlotValue → Bool
value_eq (text a) (text b) = str_eq a b
value_eq (place s a c) (place s' a' c') = str_eq s s' && option_eq a a' && option_eq c c'
value_eq (integer a) (integer b) = int_eq a b
value_eq (boolean a) (boolean b) = bool_eq a b
value_eq (time a) (time b) = time_eq a b
value_eq (enum a) (enum b) = str_eq a b
value_eq _ _ = false

-- A confidence is an `f32` that the program only compares; it is kept in thousandths.
pub record SlotState : Type 0 where
  pub value : SlotValue
  pub confidence : ℕ
  pub provenance : Provenance
  pub confirmed : Bool

pub data Step : Type 0 where
  collecting : Option String → Step
  confirming_slot : String → Step
  awaiting_confirmation : Step
  executing : ℕ → Step

pub record JournalEntry : Type 0 where
  pub slot : String
  pub previous : Option SlotState

-- The journal's last entry comes first.
pub record PipelineRun : Type 0 where
  pub pipeline : String
  pub intent : String
  pub slots : List (String × SlotState)
  pub step : Step
  pub journal : List JournalEntry
  pub confirmed : Bool
  pub attempts : ℕ
  pub fired_rules : List String

unfoldable pub new : String → String → PipelineRun
new pipeline intent = record {
  pipeline = pipeline;
  intent = intent;
  slots = [];
  step = collecting none;
  journal = [];
  confirmed = false;
  attempts = 0;
  fired_rules = [];
}

abbrev pub awaiting_of : Step → Option String
awaiting_of (collecting awaiting) = awaiting
awaiting_of (confirming_slot slot) = some slot
awaiting_of _ = none

unfoldable pub awaiting_slot : PipelineRun → Option String
awaiting_slot r = awaiting_of r.step

-- `previous.map(value) != Some(state.value)`.
abbrev pub same_value : Option SlotState → SlotState → Bool
same_value none s = false
same_value (some p) s = value_eq p.value s.value

abbrev entry : String → Option SlotState → JournalEntry
entry slot previous = record { slot = slot; previous = previous }

unfoldable pub set : PipelineRun → String → SlotState → PipelineRun
unfolding value_eq
set r slot state =
    let previous = lookup slot r.slots in
    let same = same_value previous state in
    record r {
      slots = insert slot state r.slots;
      confirmed = if same then r.confirmed else false;
      fired_rules = if same then r.fired_rules else [];
      journal = entry slot previous ∷ r.journal;
    }

unfoldable pub clear : PipelineRun → String → PipelineRun
clear r slot = elim (lookup slot r.slots) [
  | none ↦ r
  | some previous ↦ record r {
    slots = remove slot r.slots;
    journal = entry slot (some previous) ∷ r.journal;
    confirmed = false;
  }
]

abbrev restore : JournalEntry → List (String × SlotState) → List (String × SlotState)
restore e slots = elim e.previous [ none ↦ remove e.slot slots | some p ↦ insert e.slot p slots ]

undo_from : List JournalEntry → PipelineRun → PipelineRun × Option String
undo_from [] r = (r, none)
undo_from (e ∷ journal) r =
    (record r { slots = restore e r.slots; journal = journal; confirmed = false }, some e.slot)

unfoldable pub undo : PipelineRun → PipelineRun × Option String
unfolding undo_from
undo r = undo_from r.journal r

-- The values of the slots, as a completed run and the renderer take them.
abbrev pub values_of : List (String × SlotState) → List (String × SlotValue)
values_of [] = []
values_of ((k, s) ∷ m) = (k, s.value) ∷ values_of m
