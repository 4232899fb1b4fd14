-- ===== src/Engine/Utterance/Tests.antt =====
-- What the caller of the taxi business says, for the theorems on an utterance's turn.
use callora.Base.{true, false, none, some, [], ◌∷◌}
use callora.Call.Run.{text, rules}
use callora.Engine.Understanding.{Understanding, SlotFill}
use callora.Engine.Answer.{Check, apply_fills}
use callora.Engine.Answer.Fills.{apply_fills-Latest, Latest}
use callora.Engine.Tests.{ordered, ready}

-- Every place is taken as it is said.
abbrev pub as_said : Check
as_said e f = record {
  place_cities = e.state.place_cities;
  place_streets = e.state.place_streets;
  place_numbers = e.state.place_numbers;
  doubt_confirm = e.state.doubt_confirm;
  place_rejections = e.state.place_rejections;
  dropped = false;
  rejected = false;
  value = some f.value;
}

abbrev yes_please : Understanding
yes_please = record {
  transcript = "yes";
  meta = none;
  intent = none;
  affirm = some true;
  slots = [];
  frustrated = false;
  noise = false;
}

abbrev to_harbour : SlotFill
to_harbour = record {
  slot = "destination";
  value = text "harbour";
  confidence = 800;
  provenance = rules;
}

abbrev to_nowhere : SlotFill
to_nowhere = record {
  slot = "destination";
  value = text "nowhere";
  confidence = 200;
  provenance = rules;
}

apply_fills-Latest_example :
    Latest ready
      (to_harbour ∷ to_nowhere ∷ [])
      "destination"
      (some ordered)
      (apply_fills ready (to_harbour ∷ to_nowhere ∷ []))
apply_fills-Latest_example = apply_fills-Latest ready (to_harbour ∷ to_nowhere ∷ []) "destination"
