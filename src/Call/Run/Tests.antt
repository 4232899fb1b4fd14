-- ===== src/Call/Run/Tests.antt =====
-- A run with one slot, for the theorem on `undo`.
use callora.Base.{ℕ, true, false, none, List, [], ◌∷◌}
use callora.Call.Run.{PipelineRun, SlotState, integer, pos, confirmed, collecting}
use callora.Call.Run.Undo.{
  Change, sets, clears, changes, undo_times, added, SameRun, undo_times-changes,
}

abbrev passengers : ℕ → SlotState
passengers n = record {
  value = integer (pos n);
  confidence = 900;
  provenance = confirmed;
  confirmed = true;
}

abbrev task : PipelineRun
task = record {
  pipeline = "ride";
  intent = "order";
  slots = ("passengers", passengers 2) ∷ [];
  step = collecting none;
  journal = [];
  confirmed = false;
  attempts = 0;
  fired_rules = [];
}

abbrev edits : List Change
edits = sets "passengers" (passengers 4) ∷ clears "passengers" ∷ sets "stops" (passengers 1) ∷ []

undo_times-changes_example : SameRun (undo_times (added task edits) (changes task edits)) task
undo_times-changes_example = undo_times-changes task edits
