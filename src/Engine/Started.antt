-- ===== src/Engine/Started.antt =====
-- crates/callora-core/src/engine.rs: when `advance` starts a business action, and under which id.
pub mod Acts
pub mod Advance
use callora.Base.{
  contains_key, lookup, ℕ, ◌≤◌, ◌<◌, Bool, true, false, Option, none, some, List, [], ◌∷◌, ◌++◌,
  String, ◌≡◌, refl, arith, Option-cases, ◌⊎◌, inl, inr, ◌∙◌, ap, sym, append-nil, All,
}
use callora.Call.Run.{
  SlotState, PipelineRun, Step, collecting, confirming_slot, awaiting_confirmation, executing,
}
use callora.Engine.Config.{PipelineSlot, SlotConfig}
use callora.Engine.Speech.{Directive, speak, run_action, hand_off, hangup}
use callora.Engine.Out.{Out}
use callora.Engine.Out
use callora.Engine.State.{Engine, Report}
use callora.Engine.Say.{pipeline_of}
use callora.Engine.Flow.{first_doubtful, first_missing, Finish}

-- The run ids of the actions asked for, in order.
abbrev pub actions : List Directive → List ℕ
actions [] = []
actions (run_action id _ _ ∷ ds) = id ∷ actions ds
actions (speak _ _ ∷ ds) = actions ds
actions (hand_off _ ∷ ds) = actions ds
actions (hangup ∷ ds) = actions ds

pub actions-append : (xs ys : List Directive) → actions (xs ++ ys) ≡ actions xs ++ actions ys
actions-append [] ys = refl
actions-append (run_action id _ _ ∷ xs) ys = ap (◌∷◌ id) (actions-append xs ys)
actions-append (speak _ _ ∷ xs) ys = actions-append xs ys
actions-append (hand_off _ ∷ xs) ys = actions-append xs ys
actions-append (hangup ∷ xs) ys = actions-append xs ys

abbrev pub id_of : Step → List ℕ
id_of (executing id) = id ∷ []
id_of (collecting _) = []
id_of (confirming_slot _) = []
id_of awaiting_confirmation = []

-- The action that a run is waiting for.
abbrev pub ids_of : Option PipelineRun → List ℕ
ids_of none = []
ids_of (some run) = id_of run.step

-- Every required detail of the task has a value.
abbrev pub AllGiven : List PipelineSlot → List (String × SlotState) → Type 0
AllGiven pss slots = All (λ ps. ps.required ≡ true → contains_key ps.slot slots ≡ true) pss

pub first_missing-AllGiven :
    (pss : List PipelineSlot) (slots : List (String × SlotState))
    → first_missing pss slots ≡ none
    → AllGiven pss slots
unfolding first_missing
first_missing-AllGiven [] slots h = tt
first_missing-AllGiven (ps ∷ pss) slots h =
    (λ r. ground arith, first_missing-AllGiven pss slots (ground arith))

-- Every detail that has a value is confirmed, or as certain as the business wants it.
abbrev pub AllCertain :
    List (String × SlotConfig) → List PipelineSlot → List (String × SlotState) → Type 0
AllCertain configs pss slots =
    All
      (λ ps.
        (s : SlotState) (cfg : SlotConfig)
        → lookup ps.slot slots ≡ some s
        → lookup ps.slot configs ≡ some cfg
        → (s.confirmed ≡ true) ⊎ (cfg.confirm_below ≤ s.confidence))
      pss

pub first_doubtful-AllCertain :
    (configs : List (String × SlotConfig)) (pss : List PipelineSlot)
    (slots : List (String × SlotState))
    → first_doubtful configs pss slots ≡ none
    → AllCertain configs pss slots
unfolding first_doubtful
first_doubtful-AllCertain configs [] slots h = tt
first_doubtful-AllCertain configs (ps ∷ pss) slots h = (
  λ s cfg v c. ground (arith, h, v, c),
  first_doubtful-AllCertain configs pss slots (ground arith),
)

-- What a task needs before its action: the read-back accepted where there is one, every required
-- detail given, and no detail too doubtful to use.
pub record IsReady (e : Engine) (run : PipelineRun) : Type 0 where
  pub accepted : ((pipeline_of e run).confirm ≡ none) ⊎ (run.confirmed ≡ true)
  pub given : AllGiven (pipeline_of e run).slots run.slots
  pub certain : AllCertain e.business.slots (pipeline_of e run).slots run.slots

abbrev pub ReadyAt : Engine → PipelineRun → Step → Type 0
ReadyAt e run (executing _) = IsReady e run
ReadyAt e run (collecting _) = Unit
ReadyAt e run (confirming_slot _) = Unit
ReadyAt e run awaiting_confirmation = Unit

abbrev pub ReadyRun : Engine → Option PipelineRun → Type 0
ReadyRun e none = Unit
ReadyRun e (some run) = ReadyAt e run run.step

-- From next id `n` and directives with actions `before`: the actions added are those of the run.
pub record Started (n : ℕ) (before : List ℕ) (r : Engine × Out) : Type 0 where
  pub emitted : actions r.1.directives ≡ before ++ ids_of r.0.state.run
  pub grows : n ≤ r.0.state.next_action_run
  pub fresh : All (λ id. (n ≤ id) × (id < r.0.state.next_action_run)) (ids_of r.0.state.run)
  pub ready : ReadyRun r.0 r.0.state.run

pub flush-actions :
    (o : Out) (filler : Bool) → actions (Out.flush o filler).directives ≡ actions o.directives
unfolding Out.flush
flush-actions o filler = elim (Option-cases o.pending) [
  | inl e ↦ rw (e, Out.flush)
  | inr (p, e) ↦
      rw (e, Out.flush)
        (ground (
          arith,
          actions-append o.directives (speak p filler ∷ []),
          append-nil (actions o.directives),
        ))
]

pub push-actions :
    (o : Out) (d : Directive)
    → actions (Out.push o d).directives ≡ actions o.directives ++ actions (d ∷ [])
unfolding Out.push
push-actions o d =
    actions-append (Out.flush o false).directives (d ∷ [])
    ∙ ap (λ xs. xs ++ actions (d ∷ [])) (flush-actions o false)

quiet_ready : (e : Engine) (run : PipelineRun) (s : Step) → id_of s ≡ [] → ReadyAt e run s
quiet_ready e run (executing id) h = cc
quiet_ready e run (collecting _) h = tt
quiet_ready e run (confirming_slot _) h = tt
quiet_ready e run awaiting_confirmation h = tt

quiet_run : (e : Engine) (run : Option PipelineRun) → ids_of run ≡ [] → ReadyRun e run
quiet_run e none h = tt
quiet_run e (some run) h = quiet_ready e run run.step h

-- A step that only says something, and leaves a run that waits for no action.
pub quiet :
    (n : ℕ) (before : List ℕ) (r : Engine × Out)
    → actions r.1.directives ≡ before
    → ids_of r.0.state.run ≡ []
    → n ≤ r.0.state.next_action_run
    → Started n before r
quiet n before r a i g = record {
  emitted = a ∙ sym (ap (◌++◌ before) i ∙ append-nil before);
  grows = g;
  fresh = rw i tt;
  ready = quiet_run r.0 r.0.state.run i;
}

All-weaken :
    (m n k : ℕ) (ids : List ℕ)
    → m ≤ n
    → All (λ id. (n ≤ id) × (id < k)) ids
    → All (λ id. (m ≤ id) × (id < k)) ids
All-weaken m n k [] h a = tt
All-weaken m n k (id ∷ ids) h a = ((omega arith, a.0.1), All-weaken m n k ids h a.1)

pub Started-weaken :
    (m n : ℕ) (before : List ℕ) (r : Engine × Out) → m ≤ n → Started n before r → Started m before r
Started-weaken m n before r h s = record {
  emitted = s.emitted;
  grows = omega (arith, s.grows);
  fresh = All-weaken m n r.0.state.next_action_run (ids_of r.0.state.run) h s.fresh;
  ready = s.ready;
}

-- A `Finish` that starts at most the action of the run that it leaves.
abbrev pub FinishStarts : Finish → Type 0
FinishStarts finish =
    (e : Engine) (o : Out) (outcome : String) (result : Option Report)
    → Started e.state.next_action_run (actions o.directives) (finish e o outcome result)
