-- ===== src/Engine/Utterance/Values.antt =====
-- crates/callora-core/src/engine.rs: checking places, storing values and inferring a task start no action.
use callora.Base.{
  ℕ, Bool, true, false, Option, none, some, List, [], ◌∷◌, String, ◌≡◌, refl, arith, Option-cases,
  Bool-cases, inl, inr, ◌∙◌, ap, is_some, not, ◌&&◌, ◌==◌,
}
use callora.Call.Run.{
  PipelineRun, Step, collecting, confirming_slot, awaiting_confirmation, executing, set,
}
use callora.Engine.Config.{Business, PipelineConfig}
use callora.Engine.Speech.{has_none}
use callora.Engine.State.{Engine}
use callora.Engine.Env.{Env}
use callora.Engine.Say.{with_state, pipeline_of}
use callora.Engine.Understanding.{Understanding, SlotFill}
use callora.Engine.Answer.{
  Check, check_places, apply_fills, fill_run, infer_pipeline, is_place, takes, noted, drops, taken,
  store, store_all, accepted, collecting_again,
}
use callora.Engine.Utterance.{infer, inferred}
use callora.Engine.Started.{ids_of, id_of}
use callora.Engine.Utterance.Steps.{Same}
use callora.Engine.Utterance.Stages.{new_run-step}

pub drops-ids :
    (b : Bool) (slot : String) (c : Option PipelineRun) → ids_of (drops b slot c) ≡ ids_of c
drops-ids true slot none = refl
drops-ids true slot (some run) = refl
drops-ids false slot none = refl
drops-ids false slot (some run) = refl

pub check_places-Same :
    (check : Check) (e : Engine) (fs : List SlotFill) → Same e (check_places check e fs).0
unfolding check_places
check_places-Same check e [] = (refl, λ i. i, refl)
check_places-Same check e (f ∷ fs) = elim (Bool-cases (is_place f.value && takes e f)) [
  | inr t ↦ rw (check_places, t) (check_places-Same check e fs)
  | inl t ↦
      let e1 = noted e f (check e f) in
      let (p, i, n) = check_places-Same check e1 fs in
      let through =
        λ (j : ids_of e.state.run ≡ []). i (drops-ids (check e f).dropped f.slot e.state.run ∙ j) in
      elim (Option-cases (check e f).value) [
        | inl v ↦ rw (check_places, t, v) (p, through, n)
        | inr (x, v) ↦ rw (check_places, t, v) (p, through, n)
      ]
]

store-step : (run : PipelineRun) (f : SlotFill) → (store run f).step ≡ run.step
unfolding set
store-step run f = ground arith

store_all-step :
    (b : Business) (p : PipelineConfig) (fs : List SlotFill) (run : PipelineRun)
    → (store_all b p fs run).0.step ≡ run.step
unfolding store_all
store_all-step b p [] run = refl
store_all-step b p (f ∷ fs) run = elim (Bool-cases (accepted b p f)) [
  | inl a ↦ rw (store_all, a) (store_all-step b p fs (store run f) ∙ store-step run f)
  | inr a ↦ rw (store_all, a) (store_all-step b p fs run)
]

collecting_again-ids : (t : Step) → id_of (collecting_again t) ≡ id_of t
collecting_again-ids (collecting _) = refl
collecting_again-ids (confirming_slot _) = refl
collecting_again-ids awaiting_confirmation = refl
collecting_again-ids (executing _) = refl

taken-ids : (run : PipelineRun) (n : ℕ) → id_of (taken (run, n)).0.step ≡ id_of run.step
taken-ids run n = elim (Bool-cases (n == 0)) [
  | inl z ↦ rw z refl
  | inr z ↦ rw z (collecting_again-ids run.step)
]

fill_run-Same :
    (e : Engine) (fs : List SlotFill) (c : Option PipelineRun)
    → Same
        (with_state e (record (e.state) { run = c }))
        (fill_run (with_state e (record (e.state) { run = c })) fs c).0
fill_run-Same e fs none = (refl, λ i. i, refl)
fill_run-Same e fs (some run) =
    let e1 = with_state e (record (e.state) { run = some run }) in
    let r = store_all e1.business (pipeline_of e1 run) fs run in
    (
      refl,
      λ i.
          taken-ids r.0 r.1 ∙ ap id_of (store_all-step e1.business (pipeline_of e1 run) fs run) ∙ i,
      refl,
    )

pub apply_fills-Same : (e : Engine) (fs : List SlotFill) → Same e (apply_fills e fs).0
unfolding apply_fills
apply_fills-Same e fs = fill_run-Same e fs e.state.run

module _ (w : Env) where
  inferred-Same :
      (e : Engine) (c : Option (String × String)) (b : Bool) → Same e (inferred w e c b).0
  inferred-Same e none b = (refl, λ i. i, refl)
  inferred-Same e (some (p, i)) b = (refl, λ j. new_run-step e p i, refl)

  pub infer-Same : (e : Engine) (u : Understanding) (b : Bool) → Same e (infer w e u b).0
  unfolding infer
  infer-Same e u b = elim (Bool-cases (not (is_some e.state.run) && not (has_none u.slots))) [
    | inl t ↦ rw (infer, t) (inferred-Same e (infer_pipeline e u.slots) b)
    | inr t ↦ rw (infer, t) (refl, λ i. i, refl)
  ]
