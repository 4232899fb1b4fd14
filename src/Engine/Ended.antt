-- ===== src/Engine/Ended.antt =====
-- crates/callora-core/src/engine.rs: hanging up and handing over go with the end of the active phase.
pub mod Tasks
pub mod Finishing
pub mod Turns
use callora.Base.{
  ℕ, ◌+◌, Bool, true, false, Option, none, some, List, [], ◌∷◌, ◌++◌, String, ◌≡◌, refl, arith,
  Option-cases, inl, inr, ◌∙◌, ap, sym,
}
use callora.Engine.Speech.{Directive, speak, run_action, hand_off, hangup}
use callora.Engine.Out.{Out}
use callora.Engine.Out
use callora.Engine.State.{Engine, Report, Phase, active, handing_off, ending}
use callora.Engine.Flow.{Finish}

-- How many directives end the agent's part of the call.
abbrev pub ends : List Directive → ℕ
ends [] = 0
ends (hangup ∷ ds) = 1 + ends ds
ends (hand_off _ ∷ ds) = 1 + ends ds
ends (run_action _ _ _ ∷ ds) = ends ds
ends (speak _ _ ∷ ds) = ends ds

abbrev pub still : Phase → ℕ
still active = 1
still handing_off = 0
still ending = 0

-- From an active call: one directive ends it when the phase is left, and none otherwise.
abbrev pub EndsOnce : Out → Engine × Out → Type 0
EndsOnce o r = ends r.1.directives + still r.0.state.phase ≡ ends o.directives + 1

pub ends-append : (xs ys : List Directive) → ends (xs ++ ys) ≡ ends xs + ends ys
ends-append [] ys = omega arith
ends-append (hangup ∷ xs) ys = omega (arith, ends-append xs ys)
ends-append (hand_off _ ∷ xs) ys = omega (arith, ends-append xs ys)
ends-append (run_action _ _ _ ∷ xs) ys = ends-append xs ys
ends-append (speak _ _ ∷ xs) ys = ends-append xs ys

pub flush-ends :
    (o : Out) (filler : Bool) → ends (Out.flush o filler).directives ≡ ends o.directives
unfolding Out.flush
flush-ends o filler = elim (Option-cases o.pending) [
  | inl e ↦ rw (e, Out.flush)
  | inr (p, e) ↦ rw (e, Out.flush) (ground (arith, ends-append o.directives (speak p filler ∷ [])))
]

pub push-ends :
    (o : Out) (d : Directive) → ends (Out.push o d).directives ≡ ends o.directives + ends (d ∷ [])
unfolding Out.push
push-ends o d =
    ends-append (Out.flush o false).directives (d ∷ [])
    ∙ ap (λ n. n + ends (d ∷ [])) (flush-ends o false)

-- A step that leaves the phase and ends nothing.
pub kept :
    (o : Out) (r : Engine × Out)
    → ends r.1.directives ≡ ends o.directives
    → r.0.state.phase ≡ active
    → EndsOnce o r
kept o r d p = omega (arith, d, ap still p)

-- A step that adds the directive with which the phase is left.
pub left :
    (o : Out) (r : Engine × Out)
    → ends r.1.directives ≡ ends o.directives + 1
    → still r.0.state.phase ≡ 0
    → EndsOnce o r
left o r d p = omega (arith, d, p)

abbrev pub FinishEnds : Finish → Type 0
FinishEnds finish =
    (e : Engine) (o : Out) (outcome : String) (result : Option Report)
    → e.state.phase ≡ active
    → EndsOnce o (finish e o outcome result)
