-- ===== src/Engine/Frame.antt =====
-- crates/callora-core/src/engine.rs: what rendering, saying and asking leave alone.
use callora.Base.{
  Bool, true, Option, none, some, List, [], ◌∷◌, String, ◌≡◌, refl, arith, Option-cases, inl, inr,
  ◌∙◌,
}
use callora.Engine.Speech.{SpeechPlan}
use callora.Engine.Out.{Out}
use callora.Engine.Out
use callora.Engine.State.{Engine}
use callora.Engine.Env.{Env, Context}
use callora.Engine.Say.{
  render_plan, say, say_some, ask, ask_with, choose_again, note_asked, pipeline_ask, acknowledged,
  asking_ctx, specific_ask, or_else,
}

-- The same task, call and business; what was said and asked may differ.
pub record Keeps (e e' : Engine) : Type 0 where
  pub business : e'.business ≡ e.business
  pub run : e'.state.run ≡ e.state.run
  pub suspended : e'.state.suspended ≡ e.state.suspended
  pub completed : e'.state.completed ≡ e.state.completed
  pub next_action_run : e'.state.next_action_run ≡ e.state.next_action_run
  pub phase : e'.state.phase ≡ e.state.phase
  pub fallback_level : e'.state.fallback_level ≡ e.state.fallback_level
  pub action_failures : e'.state.action_failures ≡ e.state.action_failures
  pub silence_reprompts : e'.state.silence_reprompts ≡ e.state.silence_reprompts
  pub desk : e'.desk ≡ e.desk

pub Keeps-refl : (e : Engine) → Keeps e e
Keeps-refl e = ground arith

pub Keeps-trans : (e f g : Engine) → Keeps e f → Keeps f g → Keeps e g
Keeps-trans e f g h k = ground arith

pub note_asked-Keeps : (e : Engine) (slots : List String) → Keeps e (note_asked e slots)
unfolding note_asked
note_asked-Keeps e slots = ground arith

pub speak-directives :
    (o : Out) (p : SpeechPlan) (recording : Bool)
    → (Out.speak o p recording).directives ≡ o.directives
unfolding Out.speak
speak-directives o p recording = refl

module _ (w : Env) where
  pub render_plan-Keeps :
      (e : Engine) (r : String) (ctx : Context) → Keeps e (render_plan w e r ctx).1
  unfolding render_plan
  render_plan-Keeps e r ctx = ground arith

  -- Saying a response changes nothing of the task, and adds no directive yet.
  pub say-Keeps :
      (e : Engine) (o : Out) (r : String) (ctx : Context) (recording : Bool)
      → Keeps e (say w e o r ctx recording).0
  unfolding say
  say-Keeps e o r ctx recording = ground arith

  pub say-directives :
      (e : Engine) (o : Out) (r : String) (ctx : Context) (recording : Bool)
      → (say w e o r ctx recording).1.directives ≡ o.directives
  unfolding say Out.speak
  say-directives e o r ctx recording = ground arith

  pub choose_again-Keeps :
      (e : Engine) (slot question : String) (ctx : Context)
      → Keeps e (choose_again w e slot question ctx).1
  choose_again-Keeps e slot question ctx =
      ground (arith, render_plan-Keeps e question ctx, Keeps-refl e)

  pub say_some-Keeps :
      (e : Engine) (o : Out) (r : Option String) (recording : Bool)
      → Keeps e (say_some w e o r recording).0
  say_some-Keeps e o none recording = Keeps-refl e
  say_some-Keeps e o (some r) recording = say-Keeps e o r _ recording

  pub say_some-directives :
      (e : Engine) (o : Out) (r : Option String) (recording : Bool)
      → (say_some w e o r recording).1.directives ≡ o.directives
  say_some-directives e o none recording = refl
  say_some-directives e o (some r) recording = say-directives e o r _ recording

  acknowledged-Keeps :
      (e : Engine) (o : Out) (acknowledge : Bool) (q : String)
      → Keeps e (acknowledged w e o acknowledge q).0
        × ((acknowledged w e o acknowledge q).1.directives ≡ o.directives)
  acknowledged-Keeps e o acknowledge q = ground (
    arith,
    Keeps-refl e,
    say_some-Keeps e o e.business.acknowledgement true,
    say_some-directives e o e.business.acknowledgement true,
  )

  module _ (e : Engine) (o : Out) (slot : String) (acknowledge : Bool) where
    ask_with-Keeps : (general : String) → Keeps e (ask_with w e o slot acknowledge general).0
    unfolding ask_with
    ask_with-Keeps general =
        let ctx = asking_ctx e slot in
        let (chosen, e1) = choose_again w e slot (or_else (specific_ask e slot) general) ctx in
        let (e2, o2) = acknowledged w e1 o acknowledge chosen in
        let e3 = (say w e2 o2 chosen ctx true).0 in
        Keeps-trans e e1 _ (choose_again-Keeps e slot (or_else (specific_ask e slot) general) ctx) (
          Keeps-trans e1 e2 _ (acknowledged-Keeps e1 o acknowledge chosen).0 (
            Keeps-trans e2 e3 _ (say-Keeps e2 o2 chosen ctx true)
              (note_asked-Keeps e3 (slot ∷ []))))

    ask_with-directives :
        (general : String) → (ask_with w e o slot acknowledge general).1.directives ≡ o.directives
    unfolding ask_with
    ask_with-directives general =
        let ctx = asking_ctx e slot in
        let (chosen, e1) = choose_again w e slot (or_else (specific_ask e slot) general) ctx in
        let (e2, o2) = acknowledged w e1 o acknowledge chosen in
        say-directives e2 o2 chosen ctx true ∙ (acknowledged-Keeps e1 o acknowledge chosen).1

    pub ask-Keeps : Keeps e (ask w e o slot acknowledge).0
    unfolding ask
    ask-Keeps = elim (Option-cases (pipeline_ask e slot)) [
      | inl n ↦ rw (n, ask) (Keeps-refl e)
      | inr (general, n) ↦ rw (n, ask) (ask_with-Keeps general)
    ]

    pub ask-directives : (ask w e o slot acknowledge).1.directives ≡ o.directives
    unfolding ask
    ask-directives = elim (Option-cases (pipeline_ask e slot)) [
      | inl n ↦ rw (n, ask)
      | inr (general, n) ↦ rw (n, ask) (ask_with-directives general)
    ]
