-- ===== src/Engine/Utterance/Ends.antt =====
-- crates/callora-core/src/engine.rs: an utterance's turn ends the call exactly when it hangs up or hands it over.
use callora.Base.{◌+◌, none, ◌≡◌, refl, arith, ◌∙◌, ap}
use callora.Engine.Speech.{hangup}
use callora.Engine.Out.{Out}
use callora.Engine.Out
use callora.Engine.State.{Engine, active, ending}
use callora.Engine.Env.{Env}
use callora.Engine.Say.{ask}
use callora.Engine.Flow.{goodbye, offer_more, advance, finish_run}
use callora.Engine.Handoff.{with_phase, handoff}
use callora.Engine.Frame.{say_some-Keeps, say_some-directives, speak-directives}
use callora.Engine.Understanding.{Understanding}
use callora.Engine.Answer.{Check}
use callora.Engine.Utterance.{on_utterance}
use callora.Engine.Ended.{ends, still, kept, left, push-ends, EndsOnce}
use callora.Engine.Ended.Tasks.{asked-EndsOnce}
use callora.Engine.Ended.Finishing.{
  advance-EndsOnce, goodbye-EndsOnce, offer_more-EndsOnce, finish_run-EndsOnce,
}
use callora.Engine.Ended.Turns.{handoff-EndsOnce, finish-ends, nothing_yet}
use callora.Engine.Utterance.Steps.{Steps}
use callora.Engine.Utterance.Whole.{on_utterance-Closed}

module _ (w : Env) where
  -- The call is active, and nothing that was put out ends it.
  abbrev pub GoingOn : Engine → Out → Type 0
  GoingOn e o = (e.state.phase ≡ active) × (ends o.directives ≡ 0)

  abbrev pub Once : Engine × Out → Type 0
  Once r = ends r.1.directives + still r.0.state.phase ≡ 1

  once : (o : Out) (r : Engine × Out) → ends o.directives ≡ 0 → EndsOnce o r → Once r
  once o r n h = omega (arith, n, h)

  pub steps : Steps w GoingOn Once
  steps = record {
    stays = λ e o (h, n). once o (e, o) n (kept o (e, o) refl h);
    moves = λ e e' o (p, i, k) (h, n). (p ∙ h, n);
    says = λ e o r recording (h, n). (
      (say_some-Keeps w e o r recording).phase ∙ h,
      ap ends (say_some-directives w e o r recording) ∙ n,
    );
    speaks = λ e o p recording (h, n). (h, ap ends (speak-directives o p recording) ∙ n);
    asks = λ e o slot acknowledge (h, n).
        once o (ask w e o slot acknowledge) n (asked-EndsOnce w e o slot acknowledge h);
    advances = λ e o acknowledge (h, n).
        once o (advance w e o acknowledge) n (advance-EndsOnce w e o acknowledge h);
    finishes = λ e o outcome (h, n).
        once o (finish_run w e o outcome none) n (finish_run-EndsOnce w e o outcome none h);
    hands_off =
        λ e o reason (h, n). once o (handoff w e o reason) n (handoff-EndsOnce w e o reason h);
    says_goodbye = λ e o (h, n). once o (goodbye w e o) n (goodbye-EndsOnce w e o);
    offers = λ e o (h, n). once o (offer_more w e o) n (offer_more-EndsOnce w e o h);
    hangs_up = λ e o (h, n).
        once o (with_phase e ending, Out.push o hangup) n
          (left o (with_phase e ending, Out.push o hangup) (push-ends o hangup) refl);
  }

  -- Whatever a caller says in an active call (a curse, a request, an answer, a new task, or nothing that is
  -- understood), the directives of the turn hand the call over or hang up once when the call stops being
  -- active, and not at all when it goes on.
  pub on_utterance-ends :
      (check : Check) (e : Engine) (u : Understanding)
      → e.state.phase ≡ active
      → ends (on_utterance w check e u).1 + still (on_utterance w check e u).0.state.phase ≡ 1
  on_utterance-ends check e u h =
      on_utterance-Closed w GoingOn Once steps (λ r. ends r.1 + still r.0.state.phase ≡ 1)
        (λ r k. omega (arith, finish-ends w r.0 r.1, k)) check e u h (h, nothing_yet w)
        (omega (arith, ap still h))
