-- ===== src/Engine/Agent/Closed.antt =====
-- crates/callora-core/src/engine.rs: the whole turn of the agent keeps what its steps keep.
use Prim.Native.String.{◌++◌ as str_append}
use callora.Base.{
  lookup, Bool, true, false, Option, none, some, List, [], ◌∷◌, String, ◌≡◌, refl, arith,
  Bool-cases, inl, inr, ap, ◌&&◌, ◌||◌, leb, if◌then◌else◌, str_eq,
}
use callora.Engine.Config.{IntentConfig}
use callora.Engine.Speech.{Directive, SpeechPlan}
use callora.Engine.Out.{Out}
use callora.Engine.Out
use callora.Engine.State.{Engine, Prompt, active}
use callora.Engine.Env.{Env}
use callora.Engine.Say.{render_ctx, say, say_here, ask, remember, note_asked}
use callora.Engine.Flow.{goodbye}
use callora.Engine.Handoff.{handoff}
use callora.Engine.Rules.{Applied, takes_over, goes_on, apply_rules}
use callora.Engine.Silence.{is_active, last_question}
use callora.Engine.Answer.{Check}
use callora.Engine.Utterance.Steps.{Same}
use callora.Engine.Utterance.Parts.{apply_from-Keeps, AppliedKeeps}
use callora.Engine.Utterance.Whole.{on_abuse-Closed}
use callora.Engine.Agent.{AgentTurn, Hearing, note_unless, agent_say, next_question, ask_again}
use callora.Engine.Agent.Choice.{Choice, reads, overruled, same_question_streak, intent_of}
use callora.Engine.Agent.Fields.{apply_agent_fields, take_task, misplaced_city}
use callora.Engine.Agent.Acts.{act}
use callora.Engine.Agent.Whole
use callora.Engine.Agent.Whole.{
  Taken, opened, in_one_city, undoubted, may_replace, silent, nothing_out, repeat_or_fallback,
  not_silent, acts, asks_and_acts, instead, again_instead, open_stage, partial_stage, order_stage,
  answered_stage, say_prompts, ask_anew, asked_unless, doubted_in, refuse, rejected_stage,
  asks_before, optional_stage, took_over, after_rules, fields_stage, which_way, town_stage,
  hands_over, task_stage, decided_stage, on_agent_turn, with_values, settled, optional_asked,
}
use callora.Engine.Agent.Steps.{AgentSteps}
use callora.Engine.Agent.Kept.{
  Same-refl, apply_agent_fields-Same, misplaced_city-Same, take_task-Same,
}
use callora.Engine.Agent.Parts.{
  agent_say-During, agent_say-After, noted-During, ask_again-After, next_question-After,
  note_unless-During, act-After,
}

opened-Same : (w : Env) (e : Engine) (t : String) → Same e (opened w e t)
unfolding remember
opened-Same w e t = (ground arith, ground arith, ground arith)

in_one_city-Same : (e : Engine) (b : Bool) → Same e (in_one_city e b)
in_one_city-Same e true = (refl, λ i. i, refl)
in_one_city-Same e false = Same-refl e

module _ (w : Env) (h : Hearing) (During : Engine → Out → Type 0) (After : Engine × Out → Type 0)
    (Closed : Engine × List Directive → Type 0) (a : AgentSteps w During After Closed) where
  open a use {steps}

  done_closed : (r : Engine × Out) → After r → Closed (Whole.done w h r)
  done_closed (e, o) k = a.closes (e, o) k

  repeat-After :
      (e : Engine) (o : Out) (q : Option SpeechPlan)
      → After (e, o)
      → After (repeat_or_fallback w h e o q)
  repeat-After e o none k = a.says_after e o _ false k
  repeat-After e o (some q) k = a.speaks_after e o q false k

  not_silent-After :
      (spoken : String) (r : Engine × Out) → After r → After (not_silent w h spoken r)
  not_silent-After spoken (e, o) k = elim (Bool-cases (nothing_out o && str_eq spoken "")) [
    | inl t ↦ rw t (repeat-After e o (last_question w e) k)
    | inr t ↦ rw t k
  ]

  asks_and_acts-Closed :
      (e : Engine) (o : Out) (c : Taken) (asks : List String)
      → During e o
      → Closed (asks_and_acts w h e o c asks)
  asks_and_acts-Closed e o c asks k =
      let r =
        act w h (note_asked e asks) o c.transcript c.action c.choice c.spoken c.changed
          c.offered_more in
      done_closed (not_silent w h c.spoken r) (
        not_silent-After c.spoken r (
          act-After w h During After Closed a (note_asked e asks) o c.transcript c.action c.choice
            c.spoken c.changed c.offered_more (noted-During w h During After Closed a e o asks k)))

  instead-Closed : (e : Engine) (o : Out) (c : Taken) → During e o → Closed (instead w h e o c)
  instead-Closed e o c k =
      done_closed (next_question w e o) (next_question-After w h During After Closed a e o k)

  said :
      (e : Engine) (o : Out) (c : Taken)
      → During e o
      → During (agent_say w h e o none "" c.spoken).0 (agent_say w h e o none "" c.spoken).1
  said e o c k = agent_say-During w h During After Closed a e o none "" c.spoken k

  again-Closed :
      (e : Engine) (o : Out) (c : Taken) (asks : List String) (s : Option String)
      → During e o
      → Closed (elim s as (λ _. Engine × List Directive) [
        | some slot ↦ again_instead w h e o c slot
        | none ↦ asks_and_acts w h e o c asks
      ])
  again-Closed e o c asks none k = asks_and_acts-Closed e o c asks k
  again-Closed e o c asks (some slot) k =
      let r = agent_say w h e o none "" c.spoken in
      done_closed (ask_again w r.0 r.1 slot)
        (ask_again-After w h During After Closed a r.0 r.1 slot (said e o c k))

  open_stage-Closed :
      (e : Engine) (o : Out) (c : Taken) → During e o → Closed (open_stage w h e o c)
  open_stage-Closed e o c k = again-Closed e o c _ _ k

  either :
      (b : Bool) (x y : Engine × List Directive) → Closed x → Closed y → Closed (if b then x else y)
  either true x y p q = p
  either false x y p q = q

  partial_stage-Closed :
      (e : Engine) (o : Out) (c : Taken) → During e o → Closed (partial_stage w h e o c)
  partial_stage-Closed e o c k = either _ _ _ (instead-Closed e o c k) (open_stage-Closed e o c k)

  order_stage-Closed :
      (e : Engine) (o : Out) (c : Taken) → During e o → Closed (order_stage w h e o c)
  order_stage-Closed e o c k = either _ _ _ (instead-Closed e o c k) (partial_stage-Closed e o c k)

  answered_stage-Closed :
      (e : Engine) (o : Out) (c : Taken) → During e o → Closed (answered_stage w h e o c)
  answered_stage-Closed e o c k = either _ _ _ (instead-Closed e o c k) (order_stage-Closed e o c k)

  say_prompts-During :
      (e : Engine) (o : Out) (ps : List Prompt)
      → During e o
      → During (say_prompts w h e o ps).0 (say_prompts w h e o ps).1
  say_prompts-During e o [] k = k
  say_prompts-During e o (p ∷ ps) k =
      let ctx = with_values (render_ctx e) p.values in
      let r = say w e o p.response ctx true in
      say_prompts-During r.0 r.1 ps (a.says_in e o p.response ctx true k)

  if_either : (b : Bool) (x y : Engine × Out) → After x → After y → After (if b then x else y)
  if_either true x y p q = p
  if_either false x y p q = q

  said_here-After : (e : Engine) (o : Out) (r : String) → During e o → After (say_here w e o r true)
  said_here-After e o r k =
      let s = say_here w e o r true in steps.stays s.0 s.1 (steps.says e o (some r) true k)

  asked_unless-After :
      (e : Engine) (o : Out) (c : Taken) (slot : String)
      → During e o
      → After (asked_unless w h e o c slot)
  asked_unless-After e o c slot k =
      if_either _ _ _ (steps.stays e o k)
        (if_either _ _ _ (said_here-After e o _ k) (steps.asks e o slot false k))

  doubted_in-After :
      (e : Engine) (o : Out) (c : Taken) (slot : String) (p : Option (List Prompt))
      → During e o
      → After (doubted_in w h e o c slot p)
  doubted_in-After e o c slot none k = asked_unless-After e o c slot k
  doubted_in-After e o c slot (some ps) k =
      let r = say_prompts w h e o ps in
      if_either (silent c) (note_asked r.0 (slot ∷ []), r.1) (asked_unless w h e o c slot)
        (steps.stays (note_asked r.0 (slot ∷ [])) r.1 (
          noted-During w h During After Closed a r.0 r.1 (slot ∷ []) (say_prompts-During e o ps k)))
        (asked_unless-After e o c slot k)

  refuse-Closed :
      (e : Engine) (o : Out) (c : Taken) (slot : String)
      → During e o
      → Closed (refuse w h e o c slot)
  refuse-Closed e o c slot k =
      let r = agent_say w h e o none "" c.spoken in
      let k1 = said e o c k in
      let e2 = undoubted r.0 slot in
      let d = doubted_in w h e2 r.1 c slot (lookup slot r.0.state.doubt_confirm) in
      either _ _ _ (a.forces r.0 "place_not_understood" (a.restarts r.0 r.1 k1)) (
        done_closed d (
          doubted_in-After e2 r.1 c slot (lookup slot r.0.state.doubt_confirm)
            (steps.moves r.0 e2 r.1 (refl, λ i. i, refl) k1)))

  refused-Closed :
      (e : Engine) (o : Out) (c : Taken) (slots : List String)
      → During e o
      → Closed (elim slots as (λ _. Engine × List Directive) [
        | [] ↦ answered_stage w h e o c
        | slot ∷ rest ↦
            if reads c.action || may_replace c
            then refuse w h e o c slot
            else answered_stage w h e o c
      ])
  refused-Closed e o c [] k = answered_stage-Closed e o c k
  refused-Closed e o c (slot ∷ rest) k =
      either _ _ _ (refuse-Closed e o c slot k) (answered_stage-Closed e o c k)

  asks_before-Closed :
      (e : Engine) (o : Out) (c : Taken) (slot : String)
      → During e o
      → Closed (asks_before w h e o c slot)
  asks_before-Closed e o c slot k =
      let r = agent_say w h e o none "" c.spoken in
      let e2 = note_unless true r.0 slot in
      let k2 = note_unless-During w h During After Closed a true r.0 r.1 slot (said e o c k) in
      done_closed (if w.asks c.spoken then (e2, r.1) else ask w e2 r.1 slot false) (
        if_either (w.asks c.spoken) (e2, r.1) (ask w e2 r.1 slot false) (steps.stays e2 r.1 k2)
          (steps.asks e2 r.1 slot false k2))

  optional-Closed :
      (e : Engine) (o : Out) (c : Taken) (s : Option String)
      → During e o
      → Closed (elim s as (λ _. Engine × List Directive) [
        | some slot ↦ asks_before w h e o c slot
        | none ↦ rejected_stage w h e o c
      ])
  optional-Closed e o c none k = refused-Closed e o c c.rejected k
  optional-Closed e o c (some slot) k = asks_before-Closed e o c slot k

  after_rules-Closed :
      (r : Applied w) (c : Taken)
      → AppliedKeeps w During After steps r
      → Closed (after_rules w h r c)
  after_rules-Closed (takes_over r) c k =
      done_closed (agent_say w h r.0 r.1 none "" c.spoken)
        (agent_say-After w h During After Closed a r "" c.spoken k)
  after_rules-Closed (goes_on e o) c k =
      let c' = settled w h e.business c in optional-Closed e o c' (optional_asked w h e c') k

  module _ (check : String → Check) where
    fields_stage-Closed :
        (e : Engine) (transcript spoken : String) (c : Choice) (offered_more : Bool)
        → During e Out.empty
        → Closed (fields_stage w h check e transcript spoken c offered_more)
    unfolding fields_stage apply_rules
    fields_stage-Closed e transcript spoken c offered_more k =
        let e1 = misplaced_city h e transcript in
        let agents = h.shape e1 transcript c.turn in
        let fields = h.in_same_city e1 transcript agents in
        let e2 = in_one_city e1 (h.says_same_city e1 transcript) in
        let e3 = (apply_agent_fields h check e2 fields).0 in
        after_rules-Closed (apply_rules w e3 Out.empty) _ (
          apply_from-Keeps w During After steps e3.business.rules e3 Out.empty (
            steps.moves e2 e3 Out.empty (apply_agent_fields-Same h check e2 fields) (
              steps.moves e1 e2 Out.empty (in_one_city-Same e1 (h.says_same_city e1 transcript))
                (steps.moves e e1 Out.empty (misplaced_city-Same h e transcript) k))))

    which_way-Closed :
        (e : Engine) (spoken city : String)
        → During e Out.empty
        → Closed (which_way w h check e spoken city)
    which_way-Closed e spoken city k =
        let r1 = agent_say w h e Out.empty none "" spoken in
        let ctx = with_values (render_ctx r1.0) (("city", city) ∷ []) in
        let r2 = say w r1.0 r1.1 "which_way" ctx true in
        done_closed (note_asked r2.0 ("pickup" ∷ []), r2.1)
          (steps.stays (note_asked r2.0 ("pickup" ∷ [])) r2.1 (
            noted-During w h During After Closed a r2.0 r2.1 ("pickup" ∷ []) (
              a.says_in r1.0 r1.1 "which_way" ctx true
                (agent_say-During w h During After Closed a e Out.empty none "" spoken k))))

    town-Closed :
        (e : Engine) (transcript spoken : String) (c : Choice) (offered_more : Bool)
        (t : Option String)
        → During e Out.empty
        → Closed (elim t as (λ _. Engine × List Directive) [
          | some city ↦ which_way w h check e spoken city
          | none ↦ fields_stage w h check e transcript spoken c offered_more
        ])
    town-Closed e transcript spoken c offered_more none k =
        fields_stage-Closed e transcript spoken c offered_more k
    town-Closed e transcript spoken c offered_more (some city) k = which_way-Closed e spoken city k

    hands_over-Closed :
        (e : Engine) (t : AgentTurn) (spoken id : String)
        → During e Out.empty
        → Closed (hands_over w h check e t spoken id)
    hands_over-Closed e t spoken id k =
        let r = agent_say w h e Out.empty t.phrase t.words spoken in
        let reason = str_append "intent:" id in
        done_closed (handoff w r.0 r.1 reason) (
          steps.hands_off r.0 r.1 reason
            (agent_say-During w h During After Closed a e Out.empty t.phrase t.words spoken k))

    task_stage-Closed :
        (e : Engine) (transcript spoken : String) (c : Choice) (offered_more : Bool)
        (i : Option IntentConfig)
        → During e Out.empty
        → Closed (task_stage w h check e transcript spoken c offered_more i)
    task_stage-Closed e transcript spoken c offered_more none k =
        town-Closed e transcript spoken c offered_more _ k
    task_stage-Closed e transcript spoken c offered_more (some i) k =
        either _ _ _ (hands_over-Closed e c.turn spoken i.id k) (
          town-Closed (take_task e i) transcript spoken c offered_more _
            (steps.moves e (take_task e i) Out.empty (take_task-Same e i) k))

    pub on_agent_turn-Closed :
        (e : Engine) (transcript : String) (t : AgentTurn) (spoken : String)
        → e.state.phase ≡ active
        → During e Out.empty
        → Closed (on_agent_turn w h check e transcript t spoken)
    unfolding on_agent_turn
    on_agent_turn-Closed e transcript t spoken p k =
        let e1 = opened w e transcript in
        let k1 = steps.moves e e1 Out.empty (opened-Same w e transcript) k in
        let left = goodbye w e1 Out.empty in
        rw (on_agent_turn, ap is_active p)
          (either (e1.state.goodbye_doubted && h.leaves_shortly e1.business transcript)
            (Whole.done w h left) _ (done_closed left (steps.says_goodbye e1 Out.empty k1))
            (either (w.is_abusive e1.business transcript) _ _
              (on_abuse-Closed w During After steps Closed a.closes e1 k1)
              (either (leb 5 (same_question_streak w h e1.state)) _ _
                (a.forces e1 "stuck_on_a_question" k1)
                (task_stage-Closed e1 transcript spoken (overruled h e1 transcript t) e.offered_more
                  (intent_of e1.business (overruled h e1 transcript t).turn.task) k1))))
