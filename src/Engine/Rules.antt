-- ===== src/Engine/Rules.antt =====
-- crates/callora-core/src/engine.rs and values.rs: the business's rules.
use Prim.Native.String.{◌++◌ as str_append}
use callora.Base.{
  Bool, true, false, Option, none, some, List, [], ◌∷◌, ◌++◌, String, if◌then◌else◌, str_eq, lookup,
  mem, any, not, ◌&&◌, ◌||◌, is_some,
}
use callora.Call.Run.{
  ℤ, PipelineRun, SlotValue, text, place, integer, boolean, enum, rule, set, clear, collecting,
  int_eq, bool_eq,
}
use callora.Engine.Config.{
  Json, number, bool, str, RuleConfig, RuleEffect, reject, hand_off, sets, ConditionTest, gt, lt,
  eq, present,
}
use callora.Engine.Out.{Out}
use callora.Engine.State.{Engine}
use callora.Engine.Env.{Env}
use callora.Engine.Say.{say_here, say_some, ask}
use callora.Engine.Fill.{with_run}
use callora.Engine.Handoff.{handoff}

-- An integer's number, as `as_f64` gives it.
abbrev as_integer : SlotValue → Option ℤ
as_integer (integer z) = some z
as_integer _ = none

unfoldable pub matches_json : SlotValue → Json → Bool
matches_json (integer z) (number n) = int_eq n z
matches_json (boolean b) (bool c) = bool_eq b c
matches_json (enum v) (str s) = str_eq v s
matches_json (text t) (str s) = str_eq t s
matches_json (place spoken _ _) (str s) = str_eq spoken s
matches_json _ _ = false

abbrev holds : (ℤ → Bool) → Option SlotValue → Bool
holds test none = false
holds test (some v) = elim (as_integer v) [ none ↦ false | some z ↦ test z ]

abbrev is_value : Json → Option SlotValue → Bool
is_value x none = false
is_value x (some v) = matches_json v x

abbrev met : ConditionTest → Option SlotValue → Bool
met (gt above) v = holds above v
met (lt below) v = holds below v
met (eq x) v = is_value x v
met (present p) v = bool_eq (is_some v) p

abbrev value_at : String → PipelineRun → Option SlotValue
value_at slot run = elim (lookup slot run.slots) [ none ↦ none | some s ↦ some s.value ]

abbrev other_task : Option String → PipelineRun → Bool
other_task none run = false
other_task (some p) run = not (str_eq p run.pipeline)

-- Whether a rule applies now: its task, not fired yet, its condition met.
unfoldable pub rule_hit : PipelineRun → RuleConfig → Bool
unfolding matches_json
rule_hit run r =
    not (other_task r.pipeline run || mem r.id run.fired_rules)
    && met r.test (value_at r.when_slot run)

abbrev sets_value : RuleEffect → Bool
sets_value (sets _ _) = true
sets_value _ = false

unfoldable pub rule_takes_over : Engine → Bool
unfolding rule_hit
rule_takes_over e = elim e.state.run [
  | none ↦ false
  | some run ↦ any (λ r. not (sets_value r.effect) && rule_hit run r) e.business.rules
]

abbrev pub fired : PipelineRun → RuleConfig → PipelineRun
fired run r = record run { fired_rules = run.fired_rules ++ r.id ∷ [] }

abbrev pub set_by_rule : PipelineRun → String → Option SlotValue → PipelineRun
set_by_rule run slot none = run
set_by_rule run slot (some v) =
    set run slot (record { value = v; confidence = 1000; provenance = rule; confirmed = true })

module _ (w : Env) where
  -- A rule takes the turn over, or the next one is tried.
  pub data Applied : Type 0 where
    takes_over : Engine × Out → Applied
    goes_on : Engine → Out → Applied

  unfoldable pub apply_rule : Engine → Out → PipelineRun → RuleConfig → RuleEffect → Applied
  unfolding set clear ask handoff
  apply_rule e out run r (reject response) =
      let run1 = record (clear run r.when_slot) { step = collecting (some r.when_slot) } in
      let (e1, out1) = say_here w (with_run e run1) out response true in
      takes_over (ask w e1 out1 r.when_slot false)
  apply_rule e out run r (hand_off response reason) =
      let (e1, out1) = say_some w (with_run e run) out response true in
      takes_over (handoff w e1 out1 (str_append "rule:" reason))
  apply_rule e out run r (sets slot value) =
      goes_on (with_run e (set_by_rule run slot (w.default_value e.business slot value))) out

  abbrev pub apply_hit : Engine → Out → Option PipelineRun → RuleConfig → Applied
  apply_hit e out none r = goes_on e out
  apply_hit e out (some run) r =
      if rule_hit run r then apply_rule e out (fired run r) r r.effect else goes_on e out

  unfoldable pub apply_from : List RuleConfig → Engine → Out → Applied
  unfolding rule_hit apply_rule
  apply_from [] e out = goes_on e out
  apply_from (r ∷ rs) e out = elim (apply_hit e out e.state.run r) [
    | takes_over done ↦ takes_over done
    | goes_on e1 out1 ↦ apply_from rs e1 out1
  ]

  unfoldable pub apply_rules : Engine → Out → Applied
  unfolding apply_from
  apply_rules e out = apply_from e.business.rules e out
