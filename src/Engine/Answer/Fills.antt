-- ===== src/Engine/Answer/Fills.antt =====
-- crates/callora-core/src/engine.rs: which values `apply_fills` leaves in the run.
use callora.Base.{
  ℕ, ◌+◌, Bool, true, false, Option, none, some, List, [], ◌∷◌, String, ◌≡◌, refl, sym, arith,
  Bool-cases, inl, inr, ◌∙◌, ap, subst, str_eq, eq_iff, lookup, lookup-insert, if◌then◌else◌, ◌&&◌,
  ◌==◌, ==_iff,
}
use callora.Call.Run.{
  PipelineRun, SlotState, SlotValue, ℤ, pos, negsuc, TimeSpec, now, in_minutes, at, text, place,
  integer, boolean, time, enum, value_eq, set, bool_eq, int_eq, option_eq, time_eq,
}
use callora.Engine.Config.{Business, PipelineConfig}
use callora.Engine.State.{Engine}
use callora.Engine.Say.{pipeline_of}
use callora.Engine.Understanding.{SlotFill}
use callora.Engine.Answer.{
  accepted, store, store_all, same_as, stored, apply_fills, fill_run, taken,
}

bool_eq_sound : (a b : Bool) → bool_eq a b ≡ true → a ≡ b
bool_eq_sound true b h = sym h
bool_eq_sound false true h = h
bool_eq_sound false false h = refl

int_eq_sound : (a b : ℤ) → int_eq a b ≡ true → a ≡ b
int_eq_sound (pos a) (pos b) h = ap pos ((==_iff a b).0 h)
int_eq_sound (negsuc a) (negsuc b) h = ap negsuc ((==_iff a b).0 h)
int_eq_sound (pos a) (negsuc b) h = cc
int_eq_sound (negsuc a) (pos b) h = cc

option_eq_sound : (a b : Option String) → option_eq a b ≡ true → a ≡ b
option_eq_sound none none h = refl
option_eq_sound (some a) (some b) h = ap some ((eq_iff a b).0 h)
option_eq_sound none (some b) h = cc
option_eq_sound (some a) none h = cc

time_eq_sound : (a b : TimeSpec) → time_eq a b ≡ true → a ≡ b
time_eq_sound now now h = refl
time_eq_sound (in_minutes a) (in_minutes b) h = ap in_minutes ((==_iff a b).0 h)
time_eq_sound (at h m d) (at h' m' d') e = ground (arith, ==_iff h h', ==_iff m m', ==_iff d d')
time_eq_sound now (in_minutes b) h = cc
time_eq_sound now (at _ _ _) h = cc
time_eq_sound (in_minutes a) now h = cc
time_eq_sound (in_minutes a) (at _ _ _) h = cc
time_eq_sound (at _ _ _) now h = cc
time_eq_sound (at _ _ _) (in_minutes b) h = cc

value_eq_sound : (a b : SlotValue) → value_eq a b ≡ true → a ≡ b
unfolding value_eq
value_eq_sound (text a) (text b) h = ap text ((eq_iff a b).0 h)
value_eq_sound (place s a c) (place s' a' c') h =
    ground (arith, eq_iff s s', option_eq_sound a a', option_eq_sound c c')
value_eq_sound (integer a) (integer b) h = ap integer (int_eq_sound a b h)
value_eq_sound (boolean a) (boolean b) h = ap boolean (bool_eq_sound a b h)
value_eq_sound (time a) (time b) h = ap time (time_eq_sound a b h)
value_eq_sound (enum a) (enum b) h = ap enum ((eq_iff a b).0 h)
value_eq_sound _ _ h = cc

abbrev pub value_of : Option SlotState → Option SlotValue
value_of none = none
value_of (some s) = some s.value

-- The value of a detail after these fills: that of the last of them that is for the task and certain enough.
abbrev pub latest :
    Business → PipelineConfig → String → List SlotFill → Option SlotValue → Option SlotValue
latest b p k [] found = found
latest b p k (f ∷ fs) found =
    latest b p k fs (if accepted b p f && str_eq f.slot k then some f.value else found)

same_as-value : (o : Option SlotState) (v : SlotValue) → same_as o v ≡ true → value_of o ≡ some v
same_as-value none v h = cc
same_as-value (some s) v h = ap some (value_eq_sound s.value v h)

if-value :
    (b : Bool) (s : SlotState) (o : Option SlotState)
    → value_of (if b then some s else o) ≡ (if b then some s.value else value_of o)
if-value true s o = refl
if-value false s o = refl

store-value :
    (run : PipelineRun) (f : SlotFill) (k : String)
    → value_of (lookup k (store run f).slots)
      ≡ (if str_eq f.slot k then some f.value else value_of (lookup k run.slots))
unfolding set
store-value run f k = elim (Bool-cases (same_as (lookup f.slot run.slots) f.value)) [
  | inl s ↦ elim (Bool-cases (str_eq f.slot k)) [
    | inl t ↦
        rw (s, t)
          (subst (λ j. value_of (lookup j run.slots) ≡ some f.value) ((eq_iff f.slot k).0 t)
            (same_as-value (lookup f.slot run.slots) f.value s))
    | inr t ↦ rw (s, t) refl
  ]
  | inr s ↦ rw s (
      ap value_of (lookup-insert f.slot k (stored f) run.slots)
      ∙ if-value (str_eq f.slot k) (stored f) (lookup k run.slots))
]

store_all-latest :
    (b : Business) (p : PipelineConfig) (k : String) (fs : List SlotFill) (run : PipelineRun)
    → value_of (lookup k (store_all b p fs run).0.slots)
      ≡ latest b p k fs (value_of (lookup k run.slots))
unfolding store_all
store_all-latest b p k [] run = refl
store_all-latest b p k (f ∷ fs) run = elim (Bool-cases (accepted b p f)) [
  | inl a ↦
      rw (store_all, a)
        (store_all-latest b p k fs (store run f) ∙ ap (latest b p k fs) (store-value run f k))
  | inr a ↦ rw (store_all, a) (store_all-latest b p k fs run)
]

-- How many fills are for the task and certain enough.
abbrev pub how_many : Business → PipelineConfig → List SlotFill → ℕ
how_many b p [] = 0
how_many b p (f ∷ fs) = (if accepted b p f then 1 else 0) + how_many b p fs

store_all-how_many :
    (b : Business) (p : PipelineConfig) (fs : List SlotFill) (run : PipelineRun)
    → (store_all b p fs run).1 ≡ how_many b p fs
unfolding store_all
store_all-how_many b p [] run = refl
store_all-how_many b p (f ∷ fs) run = elim (Bool-cases (accepted b p f)) [
  | inl a ↦ rw (store_all, a) (omega (arith, store_all-how_many b p fs (store run f)))
  | inr a ↦ rw (store_all, a) (omega (arith, store_all-how_many b p fs run))
]

taken-same :
    (k : String) (r : PipelineRun × ℕ)
    → (value_of (lookup k (taken r).0.slots) ≡ value_of (lookup k r.0.slots)) × ((taken r).1 ≡ r.1)
taken-same k (run, n) = elim (Bool-cases (n == 0)) [
  | inl z ↦ rw z (refl, refl)
  | inr z ↦ rw z (refl, refl)
]

-- What a detail of the current task is after the fills are applied to it, and how many count.
abbrev pub value_now : String → Option PipelineRun → Option SlotValue
value_now k none = none
value_now k (some run) = value_of (lookup k run.slots)

abbrev pub Latest : Engine → List SlotFill → String → Option PipelineRun → Engine × ℕ → Type 0
Latest e fs k none r = (value_now k r.0.state.run ≡ none) × (r.1 ≡ 0)
Latest e fs k (some run) r =
    (value_now k r.0.state.run
      ≡ latest e.business (pipeline_of e run) k fs (value_of (lookup k run.slots)))
    × (r.1 ≡ how_many e.business (pipeline_of e run) fs)

fill_run-Latest :
    (e : Engine) (fs : List SlotFill) (k : String) (run : Option PipelineRun)
    → Latest
        (record e { state = record (e.state) { run = run } })
        fs
        k
        run
        (fill_run (record e { state = record (e.state) { run = run } }) fs run)
unfolding pipeline_of
fill_run-Latest e fs k none = (refl, refl)
fill_run-Latest e fs k (some run) =
    let p = pipeline_of e run in
    let (same, count) = taken-same k (store_all e.business p fs run) in
    (same ∙ store_all-latest e.business p k fs run, count ∙ store_all-how_many e.business p fs run)

-- After an utterance's values are applied, a detail of the current task has the value of the last fill for it
-- that is for the task and certain enough, and the value it had when there is none; the number that
-- is answered is that of all such fills. Without a task nothing is stored.
pub apply_fills-Latest :
    (e : Engine) (fs : List SlotFill) (k : String) → Latest e fs k e.state.run (apply_fills e fs)
unfolding apply_fills
apply_fills-Latest e fs k = fill_run-Latest e fs k e.state.run
