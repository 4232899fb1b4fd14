-- ===== src/Desk/Once.antt =====
-- crates/callora-runtime/src/desk.rs: how often a caller is told that no one can take the call.
use callora.Base.{
  ℕ, suc, ◌+◌, ◌≤◌, Bool, true, false, none, List, [], ◌∷◌, ◌++◌, String, ◌≡◌, refl, arith, ◌&&◌,
  not, is_some, if◌then◌else◌, retain, str_eq,
}
use callora.Desk.{
  Transfer, Effect, Event, fall_back, cancels, creates, gives_up, times_out, caller_leaves, answers,
  step, run,
}

abbrev pub tells : Effect → ℕ
tells (fall_back _ _) = 1
tells _ = 0

-- How many times the caller is told.
unfoldable pub told : List Effect → ℕ
told [] = 0
told (e ∷ es) = tells e + told es

pub told-append : (xs ys : List Effect) → told (xs ++ ys) ≡ told xs + told ys
unfolding told
told-append [] ys = omega arith
told-append (x ∷ xs) ys = omega (arith, told-append xs ys)

told-cancels : (ls : List String) → told (cancels ls) ≡ 0
unfolding told
told-cancels [] = refl
told-cancels (l ∷ ls) = omega (arith, told-cancels ls)

-- Over: no leg may take the caller any more.
abbrev pub over : Transfer → Bool
over x = x.taken && not (is_some x.winner)

-- How many times the caller may yet be told.
abbrev pub left : Transfer → ℕ
left x = if over x then 0 else 1

-- Nobody has the caller before the transfer is taken.
abbrev pub IsSound : Transfer → Type 0
IsSound x = x.taken ≡ false → x.winner ≡ none

pub step-IsSound : (x : Transfer) (e : Event) → IsSound x → IsSound (step x e).0
unfolding step
step-IsSound x (creates sid) h = ground arith
step-IsSound x _ h = ground arith

-- The sections that give up when not one leg was rung: they tell the caller without looking.
abbrev pub tries : List Event → ℕ
tries [] = 0
tries (gives_up ∷ es) = suc (tries es)
tries (_ ∷ es) = tries es

abbrev try : Event → ℕ
try gives_up = 1
try _ = 0

tries-cons : (e : Event) (es : List Event) → tries (e ∷ es) ≡ try e + tries es
tries-cons gives_up es = omega arith
tries-cons _ es = omega arith

pub told-step :
    (x : Transfer) (e : Event) → IsSound x → told (step x e).1 + left (step x e).0 ≤ try e + left x
unfolding step told
told-step x (creates sid) h = ground arith
told-step x times_out h = ground (arith, told-cancels x.legs)
told-step x caller_leaves h = ground (arith, told-cancels x.legs)
told-step x (answers leg url) h =
    ground (arith, told-cancels (retain (λ l. not (str_eq l leg)) x.legs))
told-step x _ h = ground arith

pub told-run :
    (x : Transfer) (es : List Event)
    → IsSound x
    → told (run x es).1 + left (run x es).0 ≤ tries es + left x
unfolding run
told-run x [] h = unfold told in omega arith
told-run x (e ∷ es) h = omega (
  arith,
  tries-cons e es,
  told-append (step x e).1 (run (step x e).0 es).1,
  told-step x e h,
  told-run (step x e).0 es (step-IsSound x e h),
)

-- Once nobody has the caller of a taken transfer, only the section that gives up when no leg was
-- rung tells them again.
pub told-run_over :
    (x : Transfer) (es : List Event)
    → x.taken ≡ true
    → x.winner ≡ none
    → told (run x es).1 ≤ tries es
told-run_over x es t w = ground (arith, told-run x es (λ f. w))
