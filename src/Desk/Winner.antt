-- ===== src/Desk/Winner.antt =====
-- crates/callora-runtime/src/desk.rs: at most one desk leg is joined to a caller.
use mathlib.Core.Bool.{false≢true}
use callora.Base.{
  true, false, none, some, List, [], ◌∷◌, ◌++◌, String, ◌≡◌, refl, sym, ap, ◌∙◌, arith, not, ◌⊎◌,
  inl, inr, retain, str_eq, eq_iff, All,
}
use callora.Desk.{
  Transfer, Effect, Event, desk_join, say_hangup, conference_wait_status, hangup_now, redirect,
  hangup, cancel, fall_back, dial, reply, cancels, creates, times_out, caller_leaves, answers, step,
  run,
}

-- The legs answered with the document that joins the caller's conference, in order.
abbrev pub joined : List Effect → List String
joined [] = []
joined (reply leg (desk_join _ _ _ _) ∷ es) = leg ∷ joined es
joined (_ ∷ es) = joined es

abbrev pub AllOf : String → List String → Type 0
AllOf w ls = All (λ l. l ≡ w) ls

-- The transfer is taken, and `w` alone can still be joined.
abbrev pub Claimed : String → Transfer → Type 0
Claimed w x = (x.taken ≡ true) × ((x.winner ≡ none) ⊎ (x.winner ≡ some w))

joined-cancels : (ls : List String) → joined (cancels ls) ≡ []
joined-cancels [] = refl
joined-cancels (l ∷ ls) = joined-cancels ls

joined-append : (xs ys : List Effect) → joined (xs ++ ys) ≡ joined xs ++ joined ys
joined-append [] ys = refl
joined-append (reply leg (desk_join _ _ _ _) ∷ xs) ys = ap (◌∷◌ leg) (joined-append xs ys)
joined-append (reply leg (say_hangup _ _) ∷ xs) ys = joined-append xs ys
joined-append (reply leg (conference_wait_status _ _ _) ∷ xs) ys = joined-append xs ys
joined-append (reply leg hangup_now ∷ xs) ys = joined-append xs ys
joined-append (redirect _ _ ∷ xs) ys = joined-append xs ys
joined-append (hangup _ ∷ xs) ys = joined-append xs ys
joined-append (cancel _ ∷ xs) ys = joined-append xs ys
joined-append (fall_back _ _ ∷ xs) ys = joined-append xs ys
joined-append (dial _ _ _ ∷ xs) ys = joined-append xs ys

AllOf-append : (w : String) (xs ys : List String) → AllOf w xs → AllOf w ys → AllOf w (xs ++ ys)
AllOf-append w [] ys h g = g
AllOf-append w (x ∷ xs) ys h g = (h.0, AllOf-append w xs ys h.1 g)

Claimed-step :
    (w : String) (x : Transfer) (e : Event)
    → Claimed w x
    → Claimed w (step x e).0 × AllOf w (joined (step x e).1)
unfolding step
Claimed-step w x (creates sid) h = ground arith
Claimed-step w x times_out h = ground (arith, joined-cancels x.legs)
Claimed-step w x caller_leaves h = ground (arith, joined-cancels x.legs)
Claimed-step w x (answers leg url) h = ground (arith, eq_iff w leg)
Claimed-step w x _ h = ground arith

AllOf-run :
    (w : String) (x : Transfer) (e : Event) (es : List Event)
    → AllOf w (joined (step x e).1)
    → AllOf w (joined (run (step x e).0 es).1)
    → AllOf w (joined (run x (e ∷ es)).1)
unfolding run
AllOf-run w x e es h g =
    rw (joined-append (step x e).1 (run (step x e).0 es).1) (AllOf-append w _ _ h g)

Claimed-run :
    (w : String) (x : Transfer) (es : List Event) → Claimed w x → AllOf w (joined (run x es).1)
Claimed-run w x [] h = unfold run in tt
Claimed-run w x (e ∷ es) h =
    let (c, o) = Claimed-step w x e h in AllOf-run w x e es o (Claimed-run w (step x e).0 es c)

-- The leg that an event lets have the caller.
abbrev picked : Event → String
picked (answers leg _) = leg
picked _ = ""

-- An untaken transfer stays so with nobody joined, or is taken with one leg that can be joined.
first_step :
    (x : Transfer) (e : Event)
    → x.taken ≡ false
    → x.winner ≡ none
    → (((step x e).0.taken ≡ false) × ((step x e).0.winner ≡ none) × (joined (step x e).1 ≡ []))
      ⊎ (Claimed (picked e) (step x e).0 × AllOf (picked e) (joined (step x e).1))
unfolding step
first_step x (creates sid) t n = inl (ground arith)
first_step x times_out t n = inr (ground (arith, joined-cancels x.legs))
first_step x caller_leaves t n = inr (ground (arith, joined-cancels x.legs))
first_step x (answers leg url) t n =
    ground (arith, joined-cancels (retain (λ l. not (str_eq l leg)) x.legs))
first_step x _ t n = ground arith

-- However events interleave, all the legs that are ever joined to the caller of a transfer that
-- nobody has yet are one and the same leg.
pub joined-run_one :
    (x : Transfer) (es : List Event)
    → x.taken ≡ false
    → x.winner ≡ none
    → (w : String) × AllOf w (joined (run x es).1)
joined-run_one x [] t n = ("", unfold run in tt)
joined-run_one x (e ∷ es) t n = elim (first_step x e t n) [
  | inl (t', n', j) ↦
      let (w, h) = joined-run_one (step x e).0 es t' n' in (w, AllOf-run w x e es (rw j tt) h)
  | inr (c, o) ↦ (picked e, AllOf-run (picked e) x e es o (Claimed-run _ (step x e).0 es c))
]

nobody : (ls : List String) → AllOf "" ls → AllOf "-" ls → ls ≡ []
nobody [] h g = refl
nobody (l ∷ ls) h g = absurd (false≢true ((eq_iff "" "-").1 (sym h.0 ∙ g.0)))

-- Once a transfer is taken and nobody has the caller, no late answer joins them.
pub joined-run_over :
    (x : Transfer) (es : List Event) → x.taken ≡ true → x.winner ≡ none → joined (run x es).1 ≡ []
joined-run_over x es t n =
    nobody (joined (run x es).1) (Claimed-run "" x es (t, inl n)) (Claimed-run "-" x es (t, inl n))
