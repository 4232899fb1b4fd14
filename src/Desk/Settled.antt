-- ===== src/Desk/Settled.antt =====
-- crates/callora-runtime/src/desk.rs: no desk leg is left ringing once the transfer is taken.
use callora.Base.{
  Bool, true, false, none, List, [], ◌∷◌, ◌++◌, String, ◌≡◌, refl, arith, ◌&&◌, ◌||◌, not, retain,
  str_eq, eq_iff, mem, all,
}
use callora.Desk.{
  run, Transfer, Effect, Event, cancel, cancels, creates, dials_all, gives_up, times_out, ends,
  checks, caller_leaves, answers, conference_starts, step, is,
}
use callora.Desk.Winner.{joined}

-- The legs that were cancelled.
abbrev pub cancelled : List Effect → List String
cancelled [] = []
cancelled (cancel leg ∷ es) = leg ∷ cancelled es
cancelled (_ ∷ es) = cancelled es

-- The legs that were created.
abbrev pub made : List Event → List String
made [] = []
made (creates leg ∷ es) = leg ∷ made es
made (_ ∷ es) = made es

module _ (l : String) where
  mem-append : (xs ys : List String) → mem l (xs ++ ys) ≡ (mem l xs || mem l ys)
  mem-append [] ys = refl
  mem-append (x ∷ xs) ys = ground (arith, mem-append xs ys)

  cancelled-cancels : (ls : List String) → mem l (cancelled (cancels ls)) ≡ mem l ls
  cancelled-cancels [] = refl
  cancelled-cancels (x ∷ ls) = ground (arith, cancelled-cancels ls)

  mem-cancelled :
      (xs ys : List Effect)
      → mem l (cancelled (xs ++ ys)) ≡ (mem l (cancelled xs) || mem l (cancelled ys))
  mem-cancelled [] ys = refl
  mem-cancelled (x ∷ xs) ys = ground (arith, mem-cancelled xs ys)

  mem-joined :
      (xs ys : List Effect) → mem l (joined (xs ++ ys)) ≡ (mem l (joined xs) || mem l (joined ys))
  mem-joined [] ys = refl
  mem-joined (x ∷ xs) ys = ground (arith, mem-joined xs ys)

  joined-cancels : (ls : List String) → mem l (joined (cancels ls)) ≡ false
  joined-cancels [] = refl
  joined-cancels (x ∷ ls) = joined-cancels ls

  mem-others :
      (leg : String) (ls : List String)
      → mem l (retain (λ x. not (str_eq x leg)) ls) ≡ (mem l ls && not (str_eq l leg))
  mem-others leg [] = refl
  mem-others leg (x ∷ ls) =
      ground (arith, mem-others leg ls, eq_iff x leg, eq_iff x l, eq_iff l leg)

  mem_of_all :
      (ls ended : List String)
      → all (λ x. mem x ended) ls ≡ true
      → mem l ls ≡ true
      → mem l ended ≡ true
  mem_of_all [] ended a h = cc
  mem_of_all (x ∷ ls) ended a h = ground (arith, mem_of_all ls ended, eq_iff x l)

  or_false : (a : Bool) → (a || false) ≡ a
  or_false a = ground arith

  -- Leg `l` so far: whether it was created, cancelled and joined.
  record Inv (x : Transfer) (m c j : Bool) : Type 0 where
    unclaimed : x.taken ≡ false → x.winner ≡ none
    known : m ≡ true → x.taken ≡ false → mem l x.legs ≡ true
    settled : m ≡ true → x.taken ≡ true → (c || mem l x.ended || j) ≡ true
    won : is x.winner l ≡ true → j ≡ true

  abbrev makes : Event → Bool
  makes (creates leg) = str_eq leg l
  makes _ = false

  abbrev Next : Transfer → Event → Bool → Bool → Bool → Type 0
  Next x e m c j =
      Inv (step x e).0 (m || makes e) (c || mem l (cancelled (step x e).1))
        (j || mem l (joined (step x e).1))

  step-Inv : (x : Transfer) (e : Event) (m c j : Bool) → Inv x m c j → Next x e m c j
  unfolding step
  step-Inv x (creates sid) m c j h = ground (arith, mem-append x.legs (sid ∷ []), eq_iff sid l)
  step-Inv x times_out m c j h = ground (arith, cancelled-cancels x.legs, joined-cancels x.legs)
  step-Inv x caller_leaves m c j h = ground (arith, cancelled-cancels x.legs, joined-cancels x.legs)
  step-Inv x (answers leg url) m c j h = ground (
    arith,
    cancelled-cancels (retain (λ y. not (str_eq y leg)) x.legs),
    joined-cancels (retain (λ y. not (str_eq y leg)) x.legs),
    mem-others leg x.legs,
    eq_iff leg l,
    eq_iff l leg,
  )
  step-Inv x (ends leg status) m c j h = ground (arith, mem-append x.ended (leg ∷ []))
  step-Inv x checks m c j h = ground (arith, mem_of_all x.legs x.ended)
  step-Inv x dials_all m c j h = ground arith
  step-Inv x gives_up m c j h = ground arith
  step-Inv x conference_starts m c j h = ground arith

  or_assoc : (a b c : Bool) → ((a || b) || c) ≡ (a || (b || c))
  or_assoc a b c = ground arith

  made-cons : (e : Event) (es : List Event) → mem l (made (e ∷ es)) ≡ (makes e || mem l (made es))
  made-cons (creates leg) es = refl
  made-cons _ es = refl

  run-Inv :
      (x : Transfer) (es : List Event) (m c j : Bool)
      → Inv x m c j
      → Inv
          (run x es).0
          (m || mem l (made es))
          (c || mem l (cancelled (run x es).1))
          (j || mem l (joined (run x es).1))
  unfolding run
  run-Inv x [] m c j h = rw (or_false m, or_false c, or_false j) h
  run-Inv x (e ∷ es) m c j h =
      rw
        (
          made-cons e es,
          mem-cancelled (step x e).1 (run (step x e).0 es).1,
          mem-joined (step x e).1 (run (step x e).0 es).1,
        )
        (rw (← or_assoc m (makes e) (mem l (made es)), ← or_assoc c _ _, ← or_assoc j _ _)
          (run-Inv (step x e).0 es _ _ _ (step-Inv x e m c j h)))

  -- Once the transfer is taken, a leg that was created, at whatever point of any interleaving, was
  -- cancelled, ended by itself, or was joined to the caller: none is left ringing.
  pub run-settled :
      (x : Transfer) (es : List Event)
      → x.taken ≡ false
      → x.winner ≡ none
      → mem l (made es) ≡ true
      → (run x es).0.taken ≡ true
      → (mem l (cancelled (run x es).1) || mem l (run x es).0.ended || mem l (joined (run x es).1))
        ≡ true
  run-settled x es t n m k =
      (run-Inv x es false false false (record {
        unclaimed = λ _. n;
        known = λ f. cc;
        settled = λ f. cc;
        won = ground arith;
      })).settled
        m k
