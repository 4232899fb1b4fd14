-- ===== src/Desk/Rings.antt =====
-- crates/callora-runtime/src/desk.rs: which numbers a transfer rings, and when none can be rung.
use callora.Base.{
  ℕ, true, false, Option, none, some, List, [], ◌∷◌, ◌++◌, String, ◌≡◌, refl, ap, arith,
  if◌then◌else◌, str_eq, eq_iff, ◌+◌, ◌≤◌, mem, retain, not, All,
}
use callora.Desk.{
  Transfer, Effect, Event, dial, fall_back, creates, times_out, caller_leaves, answers, checks,
  say_hangup, run, step, redirect, hangup, cancel, reply, created, dialing_done, none_rung,
  give_up_if_all_failed, cancels,
}
use callora.Desk.Dialing.{
  Turn, Request, create, dial_numbers, ring_desk, ring_seconds, from_number, last_sections, fresh,
}

-- The effects but for the rung numbers.
abbrev pub undialed : List Effect → List Effect
undialed [] = []
undialed (dial _ _ _ ∷ es) = undialed es
undialed (e ∷ es) = e ∷ undialed es

undialed-append : (xs ys : List Effect) → undialed (xs ++ ys) ≡ undialed xs ++ undialed ys
undialed-append [] ys = refl
undialed-append (dial _ _ _ ∷ xs) ys = undialed-append xs ys
undialed-append (redirect a b ∷ xs) ys = ap (◌∷◌ (redirect a b)) (undialed-append xs ys)
undialed-append (hangup a ∷ xs) ys = ap (◌∷◌ (hangup a)) (undialed-append xs ys)
undialed-append (cancel a ∷ xs) ys = ap (◌∷◌ (cancel a)) (undialed-append xs ys)
undialed-append (fall_back a b ∷ xs) ys = ap (◌∷◌ (fall_back a b)) (undialed-append xs ys)
undialed-append (reply a b ∷ xs) ys = ap (◌∷◌ (reply a b)) (undialed-append xs ys)

-- How many times a number was rung.
abbrev pub rings : String → List Effect → ℕ
rings n [] = 0
rings n (dial number _ _ ∷ es) = if str_eq number n then 1 + rings n es else rings n es
rings n (_ ∷ es) = rings n es

module _ (n : String) where
  rings-append : (xs ys : List Effect) → rings n (xs ++ ys) ≡ rings n xs + rings n ys
  rings-append [] ys = omega arith
  rings-append (e ∷ xs) ys = ground (arith, rings-append xs ys)

  rings-cancels : (ls : List String) → rings n (cancels ls) ≡ 0
  rings-cancels [] = refl
  rings-cancels (l ∷ ls) = rings-cancels ls

  -- Events ring nobody: only the loop does.
  rings-step : (x : Transfer) (e : Event) → rings n (step x e).1 ≡ 0
  unfolding step
  rings-step x (creates sid) = ground arith
  rings-step x times_out = ground (arith, rings-cancels x.legs)
  rings-step x caller_leaves = ground (arith, rings-cancels x.legs)
  rings-step x (answers leg url) =
      ground (arith, rings-cancels (retain (λ l. not (str_eq l leg)) x.legs))
  rings-step x _ = ground arith

  rings-run : (x : Transfer) (es : List Event) → rings n (run x es).1 ≡ 0
  unfolding run
  rings-run x [] = refl
  rings-run x (e ∷ es) = omega (
    arith,
    rings-append (step x e).1 (run (step x e).0 es).1,
    rings-step x e,
    rings-run (step x e).0 es,
  )

  rings-create : (x : Transfer) (o : Option String) → rings n (create x o).1 ≡ 0
  unfolding created
  rings-create x none = refl
  rings-create x (some sid) = ground arith

  abbrev may_ring : List String → ℕ
  may_ring attempted = if mem n attempted then 0 else 1

  rings-dial_numbers :
      (from : String) (ring : ℕ) (ts : List Turn) (attempted : List String) (x : Transfer)
      → rings n (dial_numbers from ring ts attempted x).1 ≤ may_ring attempted
  unfolding dial_numbers
  rings-dial_numbers from ring [] attempted x = ground arith
  rings-dial_numbers from ring (t ∷ ts) attempted x =
      let x1 = (run x t.during).0 in
      let x2 = (create x1 t.outcome).0 in
      let x3 = (run x2 t.after).0 in
      let rest = (dial_numbers from ring ts (t.number ∷ attempted) x3).1 in
      ground (
        arith,
        eq_iff t.number n,
        rings-dial_numbers from ring ts attempted x,
        rings-dial_numbers from ring ts (t.number ∷ attempted) x3,
        rings-run x t.during,
        rings-create x1 t.outcome,
        rings-run x2 t.after,
        rings-append (run x t.during).1 ((create x1 t.outcome).1),
        rings-append ((run x t.during).1 ++ (create x1 t.outcome).1) (run x2 t.after).1,
        rings-append ((run x t.during).1 ++ (create x1 t.outcome).1 ++ (run x2 t.after).1) rest,
      )

  rings-give_up : (y : Transfer) → rings n (give_up_if_all_failed y).1 ≡ 0
  unfolding step
  rings-give_up y = rings-step y checks

  rings-last_sections :
      (between : List Event) (x : Transfer) → rings n (last_sections between x).1 ≡ 0
  unfolding last_sections none_rung
  rings-last_sections between x =
      let (x1, out1) = run (dialing_done x) between in
      ground (
        arith,
        rings-run (dialing_done x) between,
        rings-give_up x1,
        rings-append out1 (none_rung x1).1,
        rings-append out1 (give_up_if_all_failed x1).1,
      )

  -- However events interleave with the dialing, and however often a number stands in the desk's
  -- settings, a transfer rings it at most once.
  pub rings-ring_desk : (q : Request) (x : Transfer) → rings n (ring_desk q x).1 ≤ 1
  unfolding ring_desk
  rings-ring_desk q x =
      let from = from_number q.caller_id q.to in
      let ring = ring_seconds q.max_wait_seconds in
      let (x1, out1) = run x q.before in
      let (x2, out2) = dial_numbers from ring q.turns [] x1 in
      let out3 = (last_sections q.between x2).1 in
      omega (
        arith,
        rings-run x q.before,
        rings-dial_numbers from ring q.turns [] x1,
        rings-last_sections q.between x2,
        rings-append out1 out2,
        rings-append (out1 ++ out2) out3,
      )

-- No call of the turns could be created, and nothing else happened meanwhile.
abbrev pub AllRefused : List Turn → Type 0
AllRefused ts = All (λ t. (t.outcome ≡ none) × (t.during ≡ []) × (t.after ≡ [])) ts

refused_numbers :
    (from : String) (ring : ℕ) (ts : List Turn) (attempted : List String) (x : Transfer)
    → AllRefused ts
    → (dial_numbers from ring ts attempted x).0 ≡ x
unfolding dial_numbers run
refused_numbers from ring [] attempted x h = refl
refused_numbers from ring (t ∷ ts) attempted x h = ground (
  arith,
  refused_numbers from ring ts attempted x h.1,
  refused_numbers from ring ts (t.number ∷ attempted) x h.1,
)

refused_silent :
    (from : String) (ring : ℕ) (ts : List Turn) (attempted : List String) (x : Transfer)
    → AllRefused ts
    → undialed (dial_numbers from ring ts attempted x).1 ≡ []
unfolding dial_numbers run
refused_silent from ring [] attempted x h = refl
refused_silent from ring (t ∷ ts) attempted x h = ground (
  arith,
  refused_silent from ring ts attempted x h.1,
  refused_silent from ring ts (t.number ∷ attempted) x h.1,
)

last_sections-unrung :
    (x : Transfer)
    → x.taken ≡ false
    → x.legs ≡ []
    → ((last_sections [] x).0.taken ≡ true)
      × ((last_sections [] x).1 ≡ fall_back x.caller x.give_up ∷ [])
unfolding last_sections run none_rung
last_sections-unrung x t l = ground arith

-- When not one desk call can be created, and nothing else happens to a new transfer meanwhile (no
-- callback, no deadline, no leaving caller), its dialing ends with the transfer taken and the
-- caller told, once, that no one can take the call.
pub ring_desk-refused :
    (q : Request) (now : ℕ)
    → AllRefused q.turns
    → q.before ≡ []
    → q.between ≡ []
    → ((ring_desk q (fresh q now)).0.taken ≡ true)
      × (undialed (ring_desk q (fresh q now)).1
          ≡ fall_back q.call_sid (say_hangup q.unavailable q.language) ∷ [])
unfolding ring_desk run
ring_desk-refused q now h b t = simp (b, t, same, last.0, effects) (refl, refl)
  where
    from : String
    from = from_number q.caller_id q.to

    ring : ℕ
    ring = ring_seconds q.max_wait_seconds

    x : Transfer
    x = fresh q now

    same : (dial_numbers from ring q.turns [] x).0 ≡ x
    same = refused_numbers from ring q.turns [] x h

    last :
        ((last_sections [] x).0.taken ≡ true)
        × ((last_sections [] x).1 ≡ fall_back x.caller x.give_up ∷ [])
    last = last_sections-unrung x (unfold fresh in refl) (unfold fresh in refl)

    effects :
        undialed ((dial_numbers from ring q.turns [] x).1 ++ (last_sections [] x).1)
        ≡ fall_back q.call_sid (say_hangup q.unavailable q.language) ∷ []
    effects =
        rw (last.1, undialed-append _ _, refused_silent from ring q.turns [] x h)
          (unfold fresh in refl)
