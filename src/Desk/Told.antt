-- ===== src/Desk/Told.antt =====
-- crates/callora-runtime/src/desk.rs: how often the whole of a transfer tells the caller that no
-- one can take the call.
use callora.Base.{
  ℕ, ◌+◌, ◌≤◌, Option, none, some, List, [], ◌∷◌, ◌++◌, String, ◌≡◌, refl, arith, All,
}
use callora.Desk.{
  Transfer, Effect, Event, checks, run, step, dialing_done, none_rung, give_up_if_all_failed,
  created,
}
use callora.Desk.Dialing.{
  Turn, Request, create, dial_numbers, last_sections, ring_desk, ring_seconds, from_number, fresh,
}
use callora.Desk.Once.{told, told-append, told-step, told-run, tries, left, IsSound, step-IsSound}

run-IsSound : (x : Transfer) (es : List Event) → IsSound x → IsSound (run x es).0
unfolding run
run-IsSound x [] h = h
run-IsSound x (e ∷ es) h = run-IsSound (step x e).0 es (step-IsSound x e h)

-- At most `k` words more than the transfer may yet be told.
abbrev Tells : ℕ → Transfer → Transfer × List Effect → Type 0
Tells k x r = (told r.1 + left r.0 ≤ k + left x) × IsSound r.0

run-Tells : (x : Transfer) (es : List Event) → IsSound x → Tells (tries es) x (run x es)
run-Tells x es h = (told-run x es h, run-IsSound x es h)

create-Tells : (x : Transfer) (o : Option String) → IsSound x → Tells 0 x (create x o)
unfolding created told
create-Tells x none h = (omega arith, h)
create-Tells x (some sid) h = (ground arith, ground arith)

-- Only the dialing itself gives a transfer up.
abbrev pub Others : List Turn → Type 0
Others ts = All (λ t. (tries t.during ≡ 0) × (tries t.after ≡ 0)) ts

dial_numbers-Tells :
    (from : String) (ring : ℕ) (ts : List Turn) (attempted : List String) (x : Transfer)
    → Others ts
    → IsSound x
    → Tells 0 x (dial_numbers from ring ts attempted x)
unfolding dial_numbers told
dial_numbers-Tells from ring [] attempted x o h = (omega arith, h)
dial_numbers-Tells from ring (t ∷ ts) attempted x o h =
    let (x1, out1) = run x t.during in
    let (x2, out2) = create x1 t.outcome in
    let (x3, out3) = run x2 t.after in
    let rest = dial_numbers from ring ts (t.number ∷ attempted) x3 in
    let k1 = run-Tells x t.during h in
    let k2 = create-Tells x1 t.outcome k1.1 in
    let k3 = run-Tells x2 t.after k2.1 in
    let k4 = dial_numbers-Tells from ring ts (t.number ∷ attempted) x3 o.1 k3.1 in
    let skipped = dial_numbers-Tells from ring ts attempted x o.1 h in
    (
      ground (
        arith,
        skipped.0,
        k1.0,
        k2.0,
        k3.0,
        k4.0,
        o.0.0,
        o.0.1,
        told-append out1 out2,
        told-append (out1 ++ out2) out3,
        told-append (out1 ++ out2 ++ out3) rest.1,
      ),
      ground (arith, skipped.1, k4.1, h),
    )

-- Once, unless something comes between the last two sections.
abbrev pub most : List Event → ℕ
most [] = 1
most (_ ∷ _) = 2

give_up-Tells : (x : Transfer) → IsSound x → Tells 0 x (give_up_if_all_failed x)
unfolding step
give_up-Tells x h = (told-step x checks h, step-IsSound x checks h)

last_sections-IsSound :
    (between : List Event) (x : Transfer) → IsSound x → IsSound (last_sections between x).0
unfolding last_sections none_rung
last_sections-IsSound between x h =
    let x1 = (run (dialing_done x) between).0 in
    let k = run-IsSound (dialing_done x) between h in ground (arith, k, h, (give_up-Tells x1 k).1)

last_sections-told :
    (between : List Event) (x : Transfer)
    → tries between ≡ 0
    → IsSound x
    → told (last_sections between x).1 + left (last_sections between x).0 + 1
      ≤ left x + most between
unfolding last_sections told none_rung run
last_sections-told [] x t h = let y = dialing_done x in ground (arith, (give_up-Tells y h).0, h)
last_sections-told (e ∷ es) x t h =
    let y = dialing_done x in
    let (x1, out1) = run y (e ∷ es) in
    let k = run-Tells y (e ∷ es) h in
    ground (
      arith,
      t,
      k.0,
      (give_up-Tells x1 k.1).0,
      told-append out1 (none_rung x1).1,
      told-append out1 (give_up_if_all_failed x1).1,
    )

-- Over the whole of a new transfer, whatever callbacks, deadline or caller's leaving come between
-- the sections of its dialing and after it, the caller is told at most once that no one can take
-- the call, and at most twice where something comes between the dialing's last two sections.
pub ring_desk-told :
    (q : Request) (now : ℕ) (later : List Event)
    → tries q.before ≡ 0
    → Others q.turns
    → tries q.between ≡ 0
    → tries later ≡ 0
    → told (ring_desk q (fresh q now)).1 + told (run (ring_desk q (fresh q now)).0 later).1
      ≤ most q.between
unfolding ring_desk
ring_desk-told q now later b o t l =
    let from = from_number q.caller_id q.to in
    let ring = ring_seconds q.max_wait_seconds in
    let x = fresh q now in
    let (x1, out1) = run x q.before in
    let (x2, out2) = dial_numbers from ring q.turns [] x1 in
    let (x3, out3) = last_sections q.between x2 in
    let k0 : IsSound x = unfold fresh in (λ _. refl) in
    let k1 = run-Tells x q.before k0 in
    let k2 = dial_numbers-Tells from ring q.turns [] x1 o k1.1 in
    let k3 = last_sections-told q.between x2 t k2.1 in
    let k4 : told (run (ring_desk q x).0 later).1 + left (run x3 later).0 ≤ tries later + left x3 =
      (run-Tells x3 later (last_sections-IsSound q.between x2 k2.1)).0 in
    let first : left x ≡ 1 = unfold fresh in refl in
    omega (
      arith,
      b,
      l,
      first,
      k1.0,
      k2.0,
      k3,
      k4,
      told-append out1 out2,
      told-append (out1 ++ out2) out3,
    )
