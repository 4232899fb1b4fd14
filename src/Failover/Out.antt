-- ===== src/Failover/Out.antt =====
-- crates/callora-providers/src/stt_failover.rs: while the primary is out, the backup serves.
use callora.Base.{
  ℕ, ◌+◌, ◌≤◌, ◌<◌, Bool, true, false, Option, some, List, [], ◌∷◌, ◌≡◌, ◌≢◌, arith, All, lt→ltb,
}
use callora.Failover.{SttFailover, Serving, primary, backup, opened, take_down, open_session}

-- What the calls do with the recognizer: one opens a session, or a failure becomes known, of the
-- session of one or of an opening that began before.
pub data Use : Type 0 where
  opens : Bool → Bool → Use
  fails : Use

-- The sessions that are opened, in order; each use comes with its time.
unfoldable pub uses : SttFailover → List (ℕ × Use) → List (Option Serving)
uses f [] = []
uses f ((now, opens primary_opens backup_opens) ∷ us) =
    let r = open_session f now primary_opens backup_opens in r.0 ∷ uses r.1 us
uses f ((now, fails) ∷ us) = uses (take_down f now) us

abbrev pub Within : ℕ → ℕ → ℕ × Use → Type 0
Within from end u = (from ≤ u.0) × (u.0 < end)

backup-opened : (ok : Bool) → opened backup ok ≢ some primary
backup-opened true e = ground arith
backup-opened false e = ground arith

down-open_session :
    (f : SttFailover) (now : ℕ) (p b : Bool) (d : ℕ)
    → now < d
    → open_session (record f { down_until = some d }) now p b
      ≡ (opened backup b, record f { down_until = some d })
unfolding open_session
down-open_session f now p b d l = rw (lt→ltb now d l)

out :
    (c from d : ℕ) (us : List (ℕ × Use))
    → from + c ≤ d
    → All (Within from (from + c)) us
    → All (λ s. s ≢ some primary) (uses (record { down_until = some d; cool_down = c }) us)
unfolding uses
out c from d [] l a = tt
out c from d ((now, opens p b) ∷ us) l (h, a) =
    rw
      (down-open_session (record { down_until = some d; cool_down = c }) now p b d
        (omega (arith, h, l)))
      (backup-opened b, out c from d us l a)
out c from d ((now, fails) ∷ us) l (h, a) = out c from (now + c) us (omega (arith, h)) a

-- Once a failure took the primary out, no session that a call opens before the cool-down is over is the
-- primary's, whichever services answer and whatever other sessions fail meanwhile.
pub uses-take_down :
    (f : SttFailover) (now : ℕ) (us : List (ℕ × Use))
    → All (Within now (now + f.cool_down)) us
    → All (λ s. s ≢ some primary) (uses (take_down f now) us)
uses-take_down f now us a = out f.cool_down now (now + f.cool_down) us (omega arith) a
