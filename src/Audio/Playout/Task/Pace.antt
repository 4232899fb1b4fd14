-- ===== src/Audio/Playout/Task/Pace.antt =====
-- crates/callora-audio/src/playout.rs: the frames that `run` sends against the ticks of its clock.
use callora.Base.{
  ℕ, suc, ◌+◌, ◌≤◌, Option, none, some, List, [], ◌∷◌, ◌++◌, ◌≡◌, refl, arith, Bool-cases, inl, inr,
  ltb,
}
use callora.Audio.Floats.{Floats}
use callora.Audio.Playout.{Limiting, PlayoutConfig, Active}
use callora.Audio.Playout.Loop.{
  Player, OutFrame, audio, clear, new, send, report_idle, cancel_all, cancel_queue, idle_now,
  emptied, tell_cancelled, protect, cancel,
}
use callora.Audio.Playout.Kept.{Parts, Rest, turn-keep, cancel-keep}
use callora.Audio.Playout.Task.{
  Waits, spawned, woken, reached, Wake, cmd, enqueue, cancel_now, cancel_soft, data_ready, tick,
  handle, turn, deliver,
}
use callora.Audio.Playout.Task.Bounds.{Paced, Waits-Paced, turned-Paced}
use callora.Audio.Playout.Task.Cancels.{turns}

-- The frames of audio since what was sent was last cleared, `n` being those before.
abbrev pub sent_from : ℕ → List OutFrame → ℕ
sent_from n [] = n
sent_from n (audio f ∷ fs) = sent_from (suc n) fs
sent_from n (clear ∷ fs) = sent_from 0 fs

abbrev pub sent : List OutFrame → ℕ
sent fs = sent_from 0 fs

sent-audio :
    (n : ℕ) (fs : List OutFrame) (f : List ℕ)
    → sent_from n (fs ++ audio f ∷ []) ≡ suc (sent_from n fs)
sent-audio n [] f = refl
sent-audio n (audio g ∷ fs) f = sent-audio (suc n) fs f
sent-audio n (clear ∷ fs) f = sent-audio 0 fs f

sent-clear : (n : ℕ) (fs : List OutFrame) → sent_from n (fs ++ clear ∷ []) ≡ 0
sent-clear n [] = refl
sent-clear n (audio g ∷ fs) = sent-clear (suc n) fs
sent-clear n (clear ∷ fs) = sent-clear 0 fs

module _ (fl : Floats) (lim : Limiting fl) where
  send-out :
      (p : Player fl lim) (b : Active fl lim) (now : ℕ) (f : List ℕ)
      → ((send fl lim p b now f).out ≡ p.out ++ audio f ∷ [])
        × ((send fl lim p b now f).ahead ≡ suc p.ahead)
  unfolding send
  send-out p b now f = (refl, refl)

  abbrev pub ticks : List ((ℕ → ℕ) × Wake fl lim) → ℕ
  ticks [] = 0
  ticks ((clock, tick) ∷ ws) = suc (ticks ws)
  ticks ((clock, cmd c) ∷ ws) = ticks ws
  ticks ((clock, data_ready) ∷ ws) = ticks ws

  module _ (cfg : PlayoutConfig fl lim) (a n : ℕ) (within : a ≤ n) where
    -- What is ahead was sent; `a` frames were ahead when `n` had been sent or had time to play.
    abbrev Kept : Player fl lim → Type 0
    Kept p = (p.ahead ≤ sent p.out) × (sent p.out + a ≤ n + p.ahead)

    send-Kept :
        (p : Player fl lim) (b : Active fl lim) (now : ℕ) (f : List ℕ)
        → Kept p
        → Kept (send fl lim p b now f)
    send-Kept p b now f h =
        let (o, s) = send-out p b now f in
        rw (o, s, sent-audio 0 p.out f) (omega (arith, h.0), omega (arith, h.1))

    parts : Parts fl lim cfg Kept
    parts = record {
      ends = λ p b h. h;
      begins = λ p item items h. h;
      moves = λ p b c e h. h;
      sends = λ p b c now f l e h. send-Kept p c now f h;
    }

    emptied-Kept :
        (p : Player fl lim) (left : ℕ) (ids : List ℕ)
        → Kept p
        → Kept (idle_now fl lim (emptied fl lim p left ids))
    emptied-Kept p left [] h = elim (Bool-cases (ltb 0 p.ahead)) [
      | inl t ↦ ground (arith, sent-clear 0 p.out, within)
      | inr t ↦ ground (arith, within, h.0, h.1)
    ]
    emptied-Kept p left (_ ∷ _) h = ground (arith, sent-clear 0 p.out, within)

    cancel_all-Kept : (p : Player fl lim) (left : ℕ) → Kept p → Kept (cancel_all fl lim p left)
    unfolding cancel_all
    cancel_all-Kept p left h = emptied-Kept p left _ h

    tell_cancelled-Kept :
        (p : Player fl lim) (ids : List ℕ) (left : ℕ)
        → Kept p
        → Kept (tell_cancelled fl lim p ids left)
    tell_cancelled-Kept p [] left h = h
    tell_cancelled-Kept p (_ ∷ _) left h = h

    protect-Kept :
        (p : Player fl lim) (left : ℕ) (c : Option (Active fl lim))
        → Kept p
        → Kept (protect fl lim p left c)
    protect-Kept p left none h = h
    protect-Kept p left (some b) h = ground arith

    cancel_queue-Kept :
        (p : Player fl lim) (left queued : ℕ) → Kept p → Kept (cancel_queue fl lim p left queued)
    unfolding cancel_queue
    cancel_queue-Kept p left queued h =
        tell_cancelled-Kept (record (protect fl lim p left p.current) { queue = [] }) _ queued
          (protect-Kept p left p.current h)

    report_idle-Kept : (p : Player fl lim) → Kept p → Kept (report_idle fl lim p)
    report_idle-Kept p h = ground arith

    rest : Rest fl lim cfg Kept
    rest = record {
      unprotects = λ p h. h;
      reports = report_idle-Kept;
      drops = cancel_all-Kept;
      spares = cancel_queue-Kept;
    }

    pub turned :
        (clock : ℕ → ℕ) (p : Player fl lim) (w : Wake fl lim)
        → Kept (handle fl lim p w)
        → Kept (turn fl lim cfg clock p w)
    unfolding turn
    turned clock p w h = turn-keep fl lim cfg Kept parts rest clock (handle fl lim p w) h

    pub cancelled-Kept :
        (p : Player fl lim) (soft : Option ℕ) → Kept p → Kept (cancel fl lim p soft)
    cancelled-Kept p soft h = cancel-keep fl lim cfg Kept parts rest p soft h

  module _ (cfg : PlayoutConfig fl lim) (a : ℕ) where
    abbrev Steady : ℕ → Player fl lim → Type 0
    Steady n p = (a ≤ n) × (p.ahead ≤ sent p.out) × (sent p.out + a ≤ n + p.ahead)

    abbrev later : ℕ → Wake fl lim → ℕ
    later n tick = suc n
    later n (cmd _) = n
    later n data_ready = n

    handled :
        (n : ℕ) (p : Player fl lim) (w : Wake fl lim)
        → Steady n p
        → Steady (later n w) (handle fl lim p w)
    handled n p (cmd (enqueue i)) h = h
    handled n p (cmd cancel_now) (l, s, h) =
        let k = cancelled-Kept cfg a n l p none (s, h) in (l, k.0, k.1)
    handled n p (cmd (cancel_soft ms)) (l, s, h) =
        let k = cancelled-Kept cfg a n l p (some ms) (s, h) in (l, k.0, k.1)
    handled n p data_ready h = h
    handled n p tick h = ground arith

    stepped :
        (n : ℕ) (clock : ℕ → ℕ) (p : Player fl lim) (w : Wake fl lim)
        → Steady n p
        → Steady (later n w) (turn fl lim cfg clock p w)
    stepped n clock p w h =
        let (l, s, k) = handled n p w h in
        let r = turned cfg a (later n w) l clock p w (s, k) in (l, r.0, r.1)

    later-ticks :
        (n : ℕ) (clock : ℕ → ℕ) (w : Wake fl lim) (ws : List ((ℕ → ℕ) × Wake fl lim))
        → later n w + ticks ws ≡ n + ticks ((clock, w) ∷ ws)
    later-ticks n clock tick ws = omega arith
    later-ticks n clock (cmd c) ws = refl
    later-ticks n clock data_ready ws = refl

    over_turns :
        (n : ℕ) (p : Player fl lim) (ws : List ((ℕ → ℕ) × Wake fl lim))
        → Steady n p
        → Steady (n + ticks ws) (turns fl lim cfg p ws)
    over_turns n p [] (l, s, h) = (omega (arith, l), s, omega (arith, h))
    over_turns n p ((clock, w) ∷ ws) h =
        rw⁻¹ (later-ticks n clock w ws)
          (over_turns (later n w) (turn fl lim cfg clock p w) ws (stepped n clock p w h))

  module _ (cfg : PlayoutConfig fl lim) where
    -- What is ahead was sent.
    sent_ahead :
        {asked : List ℕ} (p : Player fl lim) → Waits fl lim cfg asked p → (n : ℕ) × Steady cfg 0 n p
    unfolding new deliver
    sent_ahead p spawned = (0, (omega arith, omega arith, omega arith))
    sent_ahead p (woken {p = q} clock w h c) =
        let (n, s) = sent_ahead q h in (later cfg 0 n w, stepped cfg 0 n clock q w s)
    sent_ahead p (reached {p = q} id d h) = sent_ahead q h

    turns-Paced :
        (p : Player fl lim) (ws : List ((ℕ → ℕ) × Wake fl lim))
        → Paced fl lim cfg p
        → Paced fl lim cfg (turns fl lim cfg p ws)
    turns-Paced p [] h = h
    turns-Paced p ((clock, w) ∷ ws) h =
        turns-Paced (turn fl lim cfg clock p w) ws (turned-Paced fl lim cfg clock p w h)

    -- From any time the task waits, and whatever wakes it from then on: the frames of audio sent since the last
    -- clear are no more than those sent by then, the ticks that passed, and what was left of the lead.
    pub turns-paced :
        {asked : List ℕ} (p : Player fl lim) (ws : List ((ℕ → ℕ) × Wake fl lim))
        → Waits fl lim cfg asked p
        → sent (turns fl lim cfg p ws).out + p.ahead ≤ sent p.out + ticks ws + cfg.lead_frames
    turns-paced p ws h =
        let (n, s) = sent_ahead p h in
        let steady = over_turns cfg p.ahead (sent p.out) p ws (s.1, s.1, omega arith) in
        omega (arith, steady.2, (turns-Paced p ws (Waits-Paced fl lim cfg p h)).0)
