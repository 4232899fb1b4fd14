-- ===== src/Audio/Playout/Task/Bounds.antt =====
-- crates/callora-audio/src/playout.rs: how far `run` sends ahead of real time, and when it reports that it is
-- idle.
use callora.Base.{
  ℕ, ◌<◌, ◌≤◌, Bool, true, Option, none, some, List, [], ◌∷◌, ◌≡◌, refl, arith, not, ◌||◌, ◌==◌,
}
use callora.Audio.Floats.{Floats}
use callora.Audio.Playout.{Limiting, PlayoutConfig, Active}
use callora.Audio.Playout.Loop.{
  Player, new, send, report_idle, cancel_all, cancel_queue, idle_now, emptied, tell_cancelled,
  protect,
}
use callora.Audio.Playout.Kept.{Parts, Rest, turn-keep, cancel-keep}
use callora.Audio.Playout.Burst.{send_ahead}
use callora.Audio.Playout.Task.{
  Waits, spawned, woken, reached, Wake, cmd, enqueue, cancel_now, cancel_soft, data_ready, tick,
  handle, turn, deliver,
}

module _ (fl : Floats) (lim : Limiting fl) (cfg : PlayoutConfig fl lim) where
  abbrev pub silent : Player fl lim → Bool
  silent p = not p.idle_reported || p.ahead == 0

  -- Not further ahead than allowed, and idle only with nothing on its way.
  abbrev pub Paced : Player fl lim → Type 0
  Paced p = (p.ahead ≤ cfg.lead_frames) × (silent p ≡ true)

  send-Paced :
      (p : Player fl lim) (a : Active fl lim) (now : ℕ) (f : List ℕ)
      → p.ahead < cfg.lead_frames
      → Paced (send fl lim p a now f)
  unfolding send
  send-Paced p a now f l = (omega (arith, (send_ahead fl lim cfg (λ n. now) p a now f).0), refl)

  parts : Parts fl lim cfg Paced
  parts = record {
    ends = λ p a h. h;
    begins = λ p item items h. h;
    moves = λ p a b e h. h;
    sends = λ p a b now f l e h. send-Paced p b now f l;
  }

  report_idle-Paced : (p : Player fl lim) → Paced p → Paced (report_idle fl lim p)
  report_idle-Paced p h = ground arith

  emptied-Paced :
      (p : Player fl lim) (left : ℕ) (ids : List ℕ)
      → Paced (idle_now fl lim (emptied fl lim p left ids))
  emptied-Paced p left [] = ground arith
  emptied-Paced p left (_ ∷ _) = ground arith

  cancel_all-Paced : (p : Player fl lim) (left : ℕ) → Paced (cancel_all fl lim p left)
  unfolding cancel_all
  cancel_all-Paced p left = emptied-Paced p left _

  tell_cancelled-Paced :
      (p : Player fl lim) (ids : List ℕ) (left : ℕ)
      → Paced p
      → Paced (tell_cancelled fl lim p ids left)
  tell_cancelled-Paced p [] left h = h
  tell_cancelled-Paced p (_ ∷ _) left h = h

  protect-Paced :
      (p : Player fl lim) (left : ℕ) (c : Option (Active fl lim))
      → Paced p
      → Paced (protect fl lim p left c)
  protect-Paced p left none h = h
  protect-Paced p left (some a) h = ground arith

  cancel_queue-Paced :
      (p : Player fl lim) (left queued : ℕ) → Paced p → Paced (cancel_queue fl lim p left queued)
  unfolding cancel_queue
  cancel_queue-Paced p left queued h =
      tell_cancelled-Paced (record (protect fl lim p left p.current) { queue = [] }) _ queued
        (protect-Paced p left p.current h)

  rest : Rest fl lim cfg Paced
  rest = record {
    unprotects = λ p h. h;
    reports = report_idle-Paced;
    drops = λ p left h. cancel_all-Paced p left;
    spares = cancel_queue-Paced;
  }

  handle-Paced : (p : Player fl lim) (w : Wake fl lim) → Paced p → Paced (handle fl lim p w)
  handle-Paced p (cmd (enqueue i)) h = h
  handle-Paced p (cmd cancel_now) h = cancel-keep fl lim cfg Paced parts rest p none h
  handle-Paced p (cmd (cancel_soft ms)) h = cancel-keep fl lim cfg Paced parts rest p (some ms) h
  handle-Paced p data_ready h = h
  handle-Paced p tick h = ground arith

  pub turned-Paced :
      (clock : ℕ → ℕ) (p : Player fl lim) (w : Wake fl lim)
      → Paced p
      → Paced (turn fl lim cfg clock p w)
  unfolding turn
  turned-Paced clock p w h =
      turn-keep fl lim cfg Paced parts rest clock (handle fl lim p w) (handle-Paced p w h)

  -- Whenever the task waits, it has sent no more frames ahead of real time than its lead, and if it has
  -- reported that it is idle then none is on its way.
  pub Waits-Paced : {asked : List ℕ} (p : Player fl lim) → Waits fl lim cfg asked p → Paced p
  unfolding new deliver
  Waits-Paced p spawned = ground arith
  Waits-Paced p (woken {p = q} clock w h c) = turned-Paced clock q w (Waits-Paced q h)
  Waits-Paced p (reached {p = q} id d h) = Waits-Paced q h
