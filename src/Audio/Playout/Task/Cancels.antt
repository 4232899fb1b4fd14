-- ===== src/Audio/Playout/Task/Cancels.antt =====
-- crates/callora-audio/src/playout.rs: what the caller hears after everything was cancelled.
use callora.Base.{
  ℕ, Bool, true, false, Option, none, some, List, [], ◌∷◌, ◌++◌, is_some, ◌≡◌, refl, ap, arith, not,
  ◌&&◌, all,
}
use callora.Audio.Floats.{Floats}
use callora.Audio.Playout.{Limiting, PlayItem, PlayoutConfig, Active}
use callora.Audio.Playout.Loop.{
  Player, OutFrame, audio, clear, at, report_idle, has_none, cancel, cancel_all, cancel_queue,
  measured, idle_now, emptied,
}
use callora.Audio.Playout.Kept.{Parts, Rest, turn-keep, cancel-keep}
use callora.Audio.Playout.Task.{
  Wake, cmd, enqueue, cancel_now, cancel_soft, data_ready, tick, handle, turn, current_data,
}

-- The frames of audio that were sent.
abbrev pub heard : List OutFrame → List (List ℕ)
heard [] = []
heard (audio f ∷ fs) = f ∷ heard fs
heard (clear ∷ fs) = heard fs

heard-append_clear : (fs : List OutFrame) → heard (fs ++ clear ∷ []) ≡ heard fs
heard-append_clear [] = refl
heard-append_clear (audio f ∷ fs) = ap (◌∷◌ f) (heard-append_clear fs)
heard-append_clear (clear ∷ fs) = heard-append_clear fs

module _ (fl : Floats) (lim : Limiting fl) where
  abbrev pub asks_nothing : Wake fl lim → Bool
  asks_nothing (cmd (enqueue _)) = false
  asks_nothing _ = true

  -- Turns, each with its readings of the clock.
  abbrev pub turns :
      PlayoutConfig fl lim → Player fl lim → List ((ℕ → ℕ) × Wake fl lim) → Player fl lim
  turns cfg p [] = p
  turns cfg p ((clock, w) ∷ ws) = turns cfg (turn fl lim cfg clock p w) ws

  abbrev pub quiet : Player fl lim → Bool
  quiet p = not (is_some p.current) && has_none fl lim p.queue

  module _ (cfg : PlayoutConfig fl lim) (fs : List (List ℕ)) where
    abbrev Silent : Player fl lim → Type 0
    Silent p = (quiet p ≡ true) × (heard p.out ≡ fs)

    parts : Parts fl lim cfg Silent
    parts = record {
      ends = λ p a h. absurd (ground (arith, h.0));
      begins = λ p item items h. absurd (ground (arith, h.0));
      moves = λ p a b e h. absurd (ground (arith, h.0));
      sends = λ p a b now f l e h. absurd (ground (arith, h.0));
    }

    report_idle-Silent : (p : Player fl lim) → Silent p → Silent (report_idle fl lim p)
    report_idle-Silent p h = ground arith

    emptied-Silent :
        (p : Player fl lim) (left : ℕ) (ids : List ℕ)
        → heard p.out ≡ fs
        → Silent (idle_now fl lim (emptied fl lim p left ids))
    emptied-Silent p left [] h = ground (arith, heard-append_clear p.out)
    emptied-Silent p left (i ∷ ids) h = ground (arith, heard-append_clear p.out)

    cancel_all-Silent :
        (p : Player fl lim) (left : ℕ) → heard p.out ≡ fs → Silent (cancel_all fl lim p left)
    unfolding cancel_all
    cancel_all-Silent p left h = emptied-Silent p left _ h

    spared-Silent :
        (p : Player fl lim) (c : Option (Active fl lim)) (q : List (PlayItem fl lim))
        (left queued : ℕ)
        → Silent (record p { current = c; queue = q })
        → Silent (cancel_queue fl lim (record p { current = c; queue = q }) left queued)
    unfolding cancel_queue
    spared-Silent p none [] left queued h = h
    spared-Silent p none (_ ∷ _) left queued h = absurd (ground (arith, h.0))
    spared-Silent p (some a) q left queued h = absurd (ground (arith, h.0))

    rest : Rest fl lim cfg Silent
    rest = record {
      unprotects = λ p h. h;
      reports = report_idle-Silent;
      drops = λ p left h. cancel_all-Silent p left h.1;
      spares = λ p left queued h. spared-Silent p p.current p.queue left queued h;
    }

    data_ready-Silent :
        (p : Player fl lim) (c : Option (Active fl lim))
        → Silent (at fl lim p c)
        → Silent (at fl lim p (current_data fl lim c))
    data_ready-Silent p none h = h
    data_ready-Silent p (some a) h = absurd (ground (arith, h.0))

    handle-Silent :
        (p : Player fl lim) (w : Wake fl lim)
        → asks_nothing w ≡ true
        → Silent p
        → Silent (handle fl lim p w)
    handle-Silent p (cmd (enqueue _)) a h = absurd (ground arith)
    handle-Silent p (cmd cancel_now) a h = cancel-keep fl lim cfg Silent parts rest p none h
    handle-Silent p (cmd (cancel_soft ms)) a h =
        cancel-keep fl lim cfg Silent parts rest p (some ms) h
    handle-Silent p data_ready a h = data_ready-Silent p p.current h
    handle-Silent p tick a h = h

    turn-Silent :
        (clock : ℕ → ℕ) (p : Player fl lim) (w : Wake fl lim)
        → Silent (handle fl lim p w)
        → Silent (turn fl lim cfg clock p w)
    unfolding turn
    turn-Silent clock p w h = turn-keep fl lim cfg Silent parts rest clock (handle fl lim p w) h

    turns-Silent :
        (ws : List ((ℕ → ℕ) × Wake fl lim)) (p : Player fl lim)
        → all (λ w. asks_nothing w.1) ws ≡ true
        → Silent p
        → Silent (turns cfg p ws)
    turns-Silent [] p a h = h
    turns-Silent ((clock, w) ∷ ws) p a h =
        turns-Silent ws (turn fl lim cfg clock p w) (ground arith)
          (turn-Silent clock p w (handle-Silent p w (ground arith) h))

  hard-Silent :
      (cfg : PlayoutConfig fl lim) (p : Player fl lim)
      → Silent cfg (heard p.out) (cancel fl lim p none)
  unfolding cancel
  hard-Silent cfg p =
      cancel_all-Silent cfg (heard p.out) (at fl lim p (measured fl lim p.current).0) _ refl

  -- After a cancel no audio is sent until an item is enqueued again.
  pub cancel-turns :
      (cfg : PlayoutConfig fl lim) (clock : ℕ → ℕ) (ws : List ((ℕ → ℕ) × Wake fl lim))
      (p : Player fl lim)
      → all (λ w. asks_nothing w.1) ws ≡ true
      → heard (turns cfg (turn fl lim cfg clock p (cmd cancel_now)) ws).out ≡ heard p.out
  cancel-turns cfg clock ws p a =
      (turns-Silent cfg (heard p.out) ws (turn fl lim cfg clock p (cmd cancel_now)) a
        (turn-Silent cfg (heard p.out) clock p (cmd cancel_now) (hard-Silent cfg p))).1
