-- ===== src/Audio/Playout/Task/Ledger.antt =====
-- crates/callora-audio/src/playout.rs: what becomes of the items that `run` is asked to play.
use callora.Base.{
  ℕ, ◌+◌, ◌-◌, ◌/◌, Bool, Option, none, some, List, [], ◌∷◌, ◌++◌, if◌then◌else◌, ◌≡◌, refl, sym,
  ◌∙◌, ap, arith, not, ◌==◌, map, append_assoc,
}
use callora.Audio.Floats.{Floats}
use callora.Audio.Playout.{
  Limiting, PlayItem, PlayoutConfig, Active, done, Source, clip, stream, Chunk, bytes, error,
}
use callora.Audio.Playout.Loop.{
  Player, PlayoutEvent, gap_since, first_frame, ms, next_item, started, finished, idle, cancelled,
  protected, gap, new, send, finish, at, burst, settle, report_idle, cancel, cancel_all,
  cancel_queue, idle_now, emptied, tell_cancelled, protect, current_ids, queue_ids,
}
use callora.Audio.Playout
use callora.Audio.Playout.Burst.{send_ahead}
use callora.Audio.Playout.Kept.{Parts, Rest, turn-keep, cancel-keep}
use callora.Audio.Playout.Task.{
  Waits, spawned, woken, reached, Wake, cmd, enqueue, cancel_now, cancel_soft, data_ready, tick,
  handle, turn, deliver, asked_by, deliver_item, deliver_current, wait_for_data, receive,
  receive_of, current_data, Delivery,
}

abbrev pub times : ℕ → List ℕ → ℕ
times id [] = 0
times id (x ∷ xs) = (if x == id then 1 else 0) + times id xs

times-append : (id : ℕ) (xs ys : List ℕ) → times id (xs ++ ys) ≡ times id xs + times id ys
times-append id [] ys = omega arith
times-append id (x ∷ xs) ys = omega (arith, times-append id xs ys)

-- The items that an event says are over.
abbrev pub over : List PlayoutEvent → List ℕ
over [] = []
over (finished id ∷ es) = id ∷ over es
over (cancelled ids _ ∷ es) = ids ++ over es
over (_ ∷ es) = over es

over-append : (xs ys : List PlayoutEvent) → over (xs ++ ys) ≡ over xs ++ over ys
over-append [] ys = refl
over-append (finished id ∷ es) ys = ap (◌∷◌ id) (over-append es ys)
over-append (cancelled ids n ∷ es) ys =
    rw (over-append es ys) (sym (append_assoc ids (over es) (over ys)))
over-append (started _ _ ∷ es) ys = over-append es ys
over-append (idle ∷ es) ys = over-append es ys
over-append (protected _ _ ∷ es) ys = over-append es ys
over-append (gap _ _ _ ∷ es) ys = over-append es ys

module _ (fl : Floats) (lim : Limiting fl) (id : ℕ) where
  -- How often an item is over, being played or queued.
  abbrev pub accounted : Player fl lim → ℕ
  accounted p =
      times id (over p.events)
      + times id (current_ids fl lim p.current)
      + times id (queue_ids fl lim p.queue)

  tell-times :
      (es : List PlayoutEvent) (e : PlayoutEvent)
      → times id (over (es ++ e ∷ [])) ≡ times id (over es) + times id (over (e ∷ []))
  tell-times es e =
      ap (times id) (over-append es (e ∷ [])) ∙ times-append id (over es) (over (e ∷ []))

  times-gap_since :
      (p : Player fl lim) (a : Active fl lim) (now : ℕ) (o : Option ℕ)
      → times id (over (gap_since fl lim p a now o).events) ≡ times id (over p.events)
  times-gap_since p a now none = refl
  times-gap_since p a now (some end) =
      ground (arith, tell-times p.events (gap a.id ((now - end) / ms) (not a.started)))

  times-first_frame :
      (p : Player fl lim) (a : Active fl lim) (now : ℕ)
      → times id (over (first_frame fl lim p a now).events) ≡ times id (over p.events)
  times-first_frame p a now = ground (arith, tell-times p.events (started a.id now))

  times-send :
      (p : Player fl lim) (a : Active fl lim) (now : ℕ) (f : List ℕ)
      → times id (over (send fl lim p a now f).events) ≡ times id (over p.events)
  unfolding send
  times-send p a now f =
      times-first_frame (gap_since fl lim p a now p.play_end) a now
      ∙ times-gap_since p a now p.play_end

  report_idle-accounted : (p : Player fl lim) → accounted (report_idle fl lim p) ≡ accounted p
  report_idle-accounted p = ground (arith, tell-times p.events idle)

  idle_now-accounted : (p : Player fl lim) → accounted (idle_now fl lim p) ≡ accounted p
  idle_now-accounted p = ground (arith, tell-times p.events idle)

  protect-accounted :
      (p : Player fl lim) (left : ℕ) (c : Option (Active fl lim))
      → accounted (protect fl lim p left c) ≡ accounted p
  protect-accounted p left none = refl
  protect-accounted p left (some a) = ground (arith, tell-times p.events (protected a.id left))

  tell_cancelled-times :
      (p : Player fl lim) (ids : List ℕ) (left : ℕ)
      → accounted (tell_cancelled fl lim p ids left) ≡ accounted p + times id ids
  tell_cancelled-times p [] left = omega arith
  tell_cancelled-times p (i ∷ ids) left =
      omega (arith, tell-times p.events (cancelled (i ∷ ids) left), times-append id (i ∷ ids) [])

  emptied-accounted :
      (p : Player fl lim) (left : ℕ) (ids : List ℕ)
      → accounted (emptied fl lim p left ids) ≡ times id (over p.events) + times id ids
  emptied-accounted p left [] = omega arith
  emptied-accounted p left (i ∷ ids) =
      omega (arith, tell-times p.events (cancelled (i ∷ ids) left), times-append id (i ∷ ids) [])

  protect-queue :
      (p : Player fl lim) (left : ℕ) (c : Option (Active fl lim))
      → times id (queue_ids fl lim (protect fl lim p left c).queue)
        ≡ times id (queue_ids fl lim p.queue)
  protect-queue p left none = refl
  protect-queue p left (some a) = ground arith

  module _ (n : ℕ) (cfg : PlayoutConfig fl lim) where
    abbrev Accounted : Player fl lim → Type 0
    Accounted p = accounted p ≡ n

    send-Accounted :
        (p : Player fl lim) (a b : Active fl lim) (now : ℕ) (f : List ℕ)
        → b.id ≡ a.id
        → Accounted (at fl lim p (some a))
        → Accounted (send fl lim p b now f)
    unfolding send
    send-Accounted p a b now f e h = omega (
      arith,
      times-send p b now f,
      ap (λ q. times id (queue_ids fl lim q)) (send_ahead fl lim cfg (λ n. now) p b now f).1,
      ap (λ i. times id (i ∷ [])) e,
      h,
    )

    finish-Accounted :
        (p : Player fl lim) (a : Active fl lim)
        → Accounted (at fl lim p (some a))
        → Accounted (finish fl lim p (some a))
    finish-Accounted p a h = ground (arith, tell-times p.events (finished a.id))

    begins-Accounted :
        (p : Player fl lim) (item : PlayItem fl lim) (items : List (PlayItem fl lim))
        → Accounted (record p { queue = item ∷ items; current = none })
        → Accounted (next_item fl lim cfg p (item ∷ items))
    unfolding Playout.new
    begins-Accounted p item items h = omega (arith, h)

    parts : Parts fl lim cfg Accounted
    parts = record {
      ends = finish-Accounted;
      begins = begins-Accounted;
      moves = λ p a b e h. rw e h;
      sends = λ p a b now f l e h. send-Accounted p a b now f e h;
    }

    cancel_all-Accounted :
        (p : Player fl lim) (left : ℕ) → Accounted p → Accounted (cancel_all fl lim p left)
    unfolding cancel_all
    cancel_all-Accounted p left h =
        let ids = current_ids fl lim p.current ++ queue_ids fl lim p.queue in
        omega (
          arith,
          idle_now-accounted (emptied fl lim p left ids),
          emptied-accounted p left ids,
          times-append id (current_ids fl lim p.current) (queue_ids fl lim p.queue),
          h,
        )

    cancel_queue-Accounted :
        (p : Player fl lim) (left queued : ℕ)
        → Accounted p
        → Accounted (cancel_queue fl lim p left queued)
    unfolding cancel_queue
    cancel_queue-Accounted p left queued h =
        let q = protect fl lim p left p.current in
        omega (
          arith,
          tell_cancelled-times (record q { queue = [] }) (queue_ids fl lim p.queue) queued,
          protect-accounted p left p.current,
          protect-queue p left p.current,
          h,
        )

    rest : Rest fl lim cfg Accounted
    rest = record {
      unprotects = λ p h. h;
      reports = λ p h. report_idle-accounted p ∙ h;
      drops = cancel_all-Accounted;
      spares = cancel_queue-Accounted;
    }

    cancel-Accounted :
        (p : Player fl lim) (soft : Option ℕ) → Accounted p → Accounted (cancel fl lim p soft)
    cancel-Accounted = cancel-keep fl lim cfg Accounted parts rest

    turn-Accounted :
        (clock : ℕ → ℕ) (p : Player fl lim)
        → Accounted p
        → Accounted (settle fl lim (burst fl lim cfg clock p))
    turn-Accounted = turn-keep fl lim cfg Accounted parts rest

  queue_ids-append :
      (q : List (PlayItem fl lim)) (i : PlayItem fl lim)
      → times id (queue_ids fl lim (q ++ i ∷ []))
        ≡ times id (queue_ids fl lim q) + times id (i.id ∷ [])
  queue_ids-append [] i = omega arith
  queue_ids-append (x ∷ q) i = omega (arith, queue_ids-append q i)

  receive_id :
      (a : Active fl lim) (closed : Bool) (cs : List Chunk) → (receive fl lim a closed cs).id ≡ a.id
  receive_id a closed [] = refl
  receive_id a closed (bytes b ∷ cs) = refl
  receive_id a closed (error ∷ cs) = refl

  receive_of_id : (a : Active fl lim) (s : Source) → (receive_of fl lim a s).id ≡ a.id
  receive_of_id a (clip c) = refl
  receive_of_id a (stream ch) = ground (arith, receive_id a ch.closed ch.inbox)

  current_data-ids :
      (c : Option (Active fl lim))
      → current_ids fl lim (current_data fl lim c) ≡ current_ids fl lim c
  unfolding wait_for_data
  current_data-ids none = refl
  current_data-ids (some a) = ap (λ i. i ∷ []) (receive_of_id a a.source)

  handle-accounted :
      (cfg : PlayoutConfig fl lim) (p : Player fl lim) (w : Wake fl lim)
      → accounted (handle fl lim p w) ≡ accounted p + times id (asked_by fl lim w)
  handle-accounted cfg p (cmd (enqueue i)) = omega (arith, queue_ids-append p.queue i)
  handle-accounted cfg p (cmd cancel_now) =
      omega (arith, cancel-Accounted (accounted p) cfg p none refl)
  handle-accounted cfg p (cmd (cancel_soft ms)) =
      omega (arith, cancel-Accounted (accounted p) cfg p (some ms) refl)
  handle-accounted cfg p data_ready = omega (arith, ap (times id) (current_data-ids p.current))
  handle-accounted cfg p tick = omega arith

  deliver_item_id :
      (k : ℕ) (d : Delivery) (i : PlayItem fl lim) → (deliver_item fl lim k d i).id ≡ i.id
  deliver_item_id k d i = ground arith

  deliver-queue :
      (k : ℕ) (d : Delivery) (q : List (PlayItem fl lim))
      → times id (queue_ids fl lim (map (deliver_item fl lim k d) q))
        ≡ times id (queue_ids fl lim q)
  deliver-queue k d [] = refl
  deliver-queue k d (i ∷ q) =
      omega (arith, deliver-queue k d q, ap (λ i. times id (i ∷ [])) (deliver_item_id k d i))

  deliver-current :
      (k : ℕ) (d : Delivery) (c : Option (Active fl lim))
      → times id (current_ids fl lim (deliver_current fl lim k d c))
        ≡ times id (current_ids fl lim c)
  deliver-current k d none = refl
  deliver-current k d (some a) = ground arith

  -- Every item is, as often as it was enqueued, either over, being played or queued: nothing is lost, and
  -- nothing is reported twice.
  pub Waits-accounted :
      (cfg : PlayoutConfig fl lim) {asked : List ℕ} (p : Player fl lim)
      → Waits fl lim cfg asked p
      → accounted p ≡ times id asked
  unfolding turn new deliver
  Waits-accounted cfg p spawned = refl
  Waits-accounted cfg p (woken {asked = asked} {p = q} clock w h c) =
      turn-Accounted (accounted q + times id (asked_by fl lim w)) cfg clock (handle fl lim q w)
        (handle-accounted cfg q w)
      ∙ omega (arith, Waits-accounted cfg q h, times-append id asked (asked_by fl lim w))
  Waits-accounted cfg p (reached {p = q} k d h) =
      omega
        (arith, deliver-queue k d q.queue, deliver-current k d q.current, Waits-accounted cfg q h)
