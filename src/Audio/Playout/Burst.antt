-- ===== src/Audio/Playout/Burst.antt =====
-- crates/callora-audio/src/playout.rs: the inner loop of `run` ends, and what it keeps.
use callora.Base.{
  ℕ, zero, suc, ◌+◌, ◌-◌, ◌*◌, ◌<◌, ◌≤◌, true, false, Option, none, some, List, [], ◌∷◌, length,
  leb, ◌≡◌, refl, sym, ap, subst, ◌⊎◌, ◌∙◌, arith, Bool-cases, Option-cases, inl, inr,
}
use mathlib.Core.Option.{some-injective}
use callora.Audio.Floats.{Floats}
use callora.Audio.Playout.{Limiting, PlayItem, PlayoutConfig, Active, done, next_frame}
use callora.Audio.Playout.Loop.{
  Player, Round, again, leave, round, rounds, begin, play, framed, send, next_item, finish, at,
  pending_item, work, burst, or_same,
}

module _ (fl : Floats) (lim : Limiting fl) (cfg : PlayoutConfig fl lim) (clock : ℕ → ℕ) where
  -- Another round has less to do.
  abbrev Less : ℕ → Round fl lim → Type 0
  Less w (again q) = work fl lim cfg q < w
  Less w (leave q) = Unit

  pending-le : (c : Option (Active fl lim)) → pending_item fl lim c ≤ 1
  pending-le none = omega arith
  pending-le (some a) = ground arith

  pub send_ahead :
      (p : Player fl lim) (a : Active fl lim) (now : ℕ) (f : List ℕ)
      → ((send fl lim p a now f).ahead ≡ suc p.ahead) × ((send fl lim p a now f).queue ≡ p.queue)
  unfolding send
  send_ahead p a now f = elim (Option-cases p.play_end) [
    | inl e ↦ rw e (ground arith)
    | inr (end, e) ↦ rw e (ground arith)
  ]

  framed-Less :
      (p : Player fl lim) (a : Active fl lim) (f : Option (List ℕ)) (w : ℕ)
      → p.ahead < cfg.lead_frames
      → (cfg.lead_frames - p.ahead) + 2 * length p.queue + 1 ≤ w
      → Less w (framed fl lim clock p a f)
  framed-Less p a none w h k = ground arith
  framed-Less p a (some f) w h k =
      let q = send fl lim p a (clock p.ahead) f in
      let (s, t) = send_ahead p a (clock p.ahead) f in
      omega (arith, s, ap (length {A = PlayItem fl lim}) t, pending-le q.current)

  play-Less :
      (p : Player fl lim) (c : Option (Active fl lim)) (w : ℕ)
      → p.ahead < cfg.lead_frames
      → (cfg.lead_frames - p.ahead) + 2 * length p.queue + 1 ≤ w
      → Less w (play fl lim clock p c)
  play-Less p none w h k = tt
  play-Less p (some a) w h k = framed-Less p (next_frame fl lim a).0 (next_frame fl lim a).1 w h k

  item-Less :
      (p : Player fl lim) (items : List (PlayItem fl lim)) (w : ℕ)
      → p.ahead < cfg.lead_frames
      → p.current ≡ none
      → (cfg.lead_frames - p.ahead) + 2 * length items ≤ w
      → Less w
          (play fl lim clock (next_item fl lim cfg p items) (next_item fl lim cfg p items).current)
  item-Less p [] w h e k = rw e tt
  item-Less p (item ∷ items) w h e k =
      let q = next_item fl lim cfg p (item ∷ items) in play-Less q q.current w h (omega arith)

  current-Less :
      (p : Player fl lim) (c : Option (Active fl lim))
      → p.ahead < cfg.lead_frames
      → Less (work fl lim cfg (at fl lim p c)) (round fl lim cfg clock (at fl lim p c))
  unfolding begin round
  current-Less p none h = item-Less (at fl lim p none) p.queue _ h refl (omega arith)
  current-Less p (some a) h = elim (Bool-cases (done fl lim a)) [
    | inl d ↦
        rw d
          (item-Less (finish fl lim (at fl lim p (some a)) (some a)) p.queue _ h refl (omega arith))
    | inr d ↦ rw d (play-Less (at fl lim p (some a)) (some a) _ h (ground arith))
  ]

  round-Less :
      (p : Player fl lim)
      → p.ahead < cfg.lead_frames
      → Less (work fl lim cfg p) (round fl lim cfg clock p)
  round-Less p h = current-Less p p.current h

  abbrev Agree : ℕ → ℕ → Player fl lim → Type 0
  Agree n m p =
      (q : Player fl lim) × (rounds fl lim cfg clock n p ≡ some q)
      × (rounds fl lim cfg clock m p ≡ some q)

  Round-cases :
      (r : Round fl lim)
      → ((q : Player fl lim) × (r ≡ again q)) ⊎ ((q : Player fl lim) × (r ≡ leave q))
  Round-cases (again q) = inl (q, refl)
  Round-cases (leave q) = inr (q, refl)

  stops :
      (n : ℕ) (p : Player fl lim)
      → leb cfg.lead_frames p.ahead ≡ true
      → rounds fl lim cfg clock (suc n) p ≡ some p
  unfolding rounds
  stops n p l = rw (rounds, l) refl

  goes_on :
      (n : ℕ) (p q : Player fl lim)
      → leb cfg.lead_frames p.ahead ≡ false
      → round fl lim cfg clock p ≡ again q
      → rounds fl lim cfg clock (suc n) p ≡ rounds fl lim cfg clock n q
  unfolding rounds
  goes_on n p q l e = rw (rounds, l, e) refl

  is_left :
      (n : ℕ) (p q : Player fl lim)
      → leb cfg.lead_frames p.ahead ≡ false
      → round fl lim cfg clock p ≡ leave q
      → rounds fl lim cfg clock (suc n) p ≡ some q
  unfolding rounds
  is_left n p q l e = rw (rounds, l, e) refl

  agree :
      (n m : ℕ) (p : Player fl lim) → work fl lim cfg p < n → work fl lim cfg p < m → Agree n m p
  agree zero m p h k = absurd (omega arith)
  agree (suc n) zero p h k = absurd (omega arith)
  agree (suc n) (suc m) p h k = elim (Bool-cases (leb cfg.lead_frames p.ahead)) [
    | inl l ↦ (p, stops n p l, stops m p l)
    | inr l ↦ elim (Round-cases (round fl lim cfg clock p)) [
      | inl (q, e) ↦
          let less = subst (Less (work fl lim cfg p)) e (round-Less p (ground arith)) in
          let (r, s, t) = agree n m q (omega (arith, less)) (omega (arith, less)) in
          (r, goes_on n p q l e ∙ s, goes_on m p q l e ∙ t)
      | inr (q, e) ↦ (q, is_left n p q l e, is_left m p q l e)
    ]
  ]

  -- The inner loop ends, with the same player whatever number of rounds above `work` it is allowed.
  pub rounds-burst :
      (p : Player fl lim) (n : ℕ)
      → work fl lim cfg p < n
      → rounds fl lim cfg clock n p ≡ some (burst fl lim cfg clock p)
  unfolding burst
  rounds-burst p n h =
      let (q, s, t) = agree n (suc (work fl lim cfg p)) p h (omega arith) in
      s ∙ ap (λ o. some (or_same fl lim p o)) (sym t)

  abbrev pub Then : (Player fl lim → Type 0) → Round fl lim → Type 0
  Then P (again q) = P q
  Then P (leave q) = P q

  module _ (P : Player fl lim → Type 0)
      (keeps : (p : Player fl lim)
        → p.ahead < cfg.lead_frames
        → P p
        → Then P (round fl lim cfg clock p)) where
    rounds-keep : (n : ℕ) (p q : Player fl lim) → P p → rounds fl lim cfg clock n p ≡ some q → P q
    unfolding rounds
    rounds-keep zero p q h e = cc
    rounds-keep (suc n) p q h e = elim (Bool-cases (leb cfg.lead_frames p.ahead)) [
      | inl l ↦ subst P (some-injective _ _ (sym (stops n p l) ∙ e)) h
      | inr l ↦ elim (Round-cases (round fl lim cfg clock p)) [
        | inl (r, s) ↦
            rounds-keep n r q (subst (Then P) s (keeps p (ground arith) h))
              (sym (goes_on n p r l s) ∙ e)
        | inr (r, s) ↦
            subst P (some-injective _ _ (sym (is_left n p r l s) ∙ e))
              (subst (Then P) s (keeps p (ground arith) h))
      ]
    ]

    -- What every round keeps, the inner loop keeps.
    pub burst-keep : (p : Player fl lim) → P p → P (burst fl lim cfg clock p)
    burst-keep p h = rounds-keep (suc (work fl lim cfg p)) p _ h (rounds-burst p _ (omega arith))
