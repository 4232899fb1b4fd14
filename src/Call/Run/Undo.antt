-- ===== src/Call/Run/Undo.antt =====
-- "Go back" in crates/callora-core/src/state.rs: what `undo` restores after changes of a run.
use callora.Base.{
  ℕ, zero, suc, none, some, List, [], ◌∷◌, String, eq_iff, lookup, insert, remove, lookup-insert,
  lookup-remove, ◌≡◌, refl, sym, subst, ap, ◌∙◌, ◌-◌, ◌+◌, arith, ◌⊎◌, inl, inr, Option-cases,
  length,
}
use callora.Call.Run.{PipelineRun, SlotState, JournalEntry, set, clear, restore, undo_from, undo}

-- The same slots with the same values, key by key.
abbrev pub SameSlots : PipelineRun → PipelineRun → Type 0
SameSlots r q = (k : String) → lookup k r.slots ≡ lookup k q.slots

-- A change of a slot: a new value, or none.
pub data Change : Type 0 where
  sets : String → SlotState → Change
  clears : String → Change

unfoldable pub change : PipelineRun → Change → PipelineRun
change r (sets slot s) = set r slot s
change r (clears slot) = clear r slot

unfoldable pub changes : PipelineRun → List Change → PipelineRun
changes r [] = r
changes r (c ∷ cs) = changes (change r c) cs

unfoldable pub undo_times : ℕ → PipelineRun → PipelineRun
undo_times zero r = r
undo_times (suc n) r = undo_times n (undo r).0

-- The same slots and the same journal.
pub record SameRun (r q : PipelineRun) : Type 0 where
  pub slots : SameSlots r q
  pub journal : r.journal ≡ q.journal

restore_same :
    (e : JournalEntry) (m n : List (String × SlotState))
    → ((k : String) → lookup k m ≡ lookup k n)
    → (k : String) → lookup k (restore e m) ≡ lookup k (restore e n)
restore_same e m n h k = elim (Option-cases e.previous) [
  | inl p ↦ rw (p, restore) (lookup-remove e.slot k m ∙ (rw (h k) (sym (lookup-remove e.slot k n))))
  | inr (v, p) ↦
      rw (p, restore) (lookup-insert e.slot k v m ∙ (rw (h k) (sym (lookup-insert e.slot k v n))))
]

undo_from-SameRun :
    (js : List JournalEntry) (r q : PipelineRun)
    → SameRun r q
    → SameRun (undo_from js r).0 (undo_from js q).0
unfolding undo_from
undo_from-SameRun [] r q h = h
undo_from-SameRun (e ∷ js) r q h = record {
  slots = restore_same e r.slots q.slots h.slots;
  journal = refl;
}

undo-SameRun : (r q : PipelineRun) → SameRun r q → SameRun (undo r).0 (undo q).0
unfolding undo
undo-SameRun r q h =
    subst (λ js. SameRun (undo_from r.journal r).0 (undo_from js q).0) h.journal
      (undo_from-SameRun r.journal r q h)

module _ (r : PipelineRun) (slot : String) where
  -- What stood in the slot before a new value comes back.
  undo-set : (s : SlotState) → SameRun (undo (set r slot s)).0 r
  unfolding undo set undo_from
  undo-set s = record {
    slots = λ k. elim (Option-cases (lookup slot r.slots)) [
      | inl e ↦
          rw (e, restore)
            (ground (
              arith,
              eq_iff slot k,
              lookup-remove slot k (insert slot s r.slots),
              lookup-insert slot k s r.slots,
            ))
      | inr (p, e) ↦
          rw (e, restore)
            (ground (
              arith,
              eq_iff slot k,
              lookup-insert slot k p (insert slot s r.slots),
              lookup-insert slot k s r.slots,
            ))
    ];
    journal = refl;
  }

  clear-missing : lookup slot r.slots ≡ none → clear r slot ≡ r
  unfolding clear
  clear-missing e = rw (e, clear)

  undo-clear :
      (p : SlotState)
      → lookup slot r.slots ≡ some p
      → SameRun (undo (clear r slot)).0 r × (length (clear r slot).journal ≡ suc (length r.journal))
  unfolding undo clear undo_from
  undo-clear p e =
      rw (e, clear)
        (
          record {
            slots = λ k. ground (
              arith,
              eq_iff slot k,
              lookup-insert slot k p (remove slot r.slots),
              lookup-remove slot k r.slots,
            );
            journal = refl;
          },
          refl,
        )

-- A change adds one entry that `undo` takes back, or changes nothing.
change-undo :
    (r : PipelineRun) (c : Change)
    → (change r c ≡ r)
      ⊎ (SameRun (undo (change r c)).0 r × (length (change r c).journal ≡ suc (length r.journal)))
unfolding change
change-undo r (sets slot s) = inr (undo-set r slot s, unfold set in refl)
change-undo r (clears slot) = elim (Option-cases (lookup slot r.slots)) [
  | inl e ↦ inl (clear-missing r slot e)
  | inr (p, e) ↦ inr (undo-clear r slot p e)
]

undo_times-suc : (n : ℕ) (r : PipelineRun) → undo_times (suc n) r ≡ (undo (undo_times n r)).0
unfolding undo_times
undo_times-suc zero r = refl
undo_times-suc (suc n) r = undo_times-suc n (undo r).0

SameRun-trans : (a b c : PipelineRun) → SameRun a b → SameRun b c → SameRun a c
SameRun-trans a b c h g = record {
  slots = λ k. h.slots k ∙ g.slots k;
  journal = h.journal ∙ g.journal;
}

-- How many entries the changes add to the journal.
unfoldable pub added : PipelineRun → List Change → ℕ
added r [] = 0
added r (c ∷ cs) = (length (change r c).journal - length r.journal) + added (change r c) cs

undone_first :
    (r : PipelineRun) (c : Change) (cs : List Change)
    → SameRun (undo_times (added (change r c) cs) (changes (change r c) cs)) (change r c)
    → SameRun (undo_times (added r (c ∷ cs)) (changes r (c ∷ cs))) r
unfolding changes added
undone_first r c cs ih = elim (change-undo r c) [
  | inl e ↦
      let count : length r'.journal - length r.journal + added r' cs ≡ added r' cs =
        omega (arith, ap (λ q. length q.journal) e) in
      rw count (subst (SameRun (undo_times (added r' cs) (changes r' cs))) e ih)
  | inr (h, n) ↦
      let count : length r'.journal - length r.journal + added r' cs ≡ suc (added r' cs) =
        omega arith in
      rw (count, undo_times-suc (added r' cs) (changes r' cs))
        (SameRun-trans _ _ r (undo-SameRun _ r' ih) h)
]
  where
    r' : PipelineRun
    r' = change r c

-- As many undos as the changes added entries to the journal give every slot the state, and the
-- journal the entries, that they had before the changes.
pub undo_times-changes :
    (r : PipelineRun) (cs : List Change) → SameRun (undo_times (added r cs) (changes r cs)) r
undo_times-changes r [] =
    unfold undo_times added changes in record { slots = λ k. refl; journal = refl }
undo_times-changes r (c ∷ cs) = undone_first r c cs (undo_times-changes (change r c) cs)
