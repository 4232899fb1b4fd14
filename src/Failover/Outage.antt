-- ===== src/Failover/Outage.antt =====
-- crates/callora-providers/src/stt_failover.rs: the events that show an outage, read without a counter.
use callora.Base.{◌⊎◌, ◌≡◌, true, List, [], ◌∷◌, map}
use callora.Failover.{SttEvent, partial, unsure, final, error, closed, is_outage, Heard}

-- An error comes before any final transcript.
abbrev pub ErrorFirst : List SttEvent → Type 0
ErrorFirst [] = ⊥
ErrorFirst (error _ ∷ es) = Unit
ErrorFirst (final _ ∷ es) = ⊥
ErrorFirst (partial _ ∷ es) = ErrorFirst es
ErrorFirst (unsure _ ∷ es) = ErrorFirst es
ErrorFirst (closed ∷ es) = ErrorFirst es

-- Some error says that the service cannot serve, or is followed by another with no final transcript between.
abbrev pub Fails : List SttEvent → Type 0
Fails [] = ⊥
Fails (error e ∷ es) = (is_outage e ≡ true) ⊎ (ErrorFirst es ⊎ Fails es)
Fails (final _ ∷ es) = Fails es
Fails (partial _ ∷ es) = Fails es
Fails (unsure _ ∷ es) = Fails es
Fails (closed ∷ es) = Fails es

abbrev pub events : List Heard → List SttEvent
events = map (λ h. h.event)
