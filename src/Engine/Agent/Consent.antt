-- ===== src/Engine/Agent/Consent.antt =====
-- crates/callora-core/src/engine.rs: a read-back or a submission of the model sends nothing without the caller's yes.
use callora.Base.{Bool, true, Option, none, some, ◌≡◌, is_some}
use callora.Call.Run.{PipelineRun}
use callora.Engine.Out.{Out}
use callora.Engine.State.{Engine}
use callora.Engine.Env.{Env}
use callora.Engine.Say.{pipeline_of}
use callora.Engine.Flow
use callora.Engine.Frame.{Keeps}
use callora.Engine.Agent.{Hearing}
use callora.Engine.Agent.Choice.{Choice}

-- Whether the current task, if there is one, is one that is read back.
abbrev pub is_read_aloud : Engine → Option PipelineRun → Bool
is_read_aloud e none = true
is_read_aloud e (some run) = is_some (pipeline_of e run).confirm

abbrev HasConfirm : Engine → Type 0
HasConfirm e = is_read_aloud e e.state.run ≡ true

module _ (w : Env) (h : Hearing) where
  abbrev Quiet : Engine → Out → Engine × Out → Type 0
  Quiet e o r = Keeps e r.0 × (r.1.directives ≡ o.directives)
