-- ===== src/Events/Saving/Saved.antt =====
-- What a checkpoint that src/depthfusion/core/event_store.py published holds.
use depthfusion.Events.Capture.Captured.{IsDiff}
use depthfusion.Events.Paths.DiffKeys.{IsKey}
use depthfusion.Events.Capture.Kept.{IsCapturable}
use depthfusion.Events.Capture.{Host}
use depthfusion.Common.Texts.{Chars}
use depthfusion.Events.Saving.{CheckpointCall}
use depthfusion.Common.Dict.{Dict}
use depthfusion.Common.{some, ◌≡◌, String_eq, ℕ_eq, List_eq}

module _ (host : Host) where
  -- What a published checkpoint may hold of the diff of a file
  pub record IsCollected (call : CheckpointCall) (key encoded : Chars) : Type 0 where
    pub project_path : Chars
    pub given : call.project_path ≡ some project_path
    pub capturable : IsCapturable host project_path call.files_modified key
    pub canonical : IsKey key
    pub from_git : IsDiff host project_path key encoded
