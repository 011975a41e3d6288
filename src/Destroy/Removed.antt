-- ===== src/Destroy/Removed.antt =====
-- `Destroy` of src/domain/manager.go: what it leaves in the state store.
use previewctl.Engine.{step_started}
use previewctl.Destroy.{step_started}
