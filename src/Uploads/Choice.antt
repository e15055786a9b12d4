-- ===== src/Uploads/Choice.antt =====
-- Which image scheduleUploads of internal/scheduler/upload.go takes from a camera.
use aviationwx_org_bridge.Files.Bytes.{Bytes}
use aviationwx_org_bridge.Files.Entry.{Entry}
use aviationwx_org_bridge.Queue.Types.{Queue}
use aviationwx_org_bridge.Queue.Consistent.{Consistent}
