-- ===== src/Console/Status.antt =====
-- getStatus of cmd/bridge/main.go, and buildHealthStatus of internal/web/server.go, which takes its answer
-- apart by type assertions.
use aviationwx_org_bridge.Prelude.{
  ℕ, ◌+◌, Bool, true, false, not, ◌&&◌, List, [], ◌∷◌, ◌++◌, Option, none, some, if◌then◌else◌,
  ◌==◌, ltb,
}
use aviationwx_org_bridge.Prelude.Int.{ℤ, pos}
use aviationwx_org_bridge.Files.Bytes.{Bytes, codes, bytes_eq}
use aviationwx_org_bridge.Config.Types.{Camera, GlobalSettings}

-- An interface{} by its dynamic type: a string, a bool, an int, an int64, a map[string]interface{}, a
-- []interface{}, or a value of another type.
mutual
  pub data Value : Type 0 where
    string : Bytes → Value
    bool : Bool → Value
    int : ℤ → Value
    int64 : ℤ → Value
    object : Fields → Value
    array : Items → Value
    other : Value

  pub data Fields : Type 0 where
    end : Fields
    field : Bytes → Value → Fields → Fields

  pub data Items : Type 0 where
    nil : Items
    cons : Value → Items → Items

unfoldable pub get_field : Bytes → Fields → Option Value
get_field k end = none
get_field k (field j v fs) = if bytes_eq k j then some v else get_field k fs

-- Type assertions.
abbrev pub as_object : Option Value → Option Fields
as_object (some (object fs)) = some fs
as_object _ = none

abbrev pub as_array : Option Value → Option Items
as_array (some (array xs)) = some xs
as_array _ = none

abbrev pub as_bool : Bool → Option Value → Bool
as_bool d (some (bool b)) = b
as_bool d _ = d

abbrev pub as_string : Bytes → Option Value → Bytes
as_string d (some (string s)) = s
as_string d _ = d

abbrev pub as_int64 : Option Value → ℤ
as_int64 (some (int64 n)) = n
as_int64 _ = pos 0

-- A field of an object that is a field itself.
abbrev pub field_of : Bytes → Option Fields → Option Value
field_of k none = none
field_of k (some fs) = get_field k fs

abbrev pub items : Option Items → Items
items none = nil
items (some xs) = xs

unfoldable pub count_items : Items → ℕ
count_items nil = 0
count_items (cons v xs) = 1 + count_items xs

unfoldable pub is_enabled : Value → Bool
unfolding get_field
is_enabled v = as_bool false (field_of (codes "enabled") (as_object (some v)))

-- The cameras with "enabled": true.
unfoldable pub count_enabled : Items → ℕ
unfolding is_enabled
count_enabled nil = 0
count_enabled (cons v xs) = let rest = count_enabled xs in if is_enabled v then 1 + rest else rest

pub data HealthStatus : Type 0 where
  healthy degraded unhealthy : HealthStatus

pub data Detail : Type 0 where
  orchestrator_not_running no_active_cameras queue_critical : Detail

pub record Indicators : Type 0 where
  pub orchestrator_running : Bool
  pub cameras_active : ℕ
  pub cameras_total : ℕ
  pub uploads_recent : ℤ
  pub queue_health : Bytes
  pub ntp_healthy : Bool

-- The answer of the health check, without its timestamp.
pub record HealthReport : Type 0 where
  pub status : HealthStatus
  pub details : List Detail
  pub indicators : Option Indicators

-- By the array of the cameras and the maps of the orchestrator, the uploads, the queue and the time.
unfoldable pub indicators_from :
    Option Items → Option Fields → Option Fields → Option Fields → Option Fields → Indicators
unfolding get_field count_items count_enabled
indicators_from cameras orchestrator upload queue time = record {
  orchestrator_running = as_bool false (field_of (codes "running") orchestrator);
  cameras_active = count_enabled (items cameras);
  cameras_total = count_items (items cameras);
  uploads_recent =
      as_int64 (field_of (codes "uploads_success") (as_object (field_of (codes "stats") upload)));
  queue_health = as_string (codes "unknown") (field_of (codes "health") queue);
  ntp_healthy = as_bool true (field_of (codes "ntp_healthy") time);
}

unfoldable pub indicators_of : Fields → Indicators
unfolding indicators_from
indicators_of m =
    indicators_from (as_array (get_field (codes "cameras") m))
      (as_object (get_field (codes "orchestrator") m)) (as_object (get_field (codes "upload") m))
      (as_object (get_field (codes "queue") m)) (as_object (get_field (codes "time") m))

abbrev pub detail_if : Bool → Detail → List Detail
detail_if b d = if b then d ∷ [] else []

unfoldable pub details_of : Indicators → List Detail
details_of i =
    detail_if (not i.orchestrator_running) orchestrator_not_running
    ++ (detail_if (ltb 0 i.cameras_total && i.cameras_active == 0) no_active_cameras
        ++ detail_if (bytes_eq i.queue_health (codes "critical")) queue_critical)

abbrev pub health_of : List Detail → HealthStatus
health_of [] = healthy
health_of (d ∷ ds) = degraded

abbrev pub report_of : Indicators → HealthReport
report_of i = record {
  status = health_of (details_of i);
  details = details_of i;
  indicators = some i;
}

unfoldable pub build_health_status : Value → HealthReport
unfolding indicators_of details_of
build_health_status (object m) = report_of (indicators_of m)
build_health_status v = record { status = healthy; details = []; indicators = none }

-- What getStatus reads of the other parts, the maps that are there only with their part as options.
pub record Parts : Type 0 where
  pub version : Bytes
  pub commit : Bytes
  pub queued_images : ℤ
  pub uploads_today : ℤ
  pub system : Option Fields
  pub has_orchestrator : Bool
  pub time_health : Option Fields
  pub update : Option Fields

unfoldable pub enabled_cameras : List Camera → ℕ
enabled_cameras [] = 0
enabled_cameras (c ∷ cs) = let rest = enabled_cameras cs in if c.enabled then 1 + rest else rest

unfoldable pub camera_count : List Camera → ℕ
camera_count [] = 0
camera_count (c ∷ cs) = 1 + camera_count cs

unfoldable pub get_update_channel : Bytes → Bytes
get_update_channel channel =
    if bytes_eq channel []
    then codes "latest"
    else if bytes_eq channel (codes "latest")
    then codes "latest"
    else if bytes_eq channel (codes "edge")
    then codes "edge"
    else codes "latest"

abbrev pub with_object : Bytes → Option Fields → Fields → Fields
with_object k none fs = fs
with_object k (some v) fs = field k (object v) fs

-- The status of the orchestrator is put in as the struct that it is.
abbrev pub later_fields : Parts → Fields
later_fields p = with_object (codes "system") p.system (
    with_object (codes "time_health") p.time_health (
      with_object (codes "update") p.update
        (if p.has_orchestrator then field (codes "orchestrator") other end else end)))

abbrev pub status_fields : Parts → GlobalSettings → List Camera → Fields
status_fields p g cs = field (codes "version") (string p.version) (
    field (codes "commit") (string p.commit) (
      field (codes "update_channel") (string (get_update_channel g.update_channel)) (
        field (codes "timezone") (string g.timezone) (
          field (codes "cameras") (int (pos (enabled_cameras cs))) (
            field (codes "total_cameras") (int (pos (camera_count cs))) (
              field (codes "queued_images") (int p.queued_images)
                (field (codes "uploads_today") (int64 p.uploads_today) (later_fields p))))))))

unfoldable pub get_status : Parts → GlobalSettings → List Camera → Value
unfolding enabled_cameras camera_count get_update_channel
get_status p g cs = object (status_fields p g cs)
