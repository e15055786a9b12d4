-- ===== src/Console/Health.antt =====
-- The health check of internal/web/server.go on the status of cmd/bridge/main.go.
use aviationwx_org_bridge.Prelude.{
  ◌≡◌, refl, ap, ◌∙◌, Bool, true, false, List, [], ◌∷◌, Option, none, some, if◌then◌else◌,
  Bool-cases, inl, inr,
}
use aviationwx_org_bridge.Prelude.Int.{pos}
use aviationwx_org_bridge.Files.Bytes.{Bytes, codes, bytes_eq}
use aviationwx_org_bridge.Config.Types.{Camera, GlobalSettings}
use aviationwx_org_bridge.Config.Store.{Json}
use aviationwx_org_bridge.Console.Status.{
  Value, string, bool, int, int64, object, array, other, Fields, Parts, Detail,
  orchestrator_not_running, degraded, build_health_status, get_status, get_field, indicators_of,
  details_of, health_of, count_items, count_enabled, with_object, as_object, field, end, Indicators,
  indicators_from, later_fields, status_fields, report_of,
}
use aviationwx_org_bridge.Console.Types.{Callbacks, Console, health_page}
use aviationwx_org_bridge.Console.Handlers.{status_code, handle_healthz}

get_field-with_object :
    (k j : Bytes) (o : Option Fields) (fs : Fields)
    → bytes_eq k j ≡ false
    → get_field k (with_object j o fs) ≡ get_field k fs
unfolding get_field
get_field-with_object k j none fs h = refl
get_field-with_object k j (some v) fs h = rw h refl

-- There is no map under a key that none of the parts has.
later_fields_other :
    (k : Bytes) (p : Parts)
    → bytes_eq k (codes "system") ≡ false
    → bytes_eq k (codes "time_health") ≡ false
    → bytes_eq k (codes "update") ≡ false
    → as_object (get_field k (later_fields p)) ≡ none
unfolding get_field
later_fields_other k p s t u =
    ap as_object (
      get_field-with_object k (codes "system") p.system _ s
      ∙ get_field-with_object k (codes "time_health") p.time_health _ t
      ∙ get_field-with_object k (codes "update") p.update _ u)
    ∙ orchestrated p.has_orchestrator
  where
    orchestrated :
        (b : Bool)
        → as_object (get_field k (if b then field (codes "orchestrator") other end else end)) ≡ none
    orchestrated true = elim (Bool-cases (bytes_eq k (codes "orchestrator"))) [
      | inl h ↦ rw h refl
      | inr h ↦ rw h refl
    ]
    orchestrated false = refl

-- What the health check makes of the status of the daemon.
abbrev pub misread : Indicators
misread = record {
  orchestrator_running = false;
  cameras_active = 0;
  cameras_total = 0;
  uploads_recent = pos 0;
  queue_health = codes "unknown";
  ntp_healthy = true;
}

indicators_from-none :
    (o u q t : Option Fields)
    → o ≡ none
    → u ≡ none
    → q ≡ none
    → t ≡ none
    → indicators_from none o u q t ≡ misread
unfolding indicators_from count_items count_enabled
indicators_from-none o u q t ho hu hq ht = rw (ho, hu, hq, ht) refl

indicators_of-status_fields :
    (p : Parts) (g : GlobalSettings) (cs : List Camera)
    → indicators_of (status_fields p g cs) ≡ misread
unfolding indicators_of get_field bytes_eq
indicators_of-status_fields p g cs =
    indicators_from-none _ _ _ _ (later_fields_other (codes "orchestrator") p refl refl refl)
      (later_fields_other (codes "upload") p refl refl refl)
      (later_fields_other (codes "queue") p refl refl refl)
      (later_fields_other (codes "time") p refl refl refl)

-- The health check takes a daemon whose orchestrator runs for one whose orchestrator does not, for it asks
-- for maps where getStatus puts other values: whatever the state of the daemon, it reports that the service
-- is degraded, that the orchestrator is not running and that there are no cameras.
pub build_health_status-get_status :
    (p : Parts) (g : GlobalSettings) (cs : List Camera)
    → build_health_status (get_status p g cs) ≡ record {
      status = degraded;
      details = orchestrator_not_running ∷ [];
      indicators = some misread;
    }
unfolding build_health_status get_status details_of bytes_eq
build_health_status-get_status p g cs = ap report_of (indicators_of-status_fields p g cs)

code_of :
    (J : Json) (ds : List Detail) (i : Option Indicators)
    → status_code J (record { status = health_of ds; details = ds; indicators = i }) ≡ pos 200
code_of J [] i = refl
code_of J (d ∷ ds) i = refl

module _ (J : Json) where
  -- The health check never reports that the daemon is unhealthy: whatever the status is, it answers 200.
  pub handle_healthz_code :
      (cb : Callbacks) (k : Console J.Text)
      → handle_healthz J cb k ≡ (health_page (pos 200) (build_health_status cb.daemon_status), k)
  unfolding handle_healthz build_health_status
  handle_healthz_code cb k =
      ap (λ c. (health_page c (build_health_status cb.daemon_status), k)) (code cb.daemon_status)
    where
      code : (v : Value) → status_code J (build_health_status v) ≡ pos 200
      code (object m) = code_of J (details_of (indicators_of m)) (some (indicators_of m))
      code (string s) = refl
      code (bool b) = refl
      code (int n) = refl
      code (int64 n) = refl
      code (array xs) = refl
      code other = refl
