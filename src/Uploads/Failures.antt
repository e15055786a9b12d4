-- ===== src/Uploads/Failures.antt =====
-- internal/scheduler/upload.go: recordSuccess, recordFailure, handleAuthFailure and isAuthError, and
-- how long an upload may take.
use aviationwx_org_bridge.Prelude.{
  ℕ, ◌+◌, ◌*◌, ◌/◌, Bool, false, ◌&&◌, ◌||◌, List, [], ◌∷◌, map, none, some, if◌then◌else◌, ltb,
  leb, length, take,
}
use aviationwx_org_bridge.Prelude.Int.{pos, ◌+ℤ◌}
use aviationwx_org_bridge.Prelude.Clock.{GoTime, seconds, after}
use aviationwx_org_bridge.Files.Bytes.{Bytes, codes, bytes_eq}
use aviationwx_org_bridge.Files.Maps.{lookup, insert}
use aviationwx_org_bridge.Uploads.Types.{UploadWorker, UploadFailureState, truncate_day}

-- The seconds an upload of some bytes may take: 90 and one for each 5 KB, from 3 minutes to 15.
unfoldable pub max_upload_seconds : ℕ → ℕ
max_upload_seconds size =
    let by_size = 90 + size / (5 * 1024) in
    let capped = if ltb (15 * 60) by_size then 15 * 60 else by_size in
    if ltb capped (3 * 60) then 3 * 60 else capped

-- strings.ToLower, for ASCII.
abbrev lower : ℕ → ℕ
lower c = if leb 65 c && leb c 90 then c + 32 else c

-- strings.Contains
unfoldable pub contains : Bytes → Bytes → Bool
contains [] s = bytes_eq [] s
contains (c ∷ cs) s = bytes_eq (take (length s) (c ∷ cs)) s || contains cs s

unfoldable pub contains_any : Bytes → List Bytes → Bool
contains_any text [] = false
contains_any text (s ∷ ss) = contains text s || contains_any text ss

unfoldable pub is_auth_error : Bytes → Bool
is_auth_error err = contains_any (map lower err) (
    codes "auth"
    ∷ codes "401"
    ∷ codes "403"
    ∷ codes "login"
    ∷ codes "credential"
    ∷ codes "permission"
    ∷ codes "access denied"
    ∷ [])

unfoldable pub record_success : GoTime → UploadWorker → UploadWorker
record_success now w =
    let today = truncate_day now in
    let new_day = after today w.stats.today_date in
    record w {
      stats = record (w.stats) {
        today_date = if new_day then today else w.stats.today_date;
        uploads_success = w.stats.uploads_success + 1;
        uploads_today = (if new_day then 0 else w.stats.uploads_today) + 1;
        last_success_time = now;
      };
    }

-- The backoff of repeated failures: from the fourth on, 5 seconds for each and at most 30.
unfoldable pub after_failure : GoTime → UploadFailureState → UploadFailureState
after_failure now s =
    let n = s.consecutive_failures + 1 in
    record s {
      last_failure = now;
      consecutive_failures = n;
      backoff_until =
          if ltb 3 n
          then now +ℤ seconds (if ltb 30 (n * 5) then 30 else n * 5)
          else s.backoff_until;
    }

unfoldable pub after_auth_failure : GoTime → ℕ → UploadFailureState → UploadFailureState
after_auth_failure now auth_backoff s = record s {
  last_auth_failure = now;
  backoff_until = now +ℤ pos auth_backoff;
  consecutive_failures = s.consecutive_failures + 1;
}

-- Whether a call returned or panicked at a nil pointer.
pub data Ending : Type 0 where
  returned panicked : Ending

-- The change of a camera's failure record; a camera that was removed has none, and the code follows
-- the nil pointer.
unfoldable pub change_failures :
    (UploadFailureState → UploadFailureState) → Bytes → UploadWorker → Ending × UploadWorker
change_failures f id w = elim (lookup id w.camera_failures) [
  | none ↦ (panicked, w)
  | some s ↦ (returned, record w { camera_failures = insert id (f s) w.camera_failures })
]

unfoldable pub record_failure : GoTime → Bytes → Bytes → UploadWorker → Ending × UploadWorker
record_failure now id err w = change_failures (after_failure now) id (record w {
  stats = record (w.stats) {
    uploads_failed = w.stats.uploads_failed + 1;
    last_failure_time = now;
    last_failure_reason = err;
  };
})

unfoldable pub handle_auth_failure : GoTime → Bytes → UploadWorker → Ending × UploadWorker
handle_auth_failure now id w =
    change_failures (after_auth_failure now w.auth_backoff) id (record w {
      stats = record (w.stats) {
        auth_failures = w.stats.auth_failures + 1;
        uploads_failed = w.stats.uploads_failed + 1;
        last_failure_time = now;
      };
    })
