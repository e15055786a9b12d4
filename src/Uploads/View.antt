-- ===== src/Uploads/View.antt =====
-- The part of the upload worker that tracks tasks, and the steps of internal/scheduler/upload.go
-- that leave it alone.
use aviationwx_org_bridge.Prelude.{
  ℕ, ◌≡◌, refl, inl, inr, ◌∙◌, Bool, true, false, List, none, some, Bool-cases, Option-cases,
}
use aviationwx_org_bridge.Prelude.Clock.{GoTime}
use aviationwx_org_bridge.Files.Bytes.{Bytes}
use aviationwx_org_bridge.Files.Maps.{lookup}
use aviationwx_org_bridge.Uploads.Types.{
  UploadWorker, UploadTask, UploadFailureState, Running, Coordinator,
}
use aviationwx_org_bridge.Uploads.Failures.{
  Ending, returned, panicked, change_failures, is_auth_error, record_success, record_failure,
  handle_auth_failure,
}
use aviationwx_org_bridge.Uploads.Steps.{
  Outcome, unreadable, attempted, crashed, timed_out, count_retry, then_auth, count_failure,
  conclude, settle_upload,
}

pub record View : Type 0 where
  pub in_flight : List Bytes
  pub channel : List UploadTask
  pub running : List Running
  pub active_uploads : ℕ
  pub max_concurrent : ℕ
  pub coordinator : Coordinator

abbrev pub view : UploadWorker → View
view w = record {
  in_flight = w.in_flight;
  channel = w.channel;
  running = w.running;
  active_uploads = w.active_uploads;
  max_concurrent = w.max_concurrent;
  coordinator = w.coordinator;
}

view-change_failures :
    (f : UploadFailureState → UploadFailureState) (id : Bytes) (w : UploadWorker)
    → view (change_failures f id w).1 ≡ view w
unfolding change_failures
view-change_failures f id w = elim (Option-cases (lookup id w.camera_failures)) [
  | inl missing ↦ rw (missing, change_failures) refl
  | inr (s, found) ↦ rw (found, change_failures) refl
]

view-record_failure :
    (now : GoTime) (id err : Bytes) (w : UploadWorker)
    → view (record_failure now id err w).1 ≡ view w
unfolding record_failure
view-record_failure now id err w = view-change_failures _ id _

view-handle_auth_failure :
    (now : GoTime) (id : Bytes) (w : UploadWorker) → view (handle_auth_failure now id w).1 ≡ view w
unfolding handle_auth_failure
view-handle_auth_failure now id w = view-change_failures _ id _

pub view-count_retry : (retried : Bool) (w : UploadWorker) → view (count_retry retried w) ≡ view w
view-count_retry true w = refl
view-count_retry false w = refl

view-then_auth :
    (now : GoTime) (id err : Bytes) (r : Ending × UploadWorker)
    → view (then_auth now id err r) ≡ view r.1
unfolding then_auth
view-then_auth now id err (panicked, w) = refl
view-then_auth now id err (returned, w) = elim (Bool-cases (is_auth_error err)) [
  | inl auth ↦ rw auth (view-handle_auth_failure now id w)
  | inr other ↦ rw other refl
]

view-count_failure :
    (now : GoTime) (id err : Bytes) (w : UploadWorker) → view (count_failure now id err w) ≡ view w
unfolding count_failure
view-count_failure now id err w =
    view-then_auth now id err (record_failure now id err w) ∙ view-record_failure now id err w

view-conclude :
    (now : GoTime) (id : Bytes) (outcome : Outcome) (w : UploadWorker)
    → view (conclude now id outcome w).1 ≡ view w
unfolding conclude record_success
view-conclude now id (unreadable err) w = view-record_failure now id err w
view-conclude now id (attempted none second) w = refl
view-conclude now id (attempted (some err) none) w = elim (Bool-cases (is_auth_error err)) [
  | inl auth ↦ rw auth (view-count_failure now id err w)
  | inr other ↦ rw other refl
]
view-conclude now id (attempted (some err) (some err')) w = elim (Bool-cases (is_auth_error err)) [
  | inl auth ↦ rw auth (view-count_failure now id err w)
  | inr other ↦ rw other (view-count_failure now id err' (count_retry true w))
]
view-conclude now id (crashed retried err) w =
    view-count_failure now id err (count_retry retried w) ∙ view-count_retry retried w
view-conclude now id (timed_out retried err) w =
    view-record_failure now id err (count_retry retried w) ∙ view-count_retry retried w

view-settled : (t : UploadTask) (r : Bool × UploadWorker) → view (settle_upload t r) ≡ view r.1
unfolding settle_upload
view-settled t (false, w) = refl
view-settled t (true, w) = view-change_failures _ t.camera_id _

-- The end of an upload counts it and marks the image, and nothing else.
pub view-settle_upload :
    (now : GoTime) (t : UploadTask) (id : Bytes) (outcome : Outcome) (w : UploadWorker)
    → view (settle_upload t (conclude now id outcome w)) ≡ view w
view-settle_upload now t id outcome w =
    view-settled t (conclude now id outcome w) ∙ view-conclude now id outcome w
