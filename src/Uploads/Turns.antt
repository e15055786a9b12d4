-- ===== src/Uploads/Turns.antt =====
-- uploadWorkerRoutine and the deadline of uploadWithRetry, internal/scheduler/upload.go: the places a
-- goroutine goes through, one for each section under a lock.
use aviationwx_org_bridge.Prelude.{ℕ, zero, suc, List, [], ◌∷◌, ◌++◌, Option, none, some}
use aviationwx_org_bridge.Uploads.Types.{
  UploadTask, Running, taken, counted, uploading, cleaning, released,
}

-- The task of a goroutine that turns to its next place, and the goroutines of a list then.
abbrev pub Turned : Type 0
Turned = Option (UploadTask × List Running)

-- The end of one goroutine's turn, with a goroutine before it or others after it.
unfoldable pub go_on : Running → Turned → Turned
go_on r none = none
go_on r (some (t, rs)) = some (t, r ∷ rs)

unfoldable pub followed_by : List Running → Turned → Turned
followed_by rs none = none
followed_by rs (some (t, next)) = some (t, next ++ rs)

-- The i-th goroutine turns to its next place, if it stands where it can.
unfoldable pub turn : (Running → Turned) → ℕ → List Running → Turned
turn f i [] = none
turn f zero (r ∷ rs) = followed_by rs (f r)
turn f (suc i) (r ∷ rs) = go_on r (turn f i rs)

-- activeUploads is incremented, uploadWithRetry begins, it ends, the file is deleted from inFlight, and
-- activeUploads is decremented, which frees the goroutine.
abbrev pub to_counted : Running → Turned
to_counted (taken t) = some (t, counted t ∷ [])
to_counted _ = none

abbrev pub to_uploading : Running → Turned
to_uploading (counted t) = some (t, uploading t ∷ [])
to_uploading _ = none

abbrev pub to_cleaning : Running → Turned
to_cleaning (uploading t) = some (t, cleaning t ∷ [])
to_cleaning _ = none

abbrev pub to_released : Running → Turned
to_released (cleaning t) = some (t, released t ∷ [])
to_released _ = none

abbrev pub to_free : Running → Turned
to_free (released t) = some (t, [])
to_free _ = none
