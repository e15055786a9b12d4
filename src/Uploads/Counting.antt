-- ===== src/Uploads/Counting.antt =====
-- The files and the goroutines that count for inFlight and activeUploads of internal/scheduler/upload.go,
-- and what the turns of a goroutine change.
use aviationwx_org_bridge.Prelude.{
  ℕ, zero, suc, ◌+◌, ◌≤◌, ◌≡◌, Bool, true, false, List, [], ◌∷◌, ◌++◌, none, some, arith, length,
}
use aviationwx_org_bridge.Files.Bytes.{Bytes, bytes_eq}
use aviationwx_org_bridge.Files.Maps.{occurrences}
use aviationwx_org_bridge.Uploads.Types.{
  UploadTask, Running, taken, counted, uploading, cleaning, released, file_path,
}
use aviationwx_org_bridge.Uploads.Turns.{
  Turned, go_on, followed_by, turn, to_counted, to_uploading, to_cleaning, to_released, to_free,
}

unfoldable pub sent_paths : List UploadTask → List Bytes
sent_paths [] = []
sent_paths (t ∷ ts) = file_path t ∷ sent_paths ts

-- The files of the goroutines that have not deleted theirs.
abbrev pub held_path : Running → List Bytes → List Bytes
held_path (released t) ps = ps
held_path (taken t) ps = file_path t ∷ ps
held_path (counted t) ps = file_path t ∷ ps
held_path (uploading t) ps = file_path t ∷ ps
held_path (cleaning t) ps = file_path t ∷ ps

unfoldable pub taken_paths : List Running → List Bytes
taken_paths [] = []
taken_paths (r ∷ rs) = held_path r (taken_paths rs)

-- Whether a goroutine is between its increment of activeUploads and its decrement.
abbrev pub weight : Running → ℕ
weight (taken t) = 0
weight _ = 1

unfoldable pub counted_uploads : List Running → ℕ
counted_uploads [] = 0
counted_uploads (r ∷ rs) = weight r + counted_uploads rs

abbrev pub one_if : Bool → ℕ
one_if true = 1
one_if false = 0

pub occurrences-sent_paths :
    (p : Bytes) (ts : List UploadTask) (t : UploadTask)
    → occurrences p (sent_paths (ts ++ t ∷ []))
      ≡ occurrences p (sent_paths ts) + one_if (bytes_eq p (file_path t))
unfolding occurrences sent_paths
occurrences-sent_paths p [] t = ground arith
occurrences-sent_paths p (s ∷ ts) t = ground (arith, occurrences-sent_paths p ts t)

-- What a turn changes: how much lower the tasks that hold a file are, by how much activeUploads rises
-- and falls, and how many goroutines are freed.
pub record Change : Type 0 where
  pub files : ℕ
  pub up : ℕ
  pub down : ℕ
  pub freed : ℕ

abbrev pub Changed : (UploadTask → Change) → Bytes → List Running → Turned → Type 0
Changed d p rs none = Unit
Changed d p rs (some (t, rs')) =
    (occurrences p (taken_paths rs) ≡ occurrences p (taken_paths rs') + (d t).files)
    × (counted_uploads rs + (d t).up ≡ counted_uploads rs' + (d t).down)
    × (length rs ≡ length rs' + (d t).freed)

-- The changes of the five turns.
abbrev pub raises : UploadTask → Change
raises t = record { files = 0; up = 1; down = 0; freed = 0 }

abbrev pub lowers : UploadTask → Change
lowers t = record { files = 0; up = 0; down = 1; freed = 1 }

abbrev pub changes_nothing : UploadTask → Change
changes_nothing t = record { files = 0; up = 0; down = 0; freed = 0 }

abbrev pub releases : Bytes → UploadTask → Change
releases p t = record { files = one_if (bytes_eq p (file_path t)); up = 0; down = 0; freed = 0 }

Changed-go_on :
    (d : UploadTask → Change) (p : Bytes) (r : Running) (rs : List Running) (o : Turned)
    → Changed d p rs o
    → Changed d p (r ∷ rs) (go_on r o)
unfolding go_on taken_paths occurrences counted_uploads
Changed-go_on d p r rs none h = tt
Changed-go_on d p (released u) rs (some (t, rs')) h = ground (arith, h)
Changed-go_on d p (taken u) rs (some (t, rs')) h = ground (arith, h)
Changed-go_on d p (counted u) rs (some (t, rs')) h = ground (arith, h)
Changed-go_on d p (uploading u) rs (some (t, rs')) h = ground (arith, h)
Changed-go_on d p (cleaning u) rs (some (t, rs')) h = ground (arith, h)

-- The change of one goroutine is that of the list.
turn-Changed :
    (d : UploadTask → Change) (f : Running → Turned) (p : Bytes)
    → ((r : Running) (rs : List Running) → Changed d p (r ∷ rs) (followed_by rs (f r)))
    → (i : ℕ) (rs : List Running) → Changed d p rs (turn f i rs)
unfolding turn
turn-Changed d f p one i [] = tt
turn-Changed d f p one zero (r ∷ rs) = one r rs
turn-Changed d f p one (suc i) (r ∷ rs) =
    Changed-go_on d p r rs (turn f i rs) (turn-Changed d f p one i rs)

pub to_counted-Changed :
    (p : Bytes) (i : ℕ) (rs : List Running) → Changed raises p rs (turn to_counted i rs)
unfolding followed_by taken_paths occurrences counted_uploads
to_counted-Changed p = turn-Changed raises to_counted p (λ r rs.
    elim r as (λ k. Changed raises p (k ∷ rs) (followed_by rs (to_counted k))) [
      | taken t ↦ (omega arith, omega arith, omega arith)
      | counted t ↦ tt
      | uploading t ↦ tt
      | cleaning t ↦ tt
      | released t ↦ tt
    ])

pub to_uploading-Changed :
    (p : Bytes) (i : ℕ) (rs : List Running) → Changed changes_nothing p rs (turn to_uploading i rs)
unfolding followed_by taken_paths occurrences counted_uploads
to_uploading-Changed p = turn-Changed changes_nothing to_uploading p (λ r rs.
    elim r as (λ k. Changed changes_nothing p (k ∷ rs) (followed_by rs (to_uploading k))) [
      | counted t ↦ (omega arith, omega arith, omega arith)
      | taken t ↦ tt
      | uploading t ↦ tt
      | cleaning t ↦ tt
      | released t ↦ tt
    ])

pub to_cleaning-Changed :
    (p : Bytes) (i : ℕ) (rs : List Running) → Changed changes_nothing p rs (turn to_cleaning i rs)
unfolding followed_by taken_paths occurrences counted_uploads
to_cleaning-Changed p = turn-Changed changes_nothing to_cleaning p (λ r rs.
    elim r as (λ k. Changed changes_nothing p (k ∷ rs) (followed_by rs (to_cleaning k))) [
      | uploading t ↦ (omega arith, omega arith, omega arith)
      | taken t ↦ tt
      | counted t ↦ tt
      | cleaning t ↦ tt
      | released t ↦ tt
    ])

pub to_released-Changed :
    (p : Bytes) (i : ℕ) (rs : List Running) → Changed (releases p) p rs (turn to_released i rs)
unfolding followed_by taken_paths occurrences counted_uploads
to_released-Changed p = turn-Changed (releases p) to_released p (λ r rs.
    elim r as (λ k. Changed (releases p) p (k ∷ rs) (followed_by rs (to_released k))) [
      | cleaning t ↦ (ground arith, omega arith, omega arith)
      | taken t ↦ tt
      | counted t ↦ tt
      | uploading t ↦ tt
      | released t ↦ tt
    ])

pub to_free-Changed :
    (p : Bytes) (i : ℕ) (rs : List Running) → Changed lowers p rs (turn to_free i rs)
unfolding followed_by taken_paths occurrences counted_uploads
to_free-Changed p = turn-Changed lowers to_free p (λ r rs.
    elim r as (λ k. Changed lowers p (k ∷ rs) (followed_by rs (to_free k))) [
      | released t ↦ (omega arith, omega arith, omega arith)
      | taken t ↦ tt
      | counted t ↦ tt
      | uploading t ↦ tt
      | cleaning t ↦ tt
    ])

-- There are no more active uploads than goroutines.
pub counted_uploads_bound : (rs : List Running) → counted_uploads rs ≤ length rs
unfolding counted_uploads
counted_uploads_bound [] = omega arith
counted_uploads_bound (taken t ∷ rs) = omega (arith, counted_uploads_bound rs)
counted_uploads_bound (counted t ∷ rs) = omega (arith, counted_uploads_bound rs)
counted_uploads_bound (uploading t ∷ rs) = omega (arith, counted_uploads_bound rs)
counted_uploads_bound (cleaning t ∷ rs) = omega (arith, counted_uploads_bound rs)
counted_uploads_bound (released t ∷ rs) = omega (arith, counted_uploads_bound rs)
